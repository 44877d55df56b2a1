-- ===== src/Escalations.antt =====
-- The pauses of the assistant for a customer, `store/app/crm/escalations.py`.
pub mod Contacts
pub mod Pauses
pub mod Expiry
pub mod Batch
pub mod Rules
pub mod Steps
pub mod Guards
pub mod Outcomes
pub mod Tests
