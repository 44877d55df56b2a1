-- ===== src/Payments.antt =====
-- The check of payment proofs, `store/app/ai/payment/verifier.py`, over the orders and the sessions.
pub mod Sessions
pub mod Readers
pub mod Proof
pub mod Verify
pub mod Verdict
pub mod Reuse
pub mod Tests
