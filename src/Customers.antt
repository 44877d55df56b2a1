-- ===== src/Customers.antt =====
-- The purchase totals and tier tags of `store/app/crm/customers.py`.
pub mod Totals
pub mod Tags
