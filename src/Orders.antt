-- ===== src/Orders.antt =====
-- The order lifecycle of `store/app/crm/orders.py`: the orders table, its transactions, and the
-- operations that coordinate them with the spreadsheet under the inventory lock.
pub mod Table
pub mod Payment
pub mod Queries
pub mod Reserve
pub mod Release
pub mod Delete
pub mod Rows
pub mod Outcomes
pub mod Accounts
pub mod Sound
pub mod Shipping
pub mod Interleaving
pub mod Transactions
pub mod Sequences
pub mod Placed
pub mod Deleted
pub mod Elsewhere
pub mod Cleanup
pub mod Replays
pub mod Limit
pub mod Repeats
