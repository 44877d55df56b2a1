-- ===== src/Inventory.antt =====
-- Stock mutations on the spreadsheet of `store/app/catalog/sheets.py`: the product sheet, the
-- `Inventory Movements` ledger worksheet and the process's cache of it. Each Google call may fail;
-- `Net` is the network's choice for one run of an operation.
pub mod Ledger
pub mod Request
pub mod Plan
pub mod Update
pub mod Lookup
pub mod Stock
pub mod Planned
pub mod Book
pub mod Effect
pub mod Sync
pub mod Looked
pub mod Conservation
