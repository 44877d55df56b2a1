-- ===== src/Lib.antt =====
-- The store service of the repository: its inventory, its orders and what depends on them.
--
-- A customer's order is a row of the database's `orders` table, and its stock lives on a Google
-- spreadsheet. An operation on an order therefore is a sequence of database transactions with calls
-- of the spreadsheet between them, made under one advisory lock; each call can fail before or after
-- it has its effect. The development models the spreadsheet and its ledger of movements, the table,
-- the operations, and the totals of a customer that paid orders move.
--
--   Prelude      numbers, strings, lists, dictionaries and results that the parts share
--   Inventory    store/app/catalog/sheets.py, the stock mutations: Ledger has the spreadsheet's data
--                and the ledger helpers, Request `_build_inventory_request` and
--                `_validate_existing_inventory_operation`, Plan the checks of `_update_stock`, Update
--                `_update_stock` itself, Lookup `inventory_operation_applied`. Stock, Planned, Book, Effect,
--                Sync, Looked and Conservation hold the proofs.
--   Reservation  store/app/crm/orders.py, `_deduct_order_inventory` and `_restore_order_inventory`: a
--                mutation under the order's operation name, with a lookup where it reports an error.
--                Attempts is about retries, StaleCache about the ledger's cache.
--   Customers    store/app/crm/customers.py: Totals has `increment_orders` and `decrement_orders`, Tags
--                the tags that follow from the totals.
--   Orders       store/app/crm/orders.py: Table has the rows, Payment `update_order_payment_status`,
--                Queries the reads that choose an order, Reserve `create_order` from the inventory lock
--                on, Release `_release_inventory_reservation` and the cleanup job, Delete `delete_order`,
--                Shipping `update_order_shipping`. Interleaving has each transaction as a step;
--                Sequences shows that the operations are sequences of these steps, Placed and Deleted how
--                `create_order` and `delete_order` end. Outcomes, Rows, Accounts, Sound, Transactions,
--                Elsewhere, Cleanup, Replays, Limit and Repeats hold the other proofs.
--   Routing      store/app/ai: Channel has the channel policies of ai/policies/channel_capabilities.py
--                and Arguments its policy on tool arguments; Intent has the phrases and Decide
--                `decide_route` of ai/routing.py; Orchestrate has ai/orchestrator.py, Gate the
--                question of ai/tools/executor.py to the channel before a tool runs. The detectors that match
--                regular expressions are arguments.
--   Inbound      store/app/webhooks/inbound_buffer.py, the queue of Meta's messages: Jobs has the tables,
--                Enqueue `enqueue_inbound_message` and the cleanup, Claim the claims and the heartbeat,
--                Finish the completion and `_requeue_failed_job`, Recover `recover_stale_inbound_jobs`,
--                Outbound the fence around a send. View, Exclusive and Merge show a sender's line of
--                messages, Steps, Ends and Returns each transaction on it, Line has each transaction as
--                a step; Unanswered, Replies, Delivery, Duplicates and Sends hold the other proofs.
--   Escalations  store/app/crm/escalations.py, the pauses of the assistant: Contacts has the columns and the
--                timeout setting, Pauses the updates, Expiry the end of automatic pauses and Batch the
--                scheduler's run. Steps has each operation as a step; Rules, Guards and Outcomes hold the proofs.
--   Payments     store/app/ai/payment/verifier.py, the check of a payment proof: Sessions has what it uses of
--                store/app/crm/sessions.py, Readers the reading of texts and amounts, Proof the checks
--                in their order, Verify `verify_payment_proof` over the orders and the sessions. Verdict and
--                Reuse hold the proofs.
--   Tests        runs at concrete inputs
--
-- A state is a record that operations take and return beside their result; an exception is an `err`
-- with the state that it leaves. What the network does to a spreadsheet operation is an argument, a
-- `Net`: which call raises, and for the writes whether they were applied. The generated id of a row and
-- the time are arguments too. Amounts are whole cents, sheet prices ten-thousandths of a dollar, and
-- stock is an integer; none of them is bounded in Python. Every loop is a recursion on a list or, for
-- sends, on the attempts that are left, so no fuel is needed. What code outside the repository answers is
-- an argument: regular expressions, dates, decimals and hashes, Kommo's confirmation, a send.
--
-- Not modelled: floating-point rounding, the validation and pricing before the lock in
-- `create_order`, the catalogue cache that is refreshed after a mutation, the reads that only show an
-- order, the `tags` column during payments, the reason texts of routing, the
-- asyncio tasks that call the queue of Meta's messages (semaphore, sleeps, the choice of a processor), log
-- lines, and the other services: channels, language models,
-- administration and the master service.
pub mod Prelude
pub mod Inventory
pub mod Reservation
pub mod Customers
pub mod Orders
pub mod Routing
pub mod Inbound
pub mod Escalations
pub mod Payments
pub mod Tests
