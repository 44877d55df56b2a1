-- ===== src/Inbound.antt =====
-- The durable debounce queue of `store/app/webhooks/inbound_buffer.py`: the messages of a sender are
-- gathered in a batch, which is leased, processed and completed, or given back.
pub mod Jobs
pub mod Enqueue
pub mod Claim
pub mod Finish
pub mod Recover
pub mod Outbound
pub mod View
pub mod Exclusive
pub mod Merge
pub mod Steps
pub mod Ends
pub mod Returns
pub mod Line
pub mod Unanswered
pub mod Replies
pub mod Delivery
pub mod Duplicates
pub mod Sends
pub mod Tests
