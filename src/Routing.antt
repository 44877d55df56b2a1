-- ===== src/Routing.antt =====
-- Which agent answers a message: `store/app/ai/routing.py`, `store/app/ai/orchestrator.py` and the
-- channel policies of `store/app/ai/policies/channel_capabilities.py`.
pub mod Channel
pub mod Arguments
pub mod Gate
pub mod Intent
pub mod Decide
pub mod Orchestrate
pub mod Tests
