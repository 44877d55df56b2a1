-- ===== src/Payments/Sessions.antt =====
-- The rows of `conversation_sessions`, and `get_session` and `set_current_order` of
-- `store/app/crm/sessions.py`.
use social_media_manager.Prelude.{
  String, Bool, Option, none, List, [], ◌∷◌, ◌==◌, find?, if◌then◌else◌,
}
use social_media_manager.Prelude.Dict.{Dict}

pub record Session : Type 0 where
  pub customer_id : String
  pub active_agent : String
  pub active_intent : Option String
  pub workflow_stage : String
  pub checkout_draft : Dict String
  pub current_order_id : Option String

abbrev is_row : String → Session → Bool
is_row customer s = s.customer_id == customer

-- `ON CONFLICT (customer_id) DO UPDATE`
unfoldable pub upsert : String → Session → (Session → Session) → List Session → List Session
upsert customer new f [] = new ∷ []
upsert customer new f (s ∷ ss) =
    if is_row customer s then f s ∷ ss else s ∷ upsert customer new f ss

unfoldable pub get_session : String → List Session → Option Session
get_session customer sessions = find? (is_row customer) sessions

abbrev new_session : String → Option String → String → String → Session
new_session customer order stage agent = record {
  customer_id = customer;
  active_agent = agent;
  active_intent = none;
  workflow_stage = stage;
  checkout_draft = [];
  current_order_id = order;
}

-- With an agent and a stage that are valid names.
unfoldable pub set_current_order :
    String → Option String → String → String → List Session → List Session
unfolding upsert
set_current_order customer order stage agent sessions =
    upsert customer (new_session customer order stage agent)
      (λ s. record s {
        active_agent = agent;
        workflow_stage = stage;
        current_order_id = order;
        checkout_draft = [];
      })
      sessions
