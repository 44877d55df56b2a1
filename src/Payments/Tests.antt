-- ===== src/Payments/Tests.antt =====
-- A customer whose session waits for the payment of the only order, and a screenshot of a transfer.
use social_media_manager.Prelude.{
  ◌≡◌, refl, true, false, none, some, [], ◌∷◌, ◌==◌, ◌||◌, if◌then◌else◌,
}
use social_media_manager.Prelude.Result.{ok}
use social_media_manager.Orders.Table.{pending, reserved, Order, find_order, update_order}
use social_media_manager.Orders.Payment.{
  update_order_payment_status, parse_payment_status, set_payment_status, replay_of, find_replay,
  update_row, apply_status, settle_customer,
}
use social_media_manager.Orders.Queries.{get_customer_open_order_by_id, get_unambiguous_open_order}
use social_media_manager.Prelude.Text.{strip, lower, upper, occurs}
use social_media_manager.Payments.Sessions.{get_session, set_current_order}
use social_media_manager.Payments.Readers.{
  Readers, Vision, is_transaction_date_valid, normalize_payment_reference, is_proof_hash,
  find_payment_method, classify_payment_method_name, method_currency, normalize_currency,
  expected_receipt_amount, validate_payment_identifier_match, len, keep_alphanumeric, all_hex,
  currency_alias, in_bolivares, meet,
}
use social_media_manager.Payments.Proof.{Desk, Checked, check_proof}
use social_media_manager.Payments.Verify.{
  World, correct_answer, duplicate_answer, found, get_payment_target_order, verify_order,
  verify_payment_proof,
}
use social_media_manager.Payments.Reuse.{verified_once}
use social_media_manager.Payments.Verdict.{Verdict, verify_payment_proof-Verdict}

abbrev readers : Readers
readers = record {
  normalize_catalog_text = λ s. s;
  parse_transaction_date = λ s. if s == "2026-05-02" then some 100000 else none;
  safe_decimal = λ s. if s == "1000,00" then some 100000 else none;
  sha256 = λ s. s;
  emails = λ s. [];
  numbers = λ s. if s == "cuenta 0102030405" || s == "0102030405" then "0102030405" ∷ [] else [];
  segments = λ s. [];
}

-- Fifty bolívares to the dollar.
abbrev desk : Desk
desk = record {
  readers = readers;
  methods = record { name = "pago movil"; information = "cuenta 0102030405" } ∷ [];
  now = 101000;
  rate = some (record { numerator = 50; denominator = 1 });
  currency_of = λ o. "USD";
}

abbrev screenshot : Vision
screenshot = record {
  analyzed = true;
  confidence = "high";
  date = "2026-05-02";
  reference = "004512";
  proof_hash = "aaaaaaaaaaaaaaaabbbbbbbbbbbbbbbb0000000000000000ffffffffffffffff";
  payment_method = "bank_transfer";
  currency = "BS";
  amount = "1000,00";
  recipient_identifier = "0102030405";
  recipient_name = "";
  status = "completed";
}

abbrev order : Order
order = record {
  id = "6";
  customer_id = some "ana";
  terms = record {
    items = [];
    payment_method = "pago movil";
    shipping_city = "";
    shipping_address = "";
    shipping_method = "";
    fulfillment_type = "pickup";
    shipping_zone = "";
    pickup_agency = "";
    shipping_fee = 0;
  };
  total = 2000;
  merchandise_total = some 2000;
  payment_status = pending;
  payment_proof = none;
  payment_proof_hash = none;
  payment_reference_key = none;
  inventory_status = reserved;
  inventory_reserved_at = some 90000;
  customer_totals_applied = false;
  shipping_status = "pending";
  tracking_number = none;
  created_at = 90000;
}

-- The same for another customer.
abbrev other_order : Order
other_order = record order { id = "7"; customer_id = some "eva" }

abbrev world : World
world = record {
  store = record {
    orders = order ∷ other_order ∷ [];
    customers = [];
    replays = [];
    sheets = record { rows = []; has_stock_column = true; ledger = none; cache = none };
  };
  sessions =
      record {
        customer_id = "ana";
        active_agent = "payment";
        active_intent = none;
        workflow_stage = "waiting_for_payment";
        checkout_draft = [];
        current_order_id = some "6";
      }
      ∷ [];
}

verify_payment_proof-Verdict_example :
    Verdict desk screenshot none
      (get_payment_target_order "ana" true world)
      world
      (verify_payment_proof desk "ana" screenshot none true true world)
verify_payment_proof-Verdict_example =
    verify_payment_proof-Verdict desk "ana" screenshot none true world

abbrev checked : Checked
checked = record {
  expected = 100000;
  detected = 100000;
  kind = "bank_transfer";
  currency = "VES";
  proof = record {
    proof_hash = "aaaaaaaaaaaaaaaabbbbbbbbbbbbbbbb0000000000000000ffffffffffffffff";
    reference_key = "pago movil|bank_transfer|VES|004512";
  };
}

transfer_verified :
    (verify_payment_proof desk "ana" screenshot none true true world).0
    ≡ ok (correct_answer order checked)
unfolding verify_payment_proof verify_order get_payment_target_order get_session set_current_order
    get_customer_open_order_by_id get_unambiguous_open_order check_proof is_transaction_date_valid
    normalize_payment_reference is_proof_hash find_payment_method classify_payment_method_name
    method_currency normalize_currency expected_receipt_amount validate_payment_identifier_match
    update_order_payment_status parse_payment_status set_payment_status replay_of find_replay
    find_order update_row apply_status settle_customer strip lower upper occurs len
    keep_alphanumeric all_hex currency_alias in_bolivares meet update_order
transfer_verified = refl

abbrev first : World
first = (verify_payment_proof desk "ana" screenshot none true true world).1

target_of_ana : get_payment_target_order "ana" true world ≡ found order
unfolding verify_payment_proof verify_order get_payment_target_order get_session set_current_order
    get_customer_open_order_by_id get_unambiguous_open_order check_proof is_transaction_date_valid
    normalize_payment_reference is_proof_hash find_payment_method classify_payment_method_name
    method_currency normalize_currency expected_receipt_amount validate_payment_identifier_match
    update_order_payment_status parse_payment_status set_payment_status replay_of find_replay
    find_order update_row apply_status settle_customer strip lower upper occurs len
    keep_alphanumeric all_hex currency_alias in_bolivares meet update_order
target_of_ana = refl

target_of_eva : get_payment_target_order "eva" true first ≡ found other_order
unfolding verify_payment_proof verify_order get_payment_target_order get_session set_current_order
    get_customer_open_order_by_id get_unambiguous_open_order check_proof is_transaction_date_valid
    normalize_payment_reference is_proof_hash find_payment_method classify_payment_method_name
    method_currency normalize_currency expected_receipt_amount validate_payment_identifier_match
    update_order_payment_status parse_payment_status set_payment_status replay_of find_replay
    find_order update_row apply_status settle_customer strip lower upper occurs len
    keep_alphanumeric all_hex currency_alias in_bolivares meet update_order
target_of_eva = refl

proof_passes : check_proof desk order screenshot ≡ ok checked
unfolding verify_payment_proof verify_order get_payment_target_order get_session set_current_order
    get_customer_open_order_by_id get_unambiguous_open_order check_proof is_transaction_date_valid
    normalize_payment_reference is_proof_hash find_payment_method classify_payment_method_name
    method_currency normalize_currency expected_receipt_amount validate_payment_identifier_match
    update_order_payment_status parse_payment_status set_payment_status replay_of find_replay
    find_order update_row apply_status settle_customer strip lower upper occurs len
    keep_alphanumeric all_hex currency_alias in_bolivares meet update_order
proof_passes = refl

proof_passes_again : check_proof desk other_order screenshot ≡ ok checked
unfolding verify_payment_proof verify_order get_payment_target_order get_session set_current_order
    get_customer_open_order_by_id get_unambiguous_open_order check_proof is_transaction_date_valid
    normalize_payment_reference is_proof_hash find_payment_method classify_payment_method_name
    method_currency normalize_currency expected_receipt_amount validate_payment_identifier_match
    update_order_payment_status parse_payment_status set_payment_status replay_of find_replay
    find_order update_row apply_status settle_customer strip lower upper occurs len
    keep_alphanumeric all_hex currency_alias in_bolivares meet update_order
proof_passes_again = refl

verified_once_example :
    verify_payment_proof desk "eva" screenshot none true true first
    ≡ (ok (duplicate_answer other_order checked), first)
verified_once_example =
    verified_once desk desk "ana" "eva" screenshot screenshot none none true true world order
      other_order (correct_answer order checked) checked checked target_of_ana refl
      transfer_verified refl proof_passes target_of_eva refl refl proof_passes_again refl
