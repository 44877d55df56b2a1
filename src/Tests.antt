-- ===== src/Tests.antt =====
-- Concrete runs: a shop with one product, a customer and an order of two pieces.
use social_media_manager.Prelude.{
  ◌+◌, ◌≤◌, String, ◌≡◌, refl, ◌&&◌, ◌==◌, true, false, none, some, List, [], ◌∷◌, any, length,
  arith,
}
use social_media_manager.Prelude.Int.{pos, ◌-ℤ◌, ◌≤ℤ◌, int_laws}
use social_media_manager.Prelude.Result.{ok, err}
use social_media_manager.Prelude.Text.{strip, contains}
use social_media_manager.Inventory.Ledger.{
  deduct, SheetRow, Sheets, Net, reached, open_lost, write_unreported,
}
use social_media_manager.Inventory.Request.{Item}
use social_media_manager.Inventory.Update.{update_stock}
use social_media_manager.Inventory.Book.{records_of}
use social_media_manager.Inventory.Effect.{Effect, update_stock-Effect}
use social_media_manager.Inventory.Sync.{IsSettled, update_stock-IsSettled}
use social_media_manager.Inventory.Stock.{stock_of, moved}
use social_media_manager.Inventory.Conservation.{
  balance, update_stock_conserves, update_stock_nonneg,
}
use social_media_manager.Reservation.{
  Attempt, uncertain, operation_id, reserve_operation_id, deduct_order_inventory,
}
use social_media_manager.Reservation.Attempts.{IsName, OneEffect, attempts, attempts_at_most_once}
use social_media_manager.Reservation.StaleCache.{
  shop, order_of, read_empty, uncertain_reservation_repeats,
}
use social_media_manager.Customers.Tags.{
  desired_tier_tags, reconcile_tier_tags, reconcile_tier_tags_lem,
}
use social_media_manager.Customers.Totals.{Customer, find_customer}
use social_media_manager.Orders.Table.{
  pending, proof_received, confirmed, reserved, Terms, Order, Store, find_order,
}
use social_media_manager.Orders.Payment.{ProofMetadata, replay_detected, set_payment_status}
use social_media_manager.Orders.Queries.{same_terms, get_active_unpaid_order_count}
use social_media_manager.Orders.Reserve.{
  Draft, Call, claim_order, max_active_unpaid_orders, repeats, place_order,
}
use social_media_manager.Orders.Release.{is_expired, release_expired_inventory_reservations}
use social_media_manager.Orders.Delete.{finish_delete, delete_order}
use social_media_manager.Orders.Outcomes.{Outcome, set_payment_status-Outcome}
use social_media_manager.Orders.Interleaving.{claim, here, next, IsConsistent, Reach-IsConsistent}
use social_media_manager.Orders.Placed.{Placed}
use social_media_manager.Orders.Deleted.{Deleted}
use social_media_manager.Orders.Replays.{used_proof_detected, deleted_proof_detected}
use social_media_manager.Orders.Cleanup.{
  cleanup-keeps_paid, cleanup-keeps_unexpired, cleanup-counts,
}
use social_media_manager.Orders.Elsewhere.{delete_order-elsewhere}
use social_media_manager.Orders.Limit.{place_order_within_limit}
use social_media_manager.Orders.Repeats.{repeated_request_adds_nothing}

abbrev shirt : SheetRow
shirt = record { sku = "RS-1"; active = "yes"; price = some 100000; stock = pos 5 }

abbrev shelf : Sheets
shelf = record { rows = shirt ∷ []; has_stock_column = true; ledger = none; cache = none }

abbrev two_shirts : List Item
two_shirts =
    record {
      product_name = "Shirt";
      sku = "RS-1";
      size = "M";
      quantity = some (pos 2);
      unit_price = some 100000;
    }
    ∷ []

abbrev terms : Terms
terms = record {
  items = two_shirts;
  payment_method = "zelle";
  shipping_city = "Caracas";
  shipping_address = "";
  shipping_method = "";
  fulfillment_type = "";
  shipping_zone = "";
  pickup_agency = "";
  shipping_fee = 0;
}

abbrev draft : Draft
draft = record { customer_id = "ana"; terms = terms; total = 2000; merchandise_total = 2000 }

abbrev lost_reply : Attempt
lost_reply = record { mutation = write_unreported; verification = reached; now = "10:00" }

abbrev good_day : Attempt
good_day = record { mutation = reached; verification = reached; now = "10:05" }

abbrev call : Call
call = record { fresh_id = "7"; now = 50; attempt = lost_reply }

abbrev ana : Customer
ana = record { id = "ana"; total_orders = 0; total_spent = 0 }

abbrev empty_store : Store
empty_store = record { orders = []; customers = ana ∷ []; replays = []; sheets = shelf }

abbrev paid_order : Order
paid_order = record {
  id = "5";
  customer_id = some "ana";
  terms = terms;
  total = 2000;
  merchandise_total = some 2000;
  payment_status = proof_received;
  payment_proof = none;
  payment_proof_hash = some "hash";
  payment_reference_key = some "ref";
  inventory_status = reserved;
  inventory_reserved_at = some 10;
  customer_totals_applied = true;
  shipping_status = "pending";
  tracking_number = none;
  created_at = 10;
}

abbrev open_order : Order
open_order = record paid_order {
  id = "6";
  payment_status = pending;
  payment_proof_hash = none;
  payment_reference_key = none;
  customer_totals_applied = false;
}

abbrev busy_store : Store
busy_store = record {
  orders = open_order ∷ paid_order ∷ [];
  customers = record { id = "ana"; total_orders = 1; total_spent = 2000 } ∷ [];
  replays = [];
  sheets = shelf;
}

abbrev proof : ProofMetadata
proof = record { proof_hash = "hash"; reference_key = "other" }

abbrev fresh_proof : ProofMetadata
fresh_proof = record { proof_hash = "hash-2"; reference_key = "ref-2" }

abbrev same_proof : ProofMetadata
same_proof = record { proof_hash = "hash"; reference_key = "ref" }

abbrev nets : String → Net × Attempt
nets id = (reached, good_day)

named : IsName (operation_id "7" deduct)
unfolding operation_id reserve_operation_id strip
named = record { nonblank = refl; trimmed = refl }

reserve_named : IsName (reserve_operation_id "7")
unfolding reserve_operation_id strip
reserve_named = record { nonblank = refl; trimmed = refl }

empty-IsConsistent : IsConsistent empty_store
unfolding find_customer
empty-IsConsistent = record {
  sound = tt;
  accounted = record { totals = λ id c known. ground arith };
}

shelf_nonneg : pos 0 ≤ℤ stock_of "RS-1" shelf.rows
unfolding stock_of strip
shelf_nonneg = omega int_laws

paid_there : find_order "5" busy_store.orders ≡ some paid_order
unfolding find_order
paid_there = refl

busy_within : get_active_unpaid_order_count "ana" busy_store.orders ≤ max_active_unpaid_orders
unfolding get_active_unpaid_order_count
busy_within = omega arith

repeated : any (repeats draft call.now) busy_store.orders ≡ true
unfolding same_terms
repeated = refl

shirt_trimmed : strip "RS-1" ≡ "RS-1"
unfolding strip
shirt_trimmed = refl

attempts_at_most_once_example :
    OneEffect
      (operation_id "7" deduct)
      deduct
      two_shirts
      shelf
      (attempts deduct "7" two_shirts (lost_reply ∷ good_day ∷ []) shelf)
attempts_at_most_once_example =
    attempts_at_most_once deduct "7" two_shirts named (lost_reply ∷ good_day ∷ []) shelf tt
      (refl, (refl, tt))

Reach-IsConsistent_example : IsConsistent (claim_order draft call empty_store).1
Reach-IsConsistent_example =
    Reach-IsConsistent (next here (claim draft call empty_store)) empty-IsConsistent

update_stock-Effect_example :
    Effect "op" deduct "10:00" two_shirts shelf
      (update_stock write_unreported "op" deduct "10:00" two_shirts shelf).1
update_stock-Effect_example =
    update_stock-Effect write_unreported "op" deduct "10:00" two_shirts shelf refl tt

update_stock_conserves_example :
    balance "RS-1" (update_stock reached "op" deduct "10:00" two_shirts shelf).1
    ≡ balance "RS-1" shelf
update_stock_conserves_example =
    update_stock_conserves reached "op" deduct "10:00" two_shirts shelf "RS-1" refl tt

update_stock_nonneg_example :
    pos 0 ≤ℤ stock_of "RS-1" (update_stock reached "op" deduct "10:00" two_shirts shelf).1.rows
update_stock_nonneg_example =
    update_stock_nonneg reached "op" deduct "10:00" two_shirts shelf "RS-1" refl tt shelf_nonneg

update_stock-IsSettled_example :
    IsSettled (update_stock reached "op" deduct "10:00" two_shirts shelf)
update_stock-IsSettled_example =
    update_stock-IsSettled reached "op" deduct "10:00" two_shirts shelf refl tt

used_proof_detected_example :
    (earlier : String) × (set_payment_status "6" proof_received none (some proof) busy_store
      ≡ (ok (replay_detected earlier), busy_store))
used_proof_detected_example = used_proof_detected "6" proof_received none proof busy_store refl

deleted_proof_detected_example :
    (earlier : String) × (set_payment_status "6" proof_received none
        (some same_proof)
        (finish_delete "5" 1 busy_store).1
      ≡ (ok (replay_detected earlier), (finish_delete "5" 1 busy_store).1))
deleted_proof_detected_example =
    deleted_proof_detected "5" "6" 1 proof_received none same_proof busy_store paid_order paid_there
      refl refl refl

cleanup-keeps_paid_example :
    find_order "5" (release_expired_inventory_reservations 20 900000 nets busy_store).1.orders
    ≡ some paid_order
cleanup-keeps_paid_example =
    cleanup-keeps_paid 20 900000 nets "5" paid_order busy_store paid_there refl

no_expired : any (λ o. is_expired 20 o && o.id == "6") busy_store.orders ≡ false
no_expired = refl

cleanup-keeps_unexpired_example :
    find_order "6" (release_expired_inventory_reservations 20 20 nets busy_store).1.orders
    ≡ find_order "6" busy_store.orders
cleanup-keeps_unexpired_example = cleanup-keeps_unexpired 20 20 nets "6" busy_store no_expired

delete_order-elsewhere_example :
    find_order "6" (delete_order reached good_day "5" busy_store).1.orders
    ≡ find_order "6" busy_store.orders
delete_order-elsewhere_example = delete_order-elsewhere "6" "5" reached good_day busy_store refl

cleanup-counts_example :
    (release_expired_inventory_reservations 20 900000 nets busy_store).0.checked ≤ 20
    × (release_expired_inventory_reservations 20 900000 nets busy_store).0.released
        + (release_expired_inventory_reservations 20 900000 nets busy_store).0.failed
      ≤ (release_expired_inventory_reservations 20 900000 nets busy_store).0.checked
cleanup-counts_example = cleanup-counts 20 900000 nets busy_store

place_order_within_limit_example :
    get_active_unpaid_order_count "ana" (place_order draft call busy_store).1.orders
    ≤ max_active_unpaid_orders
place_order_within_limit_example = place_order_within_limit "ana" draft call busy_store busy_within

repeated_request_adds_nothing_example :
    length (place_order draft call busy_store).1.orders ≡ length busy_store.orders
repeated_request_adds_nothing_example = repeated_request_adds_nothing draft call busy_store repeated

reconcile_tier_tags_lem_example :
    contains (reconcile_tier_tags 2 500 ("vip" ∷ "alergia" ∷ [])) "vip" ≡ false
unfolding desired_tier_tags
reconcile_tier_tags_lem_example = reconcile_tier_tags_lem 2 500 ("vip" ∷ "alergia" ∷ []) "vip"

set_payment_status-Outcome_example :
    Outcome "6" confirmed none none busy_store
      (set_payment_status "6" confirmed none none busy_store)
set_payment_status-Outcome_example = set_payment_status-Outcome "6" confirmed none none busy_store

uncertain_reservation_repeats_example :
    let first =
      deduct_order_inventory
        (record { mutation = write_unreported; verification = open_lost; now = "10:00" })
        "7"
        (order_of "RS-1" 1)
        (shop "RS-1" (pos 5) [] read_empty) in
    let second =
      deduct_order_inventory
        (record { mutation = reached; verification = reached; now = "10:05" })
        "7"
        (order_of "RS-1" 1)
        first.1 in
    (first.0 ≡ err uncertain)
    × (second.0 ≡ ok tt)
    × (stock_of "RS-1" second.1.rows ≡ pos 5 -ℤ pos 2 -ℤ pos 2)
    × (moved "RS-1" (records_of second.1.ledger) ≡ pos 0 -ℤ pos 2)
uncertain_reservation_repeats_example =
    uncertain_reservation_repeats "RS-1" 1 shirt_trimmed refl "7" "10:00" "10:05" reached 5
      reserve_named (omega arith)
