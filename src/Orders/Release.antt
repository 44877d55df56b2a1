-- ===== src/Orders/Release.antt =====
-- `_release_inventory_reservation` and `release_expired_inventory_reservations` of
-- `store/app/crm/orders.py`. Under the inventory lock a row's reservation is marked for release, its
-- stock is put back on the spreadsheet, and the row is settled; each of the three is a transaction.
use social_media_manager.Prelude.{
  ℕ, ◌+◌, String, Bool, true, false, not, ◌&&◌, ◌||◌, none, some, List, [], ◌∷◌, leb, length,
  filter, take, if◌then◌else◌,
}
use social_media_manager.Prelude.Result.{Result, ok, err}
use social_media_manager.Inventory.Ledger.{deduct, Sheets, Net}
use social_media_manager.Inventory.Request.{Item}
use social_media_manager.Inventory.Update.{Outcome}
use social_media_manager.Reservation.{
  Failure, failed, Attempt, order_operation_applied, restore_order_inventory,
}
use social_media_manager.Orders.Table.{
  InventoryStatus, reservation_pending, reserved, release_pending, released, Order, Store, is_paid,
  find_order, update_order,
}
use social_media_manager.Orders.Payment.{is_pending}
use social_media_manager.Orders.Reserve.{reject_pending}

-- What the first transaction decides: to put the stock back, to ask the ledger first, or neither.
pub data Plan : Type 0 where
  restore_now ask_ledger nothing_held : Plan

abbrev pub plan_release : InventoryStatus → Plan
plan_release reserved = restore_now
plan_release release_pending = restore_now
plan_release reservation_pending = ask_ledger
plan_release _ = nothing_held

abbrev pub to_release : Order → Order
to_release o = record o { inventory_status = release_pending }

-- `SET inventory_status = 'release_pending'` where it still is `from`, for either of the two states
-- in which the code writes it.
abbrev pub mark_from : InventoryStatus → Order → Order
mark_from reserved o = to_release o
mark_from reservation_pending o = to_release o
mark_from _ o = o

unfoldable pub mark_release : String → Store → Store
mark_release id s = record s {
  orders = update_order id (λ o. mark_from o.inventory_status o) s.orders;
}

-- The stock goes back. What follows runs only when it did.
unfoldable pub after_restore :
    {A : Type 0}
    → Store
    → (Store → Result Failure A × Store)
    → Result Failure (Unit {0}) × Sheets
    → Result Failure A × Store
after_restore s continue (ok _, sheets) = continue (record s { sheets = sheets })
after_restore s continue (err e, sheets) = (err e, record s { sheets = sheets })

unfoldable pub put_back :
    {A : Type 0}
    → Attempt
    → String
    → List Item
    → Store
    → (Store → Result Failure A × Store)
    → Result Failure A × Store
unfolding after_restore
put_back attempt id items s continue =
    after_restore s continue (restore_order_inventory attempt id items s.sheets)

-- On the ledger's answer: a reservation that it lists is marked and put back.
unfoldable pub after_lookup :
    {A : Type 0}
    → Attempt
    → String
    → List Item
    → Store
    → (Store → Result Failure A × Store)
    → Outcome Bool
    → Result Failure A × Store
unfolding put_back mark_release
after_lookup attempt id items s continue (err e, sheets) =
    (err (failed e), record s { sheets = sheets })
after_lookup attempt id items s continue (ok true, sheets) =
    put_back attempt id items (mark_release id (record s { sheets = sheets })) continue
after_lookup attempt id items s continue (ok false, sheets) =
    continue (record s { sheets = sheets })

-- The first two transactions for a row that was read, then what follows.
unfoldable pub give_back :
    {A : Type 0}
    → Plan
    → Net
    → Attempt
    → Order
    → Store
    → (Store → Result Failure A × Store)
    → Result Failure A × Store
unfolding put_back after_lookup mark_release
give_back restore_now net attempt row s continue =
    put_back attempt row.id row.terms.items (mark_release row.id s) continue
give_back ask_ledger net attempt row s continue =
    after_lookup attempt row.id row.terms.items s continue
      (order_operation_applied net row.id row.terms.items deduct s.sheets)
give_back nothing_held net attempt row s continue = continue s

abbrev pub release_row : Order → Order
release_row o = record o {
  inventory_status = released;
  payment_status = reject_pending o.payment_status;
}

-- The last transaction of a release: the row as it then is, unless it was paid meanwhile.
unfoldable pub finish_release : String → Store → Result Failure Bool × Store
finish_release id s = elim (find_order id s.orders) [
  | none ↦ (ok false, s)
  | some row ↦
      if is_paid row.payment_status
      then (ok false, s)
      else (ok true, record s { orders = update_order id release_row s.orders })
]

abbrev pub is_nothing_held : Plan → Bool
is_nothing_held nothing_held = true
is_nothing_held _ = false

-- `_release_inventory_reservation`; the releasable statuses are those that are not paid.
unfoldable pub release_inventory_reservation :
    Net → Attempt → String → Store → Result Failure Bool × Store
unfolding give_back finish_release
release_inventory_reservation net attempt id s = elim (find_order id s.orders) [
  | none ↦ (ok false, s)
  | some row ↦
      let plan = plan_release row.inventory_status in
      if is_paid row.payment_status || is_nothing_held plan
      then (ok false, s)
      else give_back plan net attempt row s (finish_release id)
]

-- `inventory_status IN ('reserved', 'release_pending', 'reservation_pending')`
abbrev holds_reservation : InventoryStatus → Bool
holds_reservation i = not (is_nothing_held (plan_release i))

-- `INVENTORY_RESERVATION_TTL_HOURS`, in seconds
abbrev pub reservation_ttl : ℕ
reservation_ttl = 172800

abbrev pub since : Order → ℕ
since o = elim o.inventory_reserved_at [ none ↦ o.created_at | some t ↦ t ]

-- The rows that the cleanup job selects.
abbrev pub is_expired : ℕ → Order → Bool
is_expired now o =
    holds_reservation o.inventory_status
    && not (is_paid o.payment_status)
    && (not (is_pending o.payment_status) || leb (since o + reservation_ttl) now)

-- `ORDER BY COALESCE(inventory_reserved_at, created_at) ASC`
unfoldable pub insert_by_age : Order → List Order → List Order
insert_by_age o [] = o ∷ []
insert_by_age o (p ∷ ps) = if leb (since o) (since p) then o ∷ p ∷ ps else p ∷ insert_by_age o ps

unfoldable pub sort_by_age : List Order → List Order
unfolding insert_by_age
sort_by_age [] = []
sort_by_age (o ∷ os) = insert_by_age o (sort_by_age os)

pub record Counts : Type 0 where
  pub checked : ℕ
  pub released : ℕ
  pub failed : ℕ

unfoldable pub count_release : Result Failure Bool → Counts → Counts
count_release (ok true) c = record c { released = c.released + 1 }
count_release (ok false) c = c
count_release (err e) c = record c { failed = c.failed + 1 }

-- The loop over the rows; an error ends only its own row. `nets` are the network's choices.
unfoldable pub release_each :
    List Order → (String → Net × Attempt) → Counts → Store → Counts × Store
unfolding release_inventory_reservation count_release
release_each [] nets counts s = (counts, s)
release_each (row ∷ rows) nets counts s =
    let (net, attempt) = nets row.id in
    let (r, s') = release_inventory_reservation net attempt row.id s in
    release_each rows nets (count_release r counts) s'

unfoldable pub release_expired_inventory_reservations :
    ℕ → ℕ → (String → Net × Attempt) → Store → Counts × Store
unfolding release_each sort_by_age
release_expired_inventory_reservations limit now nets s =
    let rows = take limit (sort_by_age (filter (is_expired now) s.orders)) in
    release_each rows nets (record { checked = length rows; released = 0; failed = 0 }) s
