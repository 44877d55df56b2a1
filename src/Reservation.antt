-- ===== src/Reservation.antt =====
-- `_deduct_order_inventory` and `_restore_order_inventory` of `store/app/crm/orders.py`: a stock
-- mutation under the operation's name, and a look at the ledger where the mutation reports an error.
-- A worker thread runs each call to its end before the lock is given up, also when the request is
-- cancelled, so a call is one step.
pub mod Attempts
pub mod StaleCache
use social_media_manager.Prelude.{String, ◌≡◌, refl, Bool, true, false, List}
use Prim.Native.String.{◌++◌ as join}
use social_media_manager.Prelude.Dict.{Dict}
use social_media_manager.Prelude.Int.{ℤ}
use social_media_manager.Prelude.Result.{Result, ok, err}
use social_media_manager.Inventory.Ledger.{Error, Direction, deduct, restore, Sheets, Net}
use social_media_manager.Inventory.Request.{Item}
use social_media_manager.Inventory.Update.{Outcome, update_stock, deduct_stock, restore_stock}
use social_media_manager.Inventory.Lookup.{inventory_operation_applied}

-- `uncertain` is `InventoryReservationUncertainError`; `failed` is the mutation's own error.
pub data Failure : Type 0 where
  uncertain : Failure
  failed : Error → Failure

unfoldable pub reserve_operation_id : String → String
reserve_operation_id order_id = join "order:" (join order_id ":reserve")

unfoldable pub release_operation_id : String → String
release_operation_id order_id = join "order:" (join order_id ":release")

unfoldable pub operation_id : String → Direction → String
unfolding reserve_operation_id release_operation_id
operation_id order_id deduct = reserve_operation_id order_id
operation_id order_id restore = release_operation_id order_id

-- `_inventory_operation_applied`
unfoldable pub order_operation_applied :
    Net → String → List Item → Direction → Sheets → Outcome Bool
unfolding operation_id
order_operation_applied net order_id items direction s =
    inventory_operation_applied net (operation_id order_id direction) items direction s

-- The `except` block, on what an unanswered lookup raises, the mutation's error and the answer of the lookup.
unfoldable pub reconcile :
    (Error → Failure) → Error → Outcome Bool → Result Failure (Unit {0}) × Sheets
reconcile unverified e (err _, s) = (err (unverified e), s)
reconcile unverified e (ok true, s) = (ok tt, s)
reconcile unverified e (ok false, s) = (err (failed e), s)

-- One attempt: what the network does to the mutation and to the lookup, and the time.
pub record Attempt : Type 0 where
  pub mutation : Net
  pub verification : Net
  pub now : String

unfoldable pub settle :
    (Error → Failure)
    → Net
    → String
    → List Item
    → Direction
    → Outcome (Dict ℤ)
    → Result Failure (Unit {0}) × Sheets
unfolding reconcile
settle unverified net order_id items direction (ok _, s) = (ok tt, s)
settle unverified net order_id items direction (err e, s) =
    reconcile unverified e (order_operation_applied net order_id items direction s)

unfoldable pub deduct_order_inventory :
    Attempt → String → List Item → Sheets → Result Failure (Unit {0}) × Sheets
unfolding settle
deduct_order_inventory a order_id items s =
    settle (λ e. uncertain) a.verification order_id items deduct
      (deduct_stock a.mutation (reserve_operation_id order_id) a.now items s)

unfoldable pub restore_order_inventory :
    Attempt → String → List Item → Sheets → Result Failure (Unit {0}) × Sheets
unfolding settle
restore_order_inventory a order_id items s =
    settle failed a.verification order_id items restore
      (restore_stock a.mutation (release_operation_id order_id) a.now items s)

-- Either of the two, as the lemmas about both read them.
abbrev pub unverified_as : Direction → Error → Failure
unverified_as deduct e = uncertain
unverified_as restore e = failed e

unfoldable pub move_order_inventory :
    Direction → Attempt → String → List Item → Sheets → Result Failure (Unit {0}) × Sheets
unfolding settle
move_order_inventory direction a order_id items s =
    settle (unverified_as direction) a.verification order_id items direction
      (update_stock a.mutation (operation_id order_id direction) direction a.now items s)

pub move-deduct :
    (a : Attempt) (order_id : String) (items : List Item) (s : Sheets)
    → deduct_order_inventory a order_id items s ≡ move_order_inventory deduct a order_id items s
unfolding deduct_order_inventory move_order_inventory deduct_stock operation_id
move-deduct a order_id items s = refl

pub move-restore :
    (a : Attempt) (order_id : String) (items : List Item) (s : Sheets)
    → restore_order_inventory a order_id items s ≡ move_order_inventory restore a order_id items s
unfolding restore_order_inventory move_order_inventory restore_stock operation_id
move-restore a order_id items s = refl
