-- ===== src/Reservation/Attempts.antt =====
-- Retries of one reservation or release, as repeated tool calls, webhook redeliveries and the
-- cleanup job make them.
use social_media_manager.Prelude.{
  ℕ, String, ◌≡◌, refl, ap, ◌∙◌, Bool, true, false, ◌⊎◌, inl, inr, List, [], ◌∷◌, ◌++◌, ◌==◌, map,
  All, eq_iff, arith,
}
use mathlib.Core.Path.{subst}
use mathlib.Core.List.{append-nil}
use social_media_manager.Prelude.Dict.{Dict}
use social_media_manager.Prelude.Int.{ℤ}
use social_media_manager.Prelude.Result.{ok, err, Result-cases}
use social_media_manager.Prelude.Text.{strip}
use social_media_manager.Inventory.Ledger.{
  Error, Direction, Movement, Sheets, Net, ledger_operation_rows,
}
use social_media_manager.Inventory.Request.{Item, build_inventory_request}
use social_media_manager.Inventory.Plan.{Change, write_stock, movement}
use social_media_manager.Inventory.Update.{Outcome, update_stock}
use social_media_manager.Inventory.Lookup.{lookup_arrives, inventory_operation_applied}
use social_media_manager.Inventory.Book.{records_of, IsSynced, Untouched}
use social_media_manager.Inventory.Effect.{IsApplied, Effect, Effect-after, update_stock-Effect}
use social_media_manager.Inventory.Sync.{IsSettled, update_stock-IsSettled}
use social_media_manager.Inventory.Looked.{SameBook, applied-SameBook, applied-IsSynced}
use social_media_manager.Reservation.{
  Failure, operation_id, order_operation_applied, reconcile, Attempt, settle, unverified_as,
  move_order_inventory,
}

-- A name as the ledger can find it again: not blank, with no space at its ends.
pub record IsName (id : String) : Type 0 where
  pub nonblank : (id == "") ≡ false
  pub trimmed : strip id ≡ id

Effect-then :
    (id : String) (direction : Direction) (now : String) (items : List Item) (s t u : Sheets)
    → Effect id direction now items s t
    → SameBook t u
    → Effect id direction now items s u
Effect-then id direction now items s t u (inl v) b =
    inl (record { rows = b.rows ∙ v.rows; records = ap records_of b.ledger ∙ v.records })
Effect-then id direction now items s t u (inr v) b = inr (record {
  requested = v.requested;
  changes = v.changes;
  request = v.request;
  unseen = v.unseen;
  planned = v.planned;
  plan = v.plan;
  rows = b.rows ∙ v.rows;
  records = ap records_of b.ledger ∙ v.records;
})

reconcile-state : (f : Error → Failure) (e : Error) (o : Outcome Bool) → (reconcile f e o).1 ≡ o.1
unfolding reconcile
reconcile-state f e (ok true, s) = refl
reconcile-state f e (ok false, s) = refl
reconcile-state f e (err x, s) = refl

module _ (direction : Direction) (order_id : String) (items : List Item) where
  settle-Effect :
      (f : Error → Failure) (net : Net) (now : String) (s : Sheets) (o : Outcome (Dict ℤ))
      → Effect (operation_id order_id direction) direction now items s o.1
      → Effect
          (operation_id order_id direction)
          direction
          now
          items
          s
          (settle f net order_id items direction o).1
  unfolding settle order_operation_applied
  settle-Effect f net now s (ok a, t) h = h
  settle-Effect f net now s (err e, t) h =
      rw
        (reconcile-state f e
          (inventory_operation_applied net (operation_id order_id direction) items direction t))
        (Effect-then (operation_id order_id direction) direction now items s t _ h
          (applied-SameBook net (operation_id order_id direction) items direction t))

  settle-IsSynced :
      (f : Error → Failure) (net : Net) {requested : Dict ℕ} (o : Outcome (Dict ℤ))
      → IsName (operation_id order_id direction)
      → build_inventory_request items ≡ ok requested
      → lookup_arrives net ≡ true
      → IsSettled o
      → let t = (settle f net order_id items direction o).1 in IsSynced t.ledger t.cache
  unfolding settle order_operation_applied
  settle-IsSynced f net (ok a, t) name asked arrives h = h
  settle-IsSynced f net (err e, t) name asked arrives h =
      rw
        (reconcile-state f e
          (inventory_operation_applied net (operation_id order_id direction) items direction t))
        (applied-IsSynced net (operation_id order_id direction) items direction t h arrives
          (rw name.trimmed name.nonblank) asked)

pub attempt-Effect :
    (direction : Direction) (order_id : String) (items : List Item) (a : Attempt) (s : Sheets)
    → IsName (operation_id order_id direction)
    → IsSynced s.ledger s.cache
    → Effect
        (operation_id order_id direction)
        direction
        a.now
        items
        s
        (move_order_inventory direction a order_id items s).1
unfolding move_order_inventory
attempt-Effect direction order_id items a s name k =
    settle-Effect direction order_id items (unverified_as direction) a.verification a.now s
      (update_stock a.mutation (operation_id order_id direction) direction a.now items s)
      (update_stock-Effect a.mutation (operation_id order_id direction) direction a.now items s
        name.nonblank k)

-- An operation whose lines a ledger does not show has written none.
nothing_listed :
    (id : String) (direction : Direction) (now : String) (changes : List Change)
    (old : List Movement)
    → strip id ≡ id
    → ledger_operation_rows (old ++ map (movement id direction now) changes) id ≡ []
    → changes ≡ []
unfolding ledger_operation_rows movement
nothing_listed id direction now [] old trimmed h = refl
nothing_listed id direction now (c ∷ cs) [] trimmed h =
    ground (arith, eq_iff (strip id) id, trimmed)
nothing_listed id direction now (c ∷ cs) (m ∷ old) trimmed h =
    ground (arith, nothing_listed id direction now (c ∷ cs) old trimmed)

unfoldable pub attempts : Direction → String → List Item → List Attempt → Sheets → Sheets
attempts direction order_id items [] s = s
attempts direction order_id items (a ∷ later) s =
    attempts direction order_id items later (move_order_inventory direction a order_id items s).1

-- The effect of one run at some time.
abbrev pub OneEffect : String → Direction → List Item → Sheets → Sheets → Type 0
OneEffect id direction items s t =
    Untouched s t ⊎ ((now : String) × IsApplied id direction now items s t)

after-Untouched :
    (id : String) (direction : Direction) (items : List Item) (s t u : Sheets)
    → Untouched s t
    → OneEffect id direction items t u
    → OneEffect id direction items s u
after-Untouched id direction items s t u v (inl w) =
    inl (record { rows = w.rows ∙ v.rows; records = w.records ∙ v.records })
after-Untouched id direction items s t u v (inr (now, w)) =
    elim (Effect-after id direction now items s t u v (inr w)) [
      | inl same ↦ inl same
      | inr run ↦ inr (now, run)
    ]

-- A run that planned nothing wrote nothing.
empty_batch :
    (id : String) (direction : Direction) (now : String) (items : List Item) (s t : Sheets)
    (v : IsApplied id direction now items s t)
    → v.changes ≡ []
    → Untouched s t
unfolding write_stock
empty_batch id direction now items s t v none_planned = record {
  rows = v.rows ∙ ap (λ l. write_stock l s.rows) none_planned;
  records =
      v.records
      ∙ ap (λ l. records_of s.ledger ++ map (movement id direction now) l) none_planned
      ∙ append-nil (records_of s.ledger);
}

-- Two runs in a row are one.
one_after_one :
    (id : String) (direction : Direction) (now : String) (items : List Item) (s t u : Sheets)
    → strip id ≡ id
    → Effect id direction now items s t
    → OneEffect id direction items t u
    → OneEffect id direction items s u
one_after_one id direction now items s t u trimmed (inl v) w =
    after-Untouched id direction items s t u v w
one_after_one id direction now items s t u trimmed (inr v) (inl w) = inr (
  now,
  record {
    requested = v.requested;
    changes = v.changes;
    request = v.request;
    unseen = v.unseen;
    planned = v.planned;
    plan = v.plan;
    rows = w.rows ∙ v.rows;
    records = w.records ∙ v.records;
  },
)
one_after_one id direction now items s t u trimmed (inr v) (inr w) =
    after-Untouched id direction items s t u
      (empty_batch id direction now items s t v (
        nothing_listed id direction now v.changes (records_of s.ledger) trimmed
          (subst (λ l. ledger_operation_rows l id ≡ []) v.records w.1.unseen)))
      (inr w)

refused_update :
    (net : Net) (id : String) (direction : Direction) (now : String) (items : List Item)
    (s : Sheets) {e : Error}
    → build_inventory_request items ≡ err e
    → update_stock net id direction now items s ≡ (err e, s)
unfolding update_stock
refused_update net id direction now items s refused = rw (refused, update_stock) refl

refused_lookup :
    (net : Net) (id : String) (items : List Item) (direction : Direction) (s : Sheets) {e : Error}
    → build_inventory_request items ≡ err e
    → (inventory_operation_applied net id items direction s).1 ≡ s
unfolding inventory_operation_applied
refused_lookup net id items direction s refused = ground (arith, refused)

module _ (direction : Direction) (order_id : String) (items : List Item)
    (name : IsName (operation_id order_id direction)) where
  refused_keeps_state :
      (a : Attempt) (s : Sheets) {e : Error}
      → build_inventory_request items ≡ err e
      → (settle
          (unverified_as direction)
          a.verification
          order_id
          items
          direction
          (update_stock a.mutation (operation_id order_id direction) direction a.now items s)).1
        ≡ s
  unfolding settle order_operation_applied
  refused_keeps_state a s {e} refused =
      rw
        (
          refused_update a.mutation (operation_id order_id direction) direction a.now items s
              refused,
          reconcile-state (unverified_as direction) e (
              inventory_operation_applied a.verification (operation_id order_id direction) items
                direction s),
          refused_lookup a.verification (operation_id order_id direction) items direction s refused,
        )
        refl

  attempt-IsSynced :
      (a : Attempt) (s : Sheets)
      → lookup_arrives a.verification ≡ true
      → IsSynced s.ledger s.cache
      → let t = (move_order_inventory direction a order_id items s).1 in IsSynced t.ledger t.cache
  unfolding move_order_inventory
  attempt-IsSynced a s arrives k = elim (Result-cases (build_inventory_request items)) [
    | inl (requested, asked) ↦
        settle-IsSynced direction order_id items (unverified_as direction) a.verification
          (update_stock a.mutation (operation_id order_id direction) direction a.now items s) name
          asked arrives
          (update_stock-IsSettled a.mutation (operation_id order_id direction) direction a.now items
            s name.nonblank k)
    | inr (e, refused) ↦ rw (refused_keeps_state a s refused) k
  ]

  -- From a spreadsheet whose cached ledger is the worksheet's: retries of one operation, whose
  -- name is not blank and has no space at its ends, each with a lookup that arrives, leave the
  -- sheet and the ledger as they were or as one single run of it makes them, whatever happens to
  -- the mutations.
  pub attempts_at_most_once :
      (later : List Attempt) (s : Sheets)
      → IsSynced s.ledger s.cache
      → All (λ a. lookup_arrives a.verification ≡ true) later
      → OneEffect
          (operation_id order_id direction)
          direction
          items
          s
          (attempts direction order_id items later s)
  unfolding attempts
  attempts_at_most_once [] s k h = inl (record { rows = refl; records = refl })
  attempts_at_most_once (a ∷ later) s k h =
      one_after_one (operation_id order_id direction) direction a.now items s
        (move_order_inventory direction a order_id items s).1
        (attempts direction order_id items later
          (move_order_inventory direction a order_id items s).1)
        name.trimmed (attempt-Effect direction order_id items a s name k)
        (attempts_at_most_once later (move_order_inventory direction a order_id items s).1
          (attempt-IsSynced a s h.0 k) h.1)
