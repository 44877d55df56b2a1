-- ===== src/Inventory/Sync.antt =====
-- When the cached ledger still is the worksheet's after a run.
use social_media_manager.Prelude.{
  ℕ, ◌-◌, String, ◌≡◌, refl, ap, false, ◌⊎◌, inl, inr, Option, none, some, List, [], ◌∷◌, ◌++◌,
  ◌==◌, map, length, length-append, arith, Bool-cases,
}
use mathlib.Core.Path.{subst}
use social_media_manager.Prelude.Dict.{Dict}
use social_media_manager.Prelude.Result.{Result, ok, err, Result-cases}
use social_media_manager.Inventory.Ledger.{
  Error, Direction, Movement, expected, Worksheet, Cache, Sheets, Net, write_lost, write_unreported,
  ledger_operation_rows, append_cached_ledger_rows, cached_inventory_ledger_records,
}
use social_media_manager.Inventory.Request.{
  Item, build_inventory_request, validate_existing_inventory_operation,
}
use social_media_manager.Inventory.Plan.{Change, movement}
use social_media_manager.Inventory.Update.{
  Outcome, opens, records_arrive, get_or_create_inventory_ledger, batch_update, commit, plan_update,
  mutate, run_unless_listed, once, with_ledger, update_requested, update_stock,
}
use social_media_manager.Inventory.Book.{
  IsSynced, Opened, open_or_create-Opened, write_at_end, cached-IsSynced,
}

abbrev pub HasHeaders : Option Worksheet → Type 0
HasHeaders none = ⊥
HasHeaders (some w) = w.headers ≡ expected

-- After success the cache agrees; after an error it does, or the next lookup will read the ledger.
abbrev pub IsSettled : {A : Type 0} → Outcome A → Type 0
IsSettled (ok a, t) = IsSynced t.ledger t.cache
IsSettled (err e, t) = IsSynced t.ledger t.cache ⊎ HasHeaders t.ledger

synced-IsSettled :
    {A : Type 0} (r : Result Error A) (t : Sheets) → IsSynced t.ledger t.cache → IsSettled (r, t)
synced-IsSettled (ok a) t k = k
synced-IsSettled (err e) t k = inl k

-- What the batch makes of ledger and cache.
batch_ledger :
    (id : String) (direction : Direction) (now : String) (changes : List Change) (s : Sheets)
    (w : Worksheet) (c : Cache)
    → s.ledger ≡ some w
    → s.cache ≡ some c
    → IsSynced (some w) (some c)
    → (id == "") ≡ false
    → (batch_update id direction now changes s).ledger
      ≡ some (record w { records = w.records ++ map (movement id direction now) changes })
unfolding batch_update
batch_ledger id direction now changes s w c e f k named =
    let place : c.next_row - 2 ≡ length w.records = omega (arith, k.1) in
    ground (arith, write_at_end (map (movement id direction now) changes) w.records, place)

batch_cache :
    (id : String) (direction : Direction) (now : String) (changes : List Change) (s : Sheets)
    → (batch_update id direction now changes s).cache ≡ s.cache
unfolding batch_update
batch_cache id direction now changes s = refl

appended-IsSynced :
    (w : Worksheet) (c : Cache) (entries : List Movement)
    → IsSynced (some w) (some c)
    → IsSynced
        (some (record w { records = w.records ++ entries }))
        (append_cached_ledger_rows entries (some c))
unfolding append_cached_ledger_rows
appended-IsSynced w c entries k =
    (ap (λ l. l ++ entries) k.0, omega (arith, k.1, length-append w.records entries))

commit-IsSettled :
    (net : Net) (id : String) (direction : Direction) (now : String) (changes : List Change)
    (s : Sheets) (w : Worksheet) (c : Cache)
    → s.ledger ≡ some w
    → w.headers ≡ expected
    → s.cache ≡ some c
    → IsSynced (some w) (some c)
    → (id == "") ≡ false
    → IsSettled (commit net id direction now changes s)
unfolding commit
commit-IsSettled net id direction now [] s w c e h f k named = rw (e, f) k
commit-IsSettled write_lost id direction now (x ∷ xs) s w c e h f k named = inl (rw (e, f) k)
commit-IsSettled write_unreported id direction now (x ∷ xs) s w c e h f k named =
    inr (rw (batch_ledger id direction now (x ∷ xs) s w c e f k named) h)
commit-IsSettled _ id direction now (x ∷ xs) s w c e h f k named =
    rw
      (
        batch_ledger id direction now (x ∷ xs) s w c e f k named,
        named,
        batch_cache id direction now (x ∷ xs) s,
        f,
      )
      (appended-IsSynced w c (map (movement id direction now) (x ∷ xs)) k)

module _ (net : Net) (id : String) (direction : Direction) (now : String) (items : List Item)
    (requested : Dict ℕ) (named : (id == "") ≡ false) where
  mutate-IsSettled :
      (s : Sheets) (w : Worksheet) (c : Cache)
      → s.ledger ≡ some w
      → w.headers ≡ expected
      → s.cache ≡ some c
      → IsSynced (some w) (some c)
      → IsSettled (mutate net id direction now items requested s)
  unfolding mutate
  mutate-IsSettled s w c e h f k =
      elim (Result-cases (plan_update net direction items requested s)) [
        | inr (x, failed) ↦ rw (failed, mutate) (inl (rw (e, f) k))
        | inl (changes, done) ↦
            rw (done, mutate) (commit-IsSettled net id direction now changes s w c e h f k named)
      ]

  run_unless_listed-IsSettled :
      (rows : List Movement) (s : Sheets) (w : Worksheet) (c : Cache)
      → s.ledger ≡ some w
      → w.headers ≡ expected
      → s.cache ≡ some c
      → IsSynced (some w) (some c)
      → IsSettled (run_unless_listed net id direction now items requested rows s)
  unfolding run_unless_listed
  run_unless_listed-IsSettled [] s w c e h f k = mutate-IsSettled s w c e h f k
  run_unless_listed-IsSettled (r ∷ rs) s w c e h f k =
      synced-IsSettled (validate_existing_inventory_operation (r ∷ rs) requested direction) s
        (rw (e, f) k)

  with_ledger-IsSettled :
      (s : Sheets) (o : Outcome Worksheet)
      → Opened s o
      → IsSettled (with_ledger net id direction now items requested o)
  unfolding with_ledger once
  with_ledger-IsSettled s (err e, t) h = inl h.1
  with_ledger-IsSettled s (ok w, t) h =
      let c : Cache = cached_inventory_ledger_records false w t.cache in
      elim (Bool-cases (records_arrive net t.cache)) [
        | inr lost ↦ rw lost (inl h.2)
        | inl arrive ↦ rw arrive (
            run_unless_listed-IsSettled (ledger_operation_rows c.records id)
              (record t { cache = some c }) w c h.1 h.3 refl
              (cached-IsSynced w t.cache (subst (λ l. IsSynced l t.cache) h.1 h.2)))
      ]

  update_requested-IsSettled :
      (s : Sheets)
      → IsSynced s.ledger s.cache
      → IsSettled (update_requested net id direction now items requested s)
  unfolding update_requested
  update_requested-IsSettled s k = elim (Bool-cases (opens net)) [
    | inr lost ↦ rw lost (inl k)
    | inl open_now ↦
        rw (open_now, named)
          (with_ledger-IsSettled s (get_or_create_inventory_ledger net s)
            (unfold get_or_create_inventory_ledger in open_or_create-Opened net s.ledger s refl k))
  ]

-- A run of a named operation that starts with a cached ledger that is the worksheet's ends with
-- one that is, or fails and leaves a worksheet with its headers, which a lookup can read.
pub update_stock-IsSettled :
    (net : Net) (id : String) (direction : Direction) (now : String) (items : List Item)
    (s : Sheets)
    → (id == "") ≡ false
    → IsSynced s.ledger s.cache
    → IsSettled (update_stock net id direction now items s)
unfolding update_stock
update_stock-IsSettled net id direction now items s named k =
    elim (Result-cases (build_inventory_request items)) [
      | inr (e, refused) ↦ rw (refused, update_stock) (inl k)
      | inl (requested, asked) ↦
          rw (asked, update_stock)
            (update_requested-IsSettled net id direction now items requested named s k)
    ]
