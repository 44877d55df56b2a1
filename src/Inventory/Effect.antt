-- ===== src/Inventory/Effect.antt =====
-- The effect of `update_stock` on the spreadsheet: all of a planned batch, or nothing.
use social_media_manager.Prelude.{
  ℕ, ◌-◌, String, ◌≡◌, refl, ap, ◌∙◌, false, ◌⊎◌, inl, inr, some, List, [], ◌∷◌, ◌++◌, ◌==◌, map,
  length, arith, Bool-cases,
}
use mathlib.Core.Path.{subst}
use social_media_manager.Prelude.Dict.{Dict}
use social_media_manager.Prelude.Result.{ok, err, Result-cases}
use social_media_manager.Inventory.Ledger.{
  Direction, Movement, Worksheet, Cache, Sheets, Net, write_lost, ledger_operation_rows,
  cached_inventory_ledger_records,
}
use social_media_manager.Inventory.Request.{Item, build_inventory_request}
use social_media_manager.Inventory.Plan.{Change, index_rows, write_stock, movement}
use social_media_manager.Inventory.Stock.{AllPlanned}
use social_media_manager.Inventory.Planned.{IsPlanOf, plan_changes-IsPlanOf}
use social_media_manager.Inventory.Update.{
  Outcome, get_or_create_inventory_ledger, batch_update, commit, mutate, run_unless_listed, once,
  with_ledger, update_requested, opens, records_arrive, plan_update, update_stock,
}
use social_media_manager.Inventory.Book.{
  records_of, IsSynced, Untouched, SameBook, write_at_end, Opened, open_or_create-Opened,
  cached-IsSynced,
}

-- The operation's batch was planned from `s`, is new to its ledger, and was written as a whole.
pub record IsApplied (id : String) (direction : Direction) (now : String) (items : List Item)
    (s t : Sheets) : Type 0 where
  pub requested : Dict ℕ
  pub changes : List Change
  pub request : build_inventory_request items ≡ ok requested
  pub unseen : ledger_operation_rows (records_of s.ledger) id ≡ []
  pub planned : AllPlanned direction s.rows changes
  pub plan : IsPlanOf requested changes
  pub rows : t.rows ≡ write_stock changes s.rows
  pub records : records_of t.ledger ≡ records_of s.ledger ++ map (movement id direction now) changes

-- The write, from a spreadsheet whose cache is the worksheet's.
batch_update-records :
    (id : String) (direction : Direction) (now : String) (changes : List Change) (s : Sheets)
    (w : Worksheet) (c : Cache)
    → s.ledger ≡ some w
    → s.cache ≡ some c
    → IsSynced (some w) (some c)
    → (id == "") ≡ false
    → records_of (batch_update id direction now changes s).ledger
      ≡ records_of s.ledger ++ map (movement id direction now) changes
unfolding batch_update
batch_update-records id direction now changes s w c has_w has_c synced named =
    let place : c.next_row - 2 ≡ length w.records = omega (arith, synced.1) in
    ground (arith, write_at_end (map (movement id direction now) changes) w.records, place)

commit_writes :
    (net : Net) (id : String) (direction : Direction) (now : String) (changes : List Change)
    (s : Sheets)
    → SameBook s (commit net id direction now changes s).1
      ⊎ SameBook (batch_update id direction now changes s) (commit net id direction now changes s).1
unfolding commit
commit_writes net id direction now [] s = inl (refl, refl)
commit_writes write_lost id direction now (c ∷ cs) s = inl (refl, refl)
commit_writes _ id direction now (c ∷ cs) s = inr (refl, refl)

-- What one run may have done to the spreadsheet.
abbrev pub Effect : String → Direction → String → List Item → Sheets → Sheets → Type 0
Effect id direction now items s t = Untouched s t ⊎ IsApplied id direction now items s t

plan_update-planned :
    (net : Net) (direction : Direction) (items : List Item) (requested : Dict ℕ) (s : Sheets)
    (changes : List Change)
    → plan_update net direction items requested s ≡ ok changes
    → AllPlanned direction s.rows changes × IsPlanOf requested changes
unfolding plan_update
plan_update-planned net direction items requested s changes e =
    elim (Result-cases (index_rows s.rows [])) [
      | inl (index, indexed) ↦
          plan_changes-IsPlanOf direction items s.rows index requested changes indexed
            (ground arith)
      | inr (bad, refused) ↦ absurd (ground arith)
    ]

-- From here on the run has its request and the ledger's records, which do not list it.
module _ (net : Net) (id : String) (direction : Direction) (now : String) (items : List Item)
    (requested : Dict ℕ) where
  commit-Effect :
      (changes : List Change) (s : Sheets) (w : Worksheet) (c : Cache)
      → build_inventory_request items ≡ ok requested
      → s.ledger ≡ some w
      → s.cache ≡ some c
      → IsSynced (some w) (some c)
      → (id == "") ≡ false
      → ledger_operation_rows w.records id ≡ []
      → AllPlanned direction s.rows changes × IsPlanOf requested changes
      → Effect id direction now items s (commit net id direction now changes s).1
  commit-Effect changes s w c asked has_w has_c synced named unseen p =
      elim (commit_writes net id direction now changes s) [
        | inl same ↦ inl (record { rows = same.0; records = ap records_of same.1 })
        | inr written ↦ inr (record {
          requested = requested;
          changes = changes;
          request = asked;
          unseen = rw has_w unseen;
          planned = p.0;
          plan = p.1;
          rows = written.0 ∙ unfold batch_update in refl;
          records =
              ap records_of written.1
              ∙ batch_update-records id direction now changes s w c has_w has_c synced named;
        })
      ]

  mutate-Effect :
      (s : Sheets) (w : Worksheet) (c : Cache)
      → build_inventory_request items ≡ ok requested
      → s.ledger ≡ some w
      → s.cache ≡ some c
      → IsSynced (some w) (some c)
      → (id == "") ≡ false
      → ledger_operation_rows w.records id ≡ []
      → Effect id direction now items s (mutate net id direction now items requested s).1
  unfolding mutate
  mutate-Effect s w c asked has_w has_c synced named unseen =
      elim (Result-cases (plan_update net direction items requested s)) [
        | inr (e, failed) ↦
            inl (record { rows = rw (failed, mutate); records = rw (failed, mutate) })
        | inl (changes, done) ↦
            rw (done, mutate)
              (commit-Effect changes s w c asked has_w has_c synced named unseen
                (plan_update-planned net direction items requested s changes done))
      ]

pub Effect-after :
    (id : String) (direction : Direction) (now : String) (items : List Item) (s s' t : Sheets)
    → Untouched s s'
    → Effect id direction now items s' t
    → Effect id direction now items s t
Effect-after id direction now items s s' t u (inl v) =
    inl (record { rows = v.rows ∙ u.rows; records = v.records ∙ u.records })
Effect-after id direction now items s s' t u (inr v) = inr (record {
  requested = v.requested;
  changes = v.changes;
  request = v.request;
  unseen = subst (λ l. ledger_operation_rows l id ≡ []) u.records v.unseen;
  planned = subst (λ l. AllPlanned direction l v.changes) u.rows v.planned;
  plan = v.plan;
  rows = v.rows ∙ ap (write_stock v.changes) u.rows;
  records = v.records ∙ ap (λ l. l ++ map (movement id direction now) v.changes) u.records;
})

-- With the worksheet open: the cache, the question whether the operation is known, and the run.
module _ (net : Net) (id : String) (direction : Direction) (now : String) (items : List Item)
    (requested : Dict ℕ) (asked : build_inventory_request items ≡ ok requested)
    (named : (id == "") ≡ false) where
  run_unless_listed-Effect :
      (rows : List Movement) (s : Sheets) (w : Worksheet) (c : Cache)
      → ledger_operation_rows w.records id ≡ rows
      → s.ledger ≡ some w
      → s.cache ≡ some c
      → IsSynced (some w) (some c)
      → Effect id direction now items s
          (run_unless_listed net id direction now items requested rows s).1
  unfolding run_unless_listed
  run_unless_listed-Effect [] s w c listed e f k =
      mutate-Effect net id direction now items requested s w c asked e f k named listed
  run_unless_listed-Effect (r ∷ rs) s w c listed e f k =
      inl (record { rows = refl; records = refl })

  once-Effect :
      (s : Sheets) (w : Worksheet) (c : Cache)
      → s.ledger ≡ some w
      → IsSynced (some w) (some c)
      → Effect id direction now items s (once net id direction now items requested c s).1
  unfolding once
  once-Effect s w c e k =
      let s' : Sheets = record s { cache = some c } in
      Effect-after id direction now items s s' _ (record { rows = refl; records = refl })
        (run_unless_listed-Effect (ledger_operation_rows c.records id) s' w c (rw k.0) e refl k)

  with_ledger-Effect :
      (s : Sheets) (o : Outcome Worksheet)
      → Opened s o
      → Effect id direction now items s (with_ledger net id direction now items requested o).1
  unfolding with_ledger
  with_ledger-Effect s (err e, t) h = inl h.0
  with_ledger-Effect s (ok w, t) h = elim (Bool-cases (records_arrive net t.cache)) [
    | inr lost ↦ rw lost (inl h.0)
    | inl arrive ↦ rw arrive (
        Effect-after id direction now items s t _ h.0 (
          once-Effect t w (cached_inventory_ledger_records false w t.cache) h.1
            (cached-IsSynced w t.cache (subst (λ l. IsSynced l t.cache) h.1 h.2))))
  ]

  update_requested-Effect :
      (s : Sheets)
      → IsSynced s.ledger s.cache
      → Effect id direction now items s (update_requested net id direction now items requested s).1
  unfolding update_requested
  update_requested-Effect s k = elim (Bool-cases (opens net)) [
    | inr lost ↦ rw lost (inl (record { rows = refl; records = refl }))
    | inl open_now ↦
        rw (open_now, named)
          (with_ledger-Effect s (get_or_create_inventory_ledger net s)
            (unfold get_or_create_inventory_ledger in open_or_create-Opened net s.ledger s refl k))
  ]

-- From a spreadsheet whose cached ledger is the worksheet's, one run of a named operation writes its
-- whole batch, planned from the sheet, or leaves the sheet and the ledger as they were; whatever
-- the network does.
pub update_stock-Effect :
    (net : Net) (id : String) (direction : Direction) (now : String) (items : List Item)
    (s : Sheets)
    → (id == "") ≡ false
    → IsSynced s.ledger s.cache
    → Effect id direction now items s (update_stock net id direction now items s).1
unfolding update_stock
update_stock-Effect net id direction now items s named k =
    elim (Result-cases (build_inventory_request items)) [
      | inr (e, refused) ↦ rw (refused, update_stock) (inl (record { rows = refl; records = refl }))
      | inl (requested, asked) ↦
          rw (asked, update_stock)
            (update_requested-Effect net id direction now items requested asked named s k)
    ]
