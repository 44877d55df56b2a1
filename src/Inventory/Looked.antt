-- ===== src/Inventory/Looked.antt =====
-- What a look at the ledger leaves: the book as it was, and a cache that agrees with it.
use social_media_manager.Prelude.{
  ℕ, String, ◌≡◌, refl, true, false, ◌⊎◌, inl, inr, Option, none, some, List, ◌==◌, arith,
}
use social_media_manager.Prelude.Dict.{Dict}
use social_media_manager.Prelude.Result.{ok, err, Result-cases}
use social_media_manager.Prelude.Text.{strip}
use social_media_manager.Inventory.Ledger.{
  Direction, Movement, Headers, blank, expected, unexpected, Worksheet, Sheets, Net,
  cached_inventory_ledger_records,
}
use social_media_manager.Inventory.Request.{Item, build_inventory_request}
use social_media_manager.Inventory.Update.{Outcome}
use social_media_manager.Inventory.Lookup.{
  lookup_arrives, read_worksheet, read_from, read_inventory_ledger, look_up, lookup_requested,
  inventory_operation_applied,
}
use social_media_manager.Inventory.Book.{IsSynced}
use social_media_manager.Inventory.Sync.{HasHeaders}

pub record SameBook (s t : Sheets) : Type 0 where
  pub rows : t.rows ≡ s.rows
  pub ledger : t.ledger ≡ s.ledger

look_up-state :
    (id : String) (requested : Dict ℕ) (direction : Direction) (o : Outcome (List Movement))
    → (look_up id requested direction o).1 ≡ o.1
unfolding look_up
look_up-state id requested direction (ok records, s) = refl
look_up-state id requested direction (err e, s) = refl

read-SameBook : (s : Sheets) → SameBook s (read_inventory_ledger s).1
unfolding read_inventory_ledger
read-SameBook s = ground arith

-- A lookup changes neither the product sheet nor the ledger.
pub applied-SameBook :
    (net : Net) (id : String) (items : List Item) (direction : Direction) (s : Sheets)
    → SameBook s (inventory_operation_applied net id items direction s).1
unfolding inventory_operation_applied lookup_requested
applied-SameBook net id items direction s = elim (Result-cases (build_inventory_request items)) [
  | inl (requested, asked) ↦ ground (
    arith,
    asked,
    read-SameBook s,
    look_up-state (strip id) requested direction (read_inventory_ledger s),
  )
  | inr (e, refused) ↦ ground (arith, refused)
]

worksheet-IsSynced :
    (h : Headers) (w : Worksheet) (s : Sheets)
    → s.ledger ≡ some w
    → IsSynced (some w) s.cache ⊎ (h ≡ expected)
    → IsSynced (some w) (read_worksheet h w s).1.cache
unfolding read_worksheet cached_inventory_ledger_records
worksheet-IsSynced blank w s e (inl k) = k
worksheet-IsSynced blank w s e (inr h) = absurd (cc)
worksheet-IsSynced unexpected w s e (inl k) = k
worksheet-IsSynced unexpected w s e (inr h) = absurd (cc)
worksheet-IsSynced expected w s e k = (refl, refl)

from-IsSynced :
    (l : Option Worksheet) (s : Sheets)
    → s.ledger ≡ l
    → IsSynced l s.cache ⊎ HasHeaders l
    → IsSynced l (read_from l s).1.cache
unfolding read_from
from-IsSynced none s e (inl k) = k
from-IsSynced none s e (inr h) = elim h [ ]
from-IsSynced (some w) s e k = worksheet-IsSynced w.headers w s e k

read-IsSynced :
    (s : Sheets)
    → IsSynced s.ledger s.cache ⊎ HasHeaders s.ledger
    → IsSynced (read_inventory_ledger s).1.ledger (read_inventory_ledger s).1.cache
read-IsSynced s k =
    rw ((read-SameBook s).ledger) (unfold read_inventory_ledger in from-IsSynced s.ledger s refl k)

-- A lookup that arrives leaves a cache that agrees.
pub applied-IsSynced :
    (net : Net) (id : String) (items : List Item) {requested : Dict ℕ} (direction : Direction)
    (s : Sheets)
    → IsSynced s.ledger s.cache ⊎ HasHeaders s.ledger
    → lookup_arrives net ≡ true
    → (strip id == "") ≡ false
    → build_inventory_request items ≡ ok requested
    → let t = (inventory_operation_applied net id items direction s).1 in IsSynced t.ledger t.cache
unfolding inventory_operation_applied lookup_requested
applied-IsSynced net id items {requested} direction s k arrives named asked =
    rw
      (
        named,
        asked,
        arrives,
        look_up-state (strip id) requested direction (read_inventory_ledger s),
      )
      (read-IsSynced s k)
