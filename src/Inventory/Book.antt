-- ===== src/Inventory/Book.antt =====
-- The ledger as a process sees it: its records, the cache of them, and how both are opened.
use social_media_manager.Prelude.{
  ◌+◌, ◌≡◌, refl, sym, ap, false, Option, none, some, List, [], ◌∷◌, ◌++◌, length, drop_nil,
}
use mathlib.Core.List.{append-nil}
use mathlib.Core.Path.{subst}
use social_media_manager.Prelude.Result.{ok, err}
use social_media_manager.Inventory.Ledger.{
  Movement, Headers, blank, expected, unexpected, Worksheet, Cache, Sheets, Net, ledger_lost,
  header_lost, header_unreported, write_at, cached_inventory_ledger_records,
}
use social_media_manager.Inventory.Update.{Outcome, create_ledger, open_ledger, open_or_create}

abbrev pub records_of : Option Worksheet → List Movement
records_of none = []
records_of (some w) = w.records

-- The process's cache, where it has one, is what the worksheet holds.
abbrev pub IsSynced : Option Worksheet → Option Cache → Type 0
IsSynced ledger none = Unit
IsSynced none (some c) = ⊥
IsSynced (some w) (some c) = (c.records ≡ w.records) × (c.next_row ≡ length w.records + 2)

pub record Untouched (s t : Sheets) : Type 0 where
  pub rows : t.rows ≡ s.rows
  pub records : records_of t.ledger ≡ records_of s.ledger

pub write_at_end :
    (entries old : List Movement) → write_at (length old) entries old ≡ old ++ entries
unfolding write_at
write_at_end entries [] = rw (drop_nil (length entries)) (append-nil entries)
write_at_end entries (r ∷ old) = ap (λ l. r ∷ l) (write_at_end entries old)

abbrev pub SameBook : Sheets → Sheets → Type 0
SameBook s t = (t.rows ≡ s.rows) × (t.ledger ≡ s.ledger)

-- The ledger helper keeps the book and the cache's agreement, and hands over the worksheet.
abbrev pub Opened : Sheets → Outcome Worksheet → Type 0
Opened s (err e, t) = Untouched s t × IsSynced t.ledger t.cache
Opened s (ok w, t) =
    Untouched s t × (t.ledger ≡ some w) × IsSynced t.ledger t.cache × (w.headers ≡ expected)

no_cache-IsSynced : (l : Option Worksheet) (c : Option Cache) → IsSynced none c → IsSynced l c
no_cache-IsSynced l none k = tt
no_cache-IsSynced l (some c) k = elim k [ ]

create-Opened :
    (net : Net) (s : Sheets)
    → s.ledger ≡ none
    → IsSynced none s.cache
    → Opened s (create_ledger net s)
unfolding create_ledger
create-Opened ledger_lost s h k =
    (record { rows = refl; records = refl }, subst (λ l. IsSynced l s.cache) (sym h) k)
create-Opened header_lost s h k = (
  record { rows = refl; records = rw h },
  no_cache-IsSynced (some (record { headers = blank; records = [] })) s.cache k,
)
create-Opened header_unreported s h k = (
  record { rows = refl; records = rw h },
  no_cache-IsSynced (some (record { headers = expected; records = [] })) s.cache k,
)
create-Opened _ s h k = (record { rows = refl; records = rw h }, refl, (refl, refl), refl)

headers-IsSynced :
    (h : Headers) (w : Worksheet) (c : Option Cache)
    → IsSynced (some w) c
    → IsSynced (some (record w { headers = h })) c
headers-IsSynced h w none k = tt
headers-IsSynced h w (some c) k = k

unopened :
    (w : Worksheet) (s : Sheets)
    → s.ledger ≡ some w
    → IsSynced (some w) s.cache
    → Untouched s s × IsSynced s.ledger s.cache
unopened w s e k =
    (record { rows = refl; records = refl }, subst (λ l. IsSynced l s.cache) (sym e) k)

open-Opened :
    (net : Net) (h : Headers) (w : Worksheet) (s : Sheets)
    → s.ledger ≡ some w
    → w.headers ≡ h
    → IsSynced (some w) s.cache
    → Opened s (open_ledger net h w s)
unfolding open_ledger
open-Opened ledger_lost blank w s e same k = unopened w s e k
open-Opened header_lost blank w s e same k = unopened w s e k
open-Opened header_unreported blank w s e same k =
    (record { rows = refl; records = rw e }, headers-IsSynced expected w s.cache k)
open-Opened net blank w s e same k =
    (record { rows = refl; records = rw e }, refl, headers-IsSynced expected w s.cache k, refl)
open-Opened ledger_lost expected w s e same k = unopened w s e k
open-Opened net expected w s e same k =
    (record { rows = refl; records = refl }, e, subst (λ l. IsSynced l s.cache) (sym e) k, same)
open-Opened ledger_lost unexpected w s e same k = unopened w s e k
open-Opened net unexpected w s e same k = unopened w s e k

pub open_or_create-Opened :
    (net : Net) (l : Option Worksheet) (s : Sheets)
    → s.ledger ≡ l
    → IsSynced l s.cache
    → Opened s (open_or_create net l s)
unfolding open_or_create
open_or_create-Opened net none s e k = create-Opened net s e k
open_or_create-Opened net (some w) s e k = open-Opened net w.headers w s e refl k

pub cached-IsSynced :
    (w : Worksheet) (c : Option Cache)
    → IsSynced (some w) c
    → IsSynced (some w) (some (cached_inventory_ledger_records false w c))
unfolding cached_inventory_ledger_records
cached-IsSynced w none k = (refl, refl)
cached-IsSynced w (some c) k = k
