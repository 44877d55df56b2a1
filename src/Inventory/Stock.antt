-- ===== src/Inventory/Stock.antt =====
-- What a SKU's stock is, what the ledger says has moved, and how a planned batch changes both.
use social_media_manager.Prelude.{
  String, ◌≡◌, refl, Bool, true, false, ◌||◌, List, [], ◌∷◌, ◌++◌, ◌==◌, map, if◌then◌else◌, eq_iff,
  arith,
}
use social_media_manager.Prelude.Int.{ℤ, pos, ◌+ℤ◌, ◌-ℤ◌, int_laws}
use social_media_manager.Inventory.Ledger.{Direction, deduct, restore, Movement, SheetRow}
use social_media_manager.Inventory.Plan.{
  Change, row_sku, moved_stock, set_stock, write_stock, movement,
}

-- The stock of the first row that has the SKU.
unfoldable pub stock_of : String → List SheetRow → ℤ
stock_of sku [] = pos 0
stock_of sku (row ∷ rows) = if row_sku row == sku then row.stock else stock_of sku rows

unfoldable pub has_row : String → List SheetRow → Bool
has_row sku [] = false
has_row sku (row ∷ rows) = row_sku row == sku || has_row sku rows

-- A movement adds to the stock, or takes from it.
unfoldable pub signed : Movement → ℤ
signed m = if m.type_cell == "deduct" then pos 0 -ℤ m.quantity else m.quantity

-- The sum of a SKU's movements.
unfoldable pub moved : String → List Movement → ℤ
moved sku [] = pos 0
moved sku (m ∷ ms) = (if m.sku == sku then signed m else pos 0) +ℤ moved sku ms

pub moved-append :
    (sku : String) (ms ns : List Movement) → moved sku (ms ++ ns) ≡ moved sku ms +ℤ moved sku ns
unfolding moved
moved-append sku [] ns = omega int_laws
moved-append sku (m ∷ ms) ns = rw (moved-append sku ms ns) (omega int_laws)

has_row-set_stock :
    (k sku : String) (v : ℤ) (rows : List SheetRow)
    → has_row k (set_stock sku v rows) ≡ has_row k rows
unfolding has_row set_stock
has_row-set_stock k sku v [] = refl
has_row-set_stock k sku v (row ∷ rows) = ground (arith, has_row-set_stock k sku v rows)

pub stock_of-set_stock :
    (k sku : String) (v : ℤ) (rows : List SheetRow)
    → has_row sku rows ≡ true
    → stock_of k (set_stock sku v rows) ≡ (if sku == k then v else stock_of k rows)
unfolding has_row set_stock stock_of
stock_of-set_stock k sku v [] h = cc
stock_of-set_stock k sku v (row ∷ rows) h = ground (
  arith,
  eq_iff sku k,
  eq_iff (row_sku row) sku,
  eq_iff (row_sku row) k,
  stock_of-set_stock k sku v rows,
)

-- A change that was planned from these rows.
pub record IsPlanned (direction : Direction) (rows : List SheetRow) (c : Change) : Type 0 where
  pub present : has_row c.sku rows ≡ true
  pub from_stock : c.before ≡ stock_of c.sku rows
  pub to_stock : c.after ≡ moved_stock direction c.before c.quantity

abbrev pub AllPlanned : Direction → List SheetRow → List Change → Type 0
AllPlanned direction rows [] = Unit
AllPlanned direction rows (c ∷ changes) =
    IsPlanned direction rows c × AllPlanned direction rows changes

-- No change of the list is for the SKU.
abbrev pub Avoids : String → List Change → Type 0
Avoids sku [] = Unit
Avoids sku (c ∷ changes) = (c.sku == sku ≡ false) × Avoids sku changes

abbrev pub Separate : List Change → Type 0
Separate [] = Unit
Separate (c ∷ changes) = Avoids c.sku changes × Separate changes

IsPlanned-set_stock :
    (direction : Direction) (rows : List SheetRow) (c d : Change)
    → has_row c.sku rows ≡ true
    → (d.sku == c.sku) ≡ false
    → IsPlanned direction rows d
    → IsPlanned direction (set_stock c.sku c.after rows) d
IsPlanned-set_stock direction rows c d here apart p = ground (
  arith,
  eq_iff d.sku c.sku,
  eq_iff c.sku d.sku,
  has_row-set_stock d.sku c.sku c.after rows,
  stock_of-set_stock d.sku c.sku c.after rows here,
)

pub AllPlanned-set_stock :
    (direction : Direction) (rows : List SheetRow) (c : Change) (changes : List Change)
    → has_row c.sku rows ≡ true
    → Avoids c.sku changes
    → AllPlanned direction rows changes
    → AllPlanned direction (set_stock c.sku c.after rows) changes
AllPlanned-set_stock direction rows c [] here apart p = tt
AllPlanned-set_stock direction rows c (d ∷ changes) here apart p = (
  IsPlanned-set_stock direction rows c d here apart.0 p.0,
  AllPlanned-set_stock direction rows c changes here apart.1 p.1,
)

-- One planned change moves the stock of its SKU by the movement that the ledger gets.
set_stock-moved :
    (direction : Direction) (id now k : String) (rows : List SheetRow) (c : Change)
    → IsPlanned direction rows c
    → stock_of k (set_stock c.sku c.after rows)
      ≡ stock_of k rows +ℤ (if c.sku == k then signed (movement id direction now c) else pos 0)
unfolding signed movement
set_stock-moved deduct id now k rows c p =
    rw (stock_of-set_stock k c.sku c.after rows p.present)
      (grind (int_laws, eq_iff c.sku k, p.from_stock, p.to_stock))
set_stock-moved restore id now k rows c p =
    rw (stock_of-set_stock k c.sku c.after rows p.present)
      (grind (int_laws, eq_iff c.sku k, p.from_stock, p.to_stock))

-- A planned batch moves every SKU's stock by what its ledger lines say.
pub write_stock-moved :
    (direction : Direction) (id now k : String) (changes : List Change) (rows : List SheetRow)
    → AllPlanned direction rows changes
    → Separate changes
    → stock_of k (write_stock changes rows)
      ≡ stock_of k rows +ℤ moved k (map (movement id direction now) changes)
unfolding write_stock moved movement
write_stock-moved direction id now k [] rows p apart = omega int_laws
write_stock-moved direction id now k (c ∷ changes) rows p apart =
    rw
      (
        write_stock-moved direction id now k changes (set_stock c.sku c.after rows)
            (AllPlanned-set_stock direction rows c changes p.0.present apart.0 p.1) apart.1,
        set_stock-moved direction id now k rows c p.0,
      )
      (omega int_laws)
