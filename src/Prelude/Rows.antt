-- ===== src/Prelude/Rows.antt =====
-- Rows of a table, found and updated by a test that one row at most is meant to meet.
use Prim.Native.Nat.{ℕ, ◌+◌, ◌≤◌}
use mathlib.Core.Path.{◌≡◌, refl}
use mathlib.Core.Bool.{Bool, true, false}
use mathlib.Core.Option.{none, some}
use mathlib.Core.List.{List, [], ◌∷◌}
use native.Mathlib.Omega.{arith}
use social_media_manager.Prelude.Tests.{if◌then◌else◌}
use social_media_manager.Prelude.Lists.{find?}

abbrev pub one_if : Bool → ℕ
one_if true = 1
one_if false = 0

module _ {ℓ} {A : Type ℓ} where
  -- `UPDATE` of the first row that meets the test.
  unfoldable pub update_first : (A → Bool) → (A → A) → List A → List A
  update_first p f [] = []
  update_first p f (x ∷ xs) = if p x then f x ∷ xs else x ∷ update_first p f xs

  unfoldable pub count : (A → Bool) → List A → ℕ
  count q [] = 0
  count q (x ∷ xs) = one_if (q x) + count q xs

  pub count-update_first :
      (q p : A → Bool) (f : A → A) (xs : List A) (x : A)
      → find? p xs ≡ some x
      → count q (update_first p f xs) + one_if (q x) ≡ count q xs + one_if (q (f x))
  unfolding count update_first
  count-update_first q p f [] x h = cc
  count-update_first q p f (y ∷ xs) x h = ground (arith, count-update_first q p f xs x)

  pub none_counted : (q : A → Bool) (xs : List A) → find? q xs ≡ none → count q xs ≡ 0
  unfolding count
  none_counted q [] h = refl
  none_counted q (x ∷ xs) h = ground (arith, none_counted q xs)

  pub count-none : (q : A → Bool) (xs : List A) → count q xs ≡ 0 → find? q xs ≡ none
  unfolding count
  count-none q [] h = refl
  count-none q (x ∷ xs) h = ground (arith, count-none q xs)

  -- What a search finds meets its test.
  pub find?-meets : (p : A → Bool) (xs : List A) (x : A) → find? p xs ≡ some x → p x ≡ true
  find?-meets p [] x h = absurd (cc)
  find?-meets p (y ∷ xs) x h = ground (arith, find?-meets p xs x)

  pub update_first-none :
      (p : A → Bool) (f : A → A) (xs : List A) → find? p xs ≡ none → update_first p f xs ≡ xs
  unfolding update_first
  update_first-none p f [] h = refl
  update_first-none p f (x ∷ xs) h = ground (arith, update_first-none p f xs)

  -- The row that leaves a test which only it met.
  pub find-leave :
      (q p : A → Bool) (f : A → A) (xs : List A) (x : A)
      → find? p xs ≡ some x
      → q x ≡ true
      → q (f x) ≡ false
      → count q xs ≤ 1
      → find? q (update_first p f xs) ≡ none
  find-leave q p f xs x h here gone one =
      count-none q (update_first p f xs)
        (ground (arith, count-update_first q p f xs x h, here, gone, one))

  -- The row that enters a test which no row met.
  pub find-enter :
      (q p : A → Bool) (f : A → A) (xs : List A) (x : A)
      → find? p xs ≡ some x
      → find? q xs ≡ none
      → q (f x) ≡ true
      → find? q (update_first p f xs) ≡ some (f x)
  unfolding update_first
  find-enter q p f [] x h vacant now = absurd (cc)
  find-enter q p f (y ∷ xs) x h vacant now = ground (arith, find-enter q p f xs x)

  found_counted :
      (q p : A → Bool) (xs : List A) (x : A) → find? p xs ≡ some x → q x ≡ true → 1 ≤ count q xs
  unfolding count
  found_counted q p [] x h here = absurd (cc)
  found_counted q p (z ∷ xs) x h here = ground (arith, found_counted q p xs x)

  -- The row that keeps meeting a test which only it meets.
  pub find-stay :
      (q p : A → Bool) (f : A → A) (xs : List A) (x : A)
      → find? p xs ≡ some x
      → q x ≡ true
      → q (f x) ≡ true
      → count q xs ≤ 1
      → find? q (update_first p f xs) ≡ some (f x)
  unfolding update_first count
  find-stay q p f [] x h here now one = absurd (cc)
  find-stay q p f (y ∷ xs) x h here now one =
      ground (arith, find-stay q p f xs x, found_counted q p xs x)

  -- The row that alone meets a test is found by it.
  pub find_unique :
      (q p : A → Bool) (xs : List A) (x : A)
      → find? p xs ≡ some x
      → q x ≡ true
      → count q xs ≤ 1
      → find? q xs ≡ some x
  unfolding count
  find_unique q p [] x h here one = absurd (cc)
  find_unique q p (y ∷ xs) x h here one =
      ground (arith, find_unique q p xs x, found_counted q p xs x)

  -- An update of a row that a test neither meets before nor after.
  pub find-elsewhere :
      (q p : A → Bool) (f : A → A) (xs : List A) (x : A)
      → find? p xs ≡ some x
      → q x ≡ false
      → q (f x) ≡ false
      → find? q (update_first p f xs) ≡ find? q xs
  unfolding update_first
  find-elsewhere q p f [] x h before after = absurd (cc)
  find-elsewhere q p f (y ∷ xs) x h before after = ground (arith, find-elsewhere q p f xs x)

  -- The row that a search finds, updated by a narrower test that it meets.
  pub find-updated :
      (q p : A → Bool) (f : A → A) (xs : List A) (x : A)
      → ((y : A) → p y ≡ true → q y ≡ true)
      → find? q xs ≡ some x
      → p x ≡ true
      → q (f x) ≡ true
      → find? q (update_first p f xs) ≡ some (f x)
  unfolding update_first
  find-updated q p f [] x narrower found admits now = absurd (cc)
  find-updated q p f (y ∷ xs) x narrower found admits now =
      ground (arith, find-updated q p f xs x narrower, narrower y)

  -- The row that a search finds, found by a narrower test that it meets.
  pub find-narrower :
      (q p : A → Bool) (xs : List A) (x : A)
      → ((y : A) → p y ≡ true → q y ≡ true)
      → find? q xs ≡ some x
      → p x ≡ true
      → find? p xs ≡ some x
  find-narrower q p [] x narrower found admits = absurd (cc)
  find-narrower q p (y ∷ xs) x narrower found admits =
      ground (arith, find-narrower q p xs x narrower, narrower y)
