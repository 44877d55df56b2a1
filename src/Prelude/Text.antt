-- ===== src/Prelude/Text.antt =====
-- What the program uses of Python's `str`: `strip`, `lower`, `upper` and membership in a set of
-- literals. White space is ASCII's and letters are cased within ASCII, as in the identifiers,
-- statuses and channel names that the program compares.
use Prim.Native.Nat.{ℕ}
use Prim.Native.Char.{Char, code}
use Prim.Native.String.{String}
use mathlib.Core.Path.{◌≡◌, refl}
use mathlib.Core.Bool.{Bool, false, ◌&&◌, ◌||◌}
use mathlib.Core.List.{List, [], ◌∷◌}
use text.Mathlib.Text.{◌==◌, starts_with}
use social_media_manager.Prelude.Tests.{nat_eq, leb, if◌then◌else◌}

is_space : ℕ → Bool
is_space c = (leb 9 c && leb c 13) || (leb 28 c && leb c 32)

lstrip : String → String
lstrip String.[] = ""
lstrip (String.◌∷◌ c s) = let rest = lstrip s in if is_space (code c) then rest else String.◌∷◌ c s

rstrip : String → String
rstrip String.[] = ""
rstrip (String.◌∷◌ c s) =
    let rest = rstrip s in if is_space (code c) && rest == "" then "" else String.◌∷◌ c rest

unfoldable pub strip : String → String
unfolding is_space lstrip rstrip
strip s = rstrip (lstrip s)

-- The character at the place in `to` that `c` has in `from`, or `c` itself.
translate : String → String → Char → Char
translate String.[] to c = c
translate (String.◌∷◌ a from) String.[] c = c
translate (String.◌∷◌ a from) (String.◌∷◌ b to) c =
    if nat_eq (code a) (code c) then b else translate from to c

map_chars : (Char → Char) → String → String
map_chars f String.[] = ""
map_chars f (String.◌∷◌ c s) = String.◌∷◌ (f c) (map_chars f s)

abbrev upper_letters : String
upper_letters = "ABCDEFGHIJKLMNOPQRSTUVWXYZ"

abbrev lower_letters : String
lower_letters = "abcdefghijklmnopqrstuvwxyz"

unfoldable pub lower : String → String
unfolding translate map_chars
lower s = map_chars (translate upper_letters lower_letters) s

unfoldable pub upper : String → String
unfolding translate map_chars
upper s = map_chars (translate lower_letters upper_letters) s

-- `s in {"a", "b"}`
abbrev pub contains : List String → String → Bool
contains [] s = false
contains (x ∷ xs) s = x == s || contains xs s

-- `marker in message`
unfoldable pub occurs : String → String → Bool
occurs marker String.[] = marker == ""
occurs marker (String.◌∷◌ c s) = starts_with (String.◌∷◌ c s) marker || occurs marker s

lower_example : lower "Instagram 7" ≡ "instagram 7"
unfolding lower
lower_example = refl

strip_example : strip "  a b " ≡ "a b"
unfolding strip
strip_example = refl
