-- ===== src/Prelude/Text.antt =====
-- Python's text methods as far as the program uses them.
use Prim.Native.Nat.{ℕ, ◌+◌}
use Prim.Native.Char.{Char, code}
use Prim.Native.String.{String, [], ◌∷◌}
use mathlib.Core.Path.{◌≡◌, refl}
use mathlib.Core.Bool.{Bool, true, false, ◌&&◌, ◌||◌}
use mathlib.Core.Logic.{◌↔◌}
use mathlib.Core.Option.{Option, none, some}
use mathlib.Core.List.{List, reverse}
use native.Mathlib.Omega.{arith}
use certmon.Prelude.Tests.{leb, eqb, if◌then◌else◌, Bool-cases}
use mathlib.Core.Logic.{inl, inr}

-- the characters that `str.strip` removes
is_space : ℕ → Bool
is_space c =
    (leb 9 c && leb c 13)
    || (leb 28 c && leb c 32)
    || eqb c 133
    || eqb c 160
    || eqb c 5760
    || (leb 8192 c && leb c 8202)
    || eqb c 8232
    || eqb c 8233
    || eqb c 8239
    || eqb c 8287
    || eqb c 12288

lstrip : String → String
unfolding is_space
lstrip [] = []
lstrip (c ∷ s) = if is_space (code c) then lstrip s else c ∷ s

rstrip_step : Char → String → String
unfolding is_space
rstrip_step c [] = if is_space (code c) then [] else c ∷ []
rstrip_step c (d ∷ s) = c ∷ d ∷ s

rstrip : String → String
unfolding rstrip_step
rstrip [] = []
rstrip (c ∷ s) = rstrip_step c (rstrip s)

-- `str.strip()`
unfoldable pub strip : String → String
unfolding lstrip rstrip
strip s = rstrip (lstrip s)

-- ASCII lower case of a code point, as SQLite's `lower` has it
abbrev pub lower_code : ℕ → ℕ
lower_code c = if leb b'A' c && leb c b'Z' then c + 32 else c

-- the code points of `lower(s)`
unfoldable pub lower : String → List ℕ
lower [] = List.[]
lower (c ∷ s) = List.◌∷◌ (lower_code (code c)) (lower s)

unfoldable pub same_codes : List ℕ → List ℕ → Bool
same_codes List.[] List.[] = true
same_codes (List.◌∷◌ a l) (List.◌∷◌ b r) = eqb a b && same_codes l r
same_codes _ _ = false

-- `lower(a) = lower(b)`
unfoldable pub same_name : String → String → Bool
unfolding lower same_codes
same_name a b = same_codes (lower a) (lower b)

unfoldable pub prefix_codes : List ℕ → List ℕ → Bool
prefix_codes List.[] _ = true
prefix_codes (List.◌∷◌ a l) List.[] = false
prefix_codes (List.◌∷◌ a l) (List.◌∷◌ b r) = eqb a b && prefix_codes l r

-- `part in text` on code points
unfoldable pub within : List ℕ → List ℕ → Bool
unfolding prefix_codes
within part List.[] = prefix_codes part List.[]
within part (List.◌∷◌ c text) = prefix_codes part (List.◌∷◌ c text) || within part text

-- `text.rstrip(".")`
dot_step : Char → String → String
dot_step c [] = if eqb (code c) b'.' then [] else c ∷ []
dot_step c (d ∷ s) = c ∷ d ∷ s

unfoldable pub rstrip_dots : String → String
unfolding dot_step
rstrip_dots [] = []
rstrip_dots (c ∷ s) = dot_step c (rstrip_dots s)

unfoldable pub codes : String → List ℕ
codes [] = List.[]
codes (c ∷ s) = List.◌∷◌ (code c) (codes s)

-- `part in text`
unfoldable pub has_part : String → String → Bool
unfolding codes within
has_part part text = within (codes part) (codes text)

-- `text.endswith(part)`
unfoldable pub ends_with : String → String → Bool
unfolding codes prefix_codes
ends_with text part = prefix_codes (reverse (codes part)) (reverse (codes text))

-- the text after `part`, if it begins with it
unfoldable pub after_prefix : String → String → Option String
after_prefix [] text = some text
after_prefix (c ∷ part) [] = none
after_prefix (c ∷ part) (d ∷ text) =
    let rest = after_prefix part text in if eqb (code c) (code d) then rest else none

strip_example : strip "  ad min " ≡ "ad min"
unfolding strip
strip_example = refl

same_name_example : same_name "Alice" "aLICE" ≡ true
unfolding same_name
same_name_example = refl

same_codes_iff : (l r : List ℕ) → (same_codes l r ≡ true) ↔ (l ≡ r)
unfolding same_codes
same_codes_iff List.[] List.[] = ground arith
same_codes_iff List.[] (List.◌∷◌ b r) = ground arith
same_codes_iff (List.◌∷◌ a l) List.[] = ground arith
same_codes_iff (List.◌∷◌ a l) (List.◌∷◌ b r) = ground (arith, same_codes_iff l r)

-- Two names are the same exactly if their lower-case forms are equal.
pub same_name_iff : (a b : String) → (same_name a b ≡ true) ↔ (lower a ≡ lower b)
unfolding same_name
same_name_iff a b = same_codes_iff (lower a) (lower b)

dot_step_idem :
    (c : Char) (s : String) → rstrip_dots s ≡ s → rstrip_dots (dot_step c s) ≡ dot_step c s
unfolding rstrip_dots dot_step
dot_step_idem c [] h = elim (Bool-cases (eqb (code c) b'.')) [
  | inl e ↦ rw e refl
  | inr e ↦ rw (e, e) refl
]
dot_step_idem c (d ∷ s) h = rw h refl

-- A text without final dots has none to lose.
pub rstrip_dots_idem : (s : String) → rstrip_dots (rstrip_dots s) ≡ rstrip_dots s
unfolding rstrip_dots
rstrip_dots_idem [] = refl
rstrip_dots_idem (c ∷ s) = dot_step_idem c (rstrip_dots s) (rstrip_dots_idem s)
