-- ===== src/Auth/Password.antt =====
-- `hash_password` and `verify_password` of certmon/auth.py.
use Prim.Native.Char.{code}
use Prim.Native.String.{String, [], ◌∷◌, ◌++◌, char_at}
use certmon.Prelude.{
  ℕ, ◌+◌, ◌-◌, ◌*◌, Bool, true, false, ◌&&◌, Option, none, some, ◌==◌, leb, eqb, if◌then◌else◌,
}
use Prim.Native.Nat.{◌/◌, ◌%◌, zero, suc}
use mathlib.Core.List.{List}
use certmon.Outcome.{Result, ok, err, value_error}

-- hashlib's functions: PBKDF2-HMAC-SHA256 of a password, a salt and a count of rounds, and the
-- hexadecimal SHA-256 of a text
pub record Hashing : Type 0 where
  pub pbkdf2 : String → List ℕ → ℕ → List ℕ
  pub sha256 : String → String

-- `bytes.hex()`
unfoldable pub hex : List ℕ → String
hex List.[] = []
hex (List.◌∷◌ b bs) =
    char_at "0123456789abcdef" (b / 16) ∷ char_at "0123456789abcdef" (b % 16) ∷ hex bs

unfoldable pub hex_value : ℕ → Option ℕ
hex_value c =
    if leb 48 c && leb c 57
    then some (c - 48)
    else if leb 97 c && leb c 102
    then some (c - 87)
    else if leb 65 c && leb c 70
    then some (c - 55)
    else none

abbrev hex_pair : Option ℕ → Option ℕ → Option (List ℕ) → Option (List ℕ)
hex_pair (some a) (some b) (some rest) = some (List.◌∷◌ (a * 16 + b) rest)
hex_pair _ _ _ = none

-- `bytes.fromhex`, on texts without white space
unfoldable pub from_hex : String → Option (List ℕ)
unfolding hex_value
from_hex [] = some List.[]
from_hex (c ∷ []) = none
from_hex (c ∷ d ∷ s) = hex_pair (hex_value (code c)) (hex_value (code d)) (from_hex s)

-- `int(s)`, on digits only
unfoldable pub digits : ℕ → String → Option ℕ
digits n [] = some n
digits n (c ∷ s) =
    let rest = digits (n * 10 + (code c - 48)) s in
    if leb 48 (code c) && leb (code c) 57 then rest else none

unfoldable pub int : String → Option ℕ
unfolding digits
int s = if s == "" then none else digits 0 s

-- `text.split("$", n)`
unfoldable pub split : ℕ → String → String → List String
split n part [] = List.◌∷◌ part List.[]
split zero part (c ∷ s) = List.◌∷◌ (part ++ (c ∷ s)) List.[]
split (suc n) part (c ∷ s) =
    let closed = List.◌∷◌ part (split n [] s) in
    let longer = split (suc n) (part ++ (c ∷ [])) s in if eqb (code c) b'$' then closed else longer

abbrev same_bytes : List ℕ → List ℕ → Bool
same_bytes List.[] List.[] = true
same_bytes (List.◌∷◌ a l) (List.◌∷◌ b r) = eqb a b && same_bytes l r
same_bytes _ _ = false

-- the default of `iterations`
abbrev pub rounds : ℕ
rounds = 260000

unfoldable pub hash_session_token : Hashing → String → String
hash_session_token h token = h.sha256 token

unfoldable pub hash_password : Hashing → List ℕ → String → String
unfolding hex
hash_password h salt password =
    "pbkdf2_sha256$260000$" ++ (hex salt ++ ("$" ++ hex (h.pbkdf2 password salt rounds)))

-- `int` and `bytes.fromhex` raise `ValueError`, which `verify_password` lets pass
unfoldable pub check : Hashing → String → Option (List ℕ) → Option (List ℕ) → Option ℕ → Result Bool
check h password (some expected) (some salt) (some iterations) =
    ok (same_bytes (h.pbkdf2 password salt iterations) expected)
check h password _ _ _ = err (value_error "invalid literal")

unfoldable pub verify_parts : Hashing → String → List String → Result Bool
unfolding check from_hex int
verify_parts h password
      (List.◌∷◌ algorithm (List.◌∷◌ iterations (List.◌∷◌ salt (List.◌∷◌ digest List.[])))) =
    if algorithm == "pbkdf2_sha256"
    then check h password (from_hex digest) (from_hex salt) (int iterations)
    else ok false
verify_parts h password _ = ok false

unfoldable pub verify_password : Hashing → String → String → Result Bool
unfolding verify_parts split
verify_password h password stored = verify_parts h password (split 3 [] stored)
