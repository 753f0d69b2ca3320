-- ===== src/Renewals/Identifiers/Accepted.antt =====
-- What `normalize_identifiers` of certmon/renewals.py lets through.
use certmon.Prelude.{
  String, Bool, true, false, ◌≡◌, refl, sym, ◌==◌, ◌⊎◌, arith, strip, rstrip_dots, has_part,
  ends_with, Option, none, some, List, [], ◌∷◌, ◌++◌, contains, All, Bool-cases, inl, inr,
  after_prefix,
}
use Prim.Native.String
use mathlib.Core.Path.{subst}
use certmon.Outcome.{Result, ok, err}
use certmon.Renewals.Identifiers.{
  Names, clean, is_private_name, with_wildcard, canonical_name, canonical, canonical_split,
  canonical_value, add_new, normalize_from, require_some, normalize_identifiers,
}

-- a name with a dot that is not below `.local` and not `localhost`
abbrev pub IsPublic : String → Type 0
IsPublic name =
    (has_part "." name ≡ true)
    × ((ends_with name ".local" ≡ false) × ((name == "localhost") ≡ false))

-- the identifier `x` stands for the value `v`: for the name after a leading `*.`, or for all of it
abbrev pub StandsFor : Names → String → Option String → String → Type 0
StandsFor n v none x = (n.is_ip v ≡ false) × ((n.idna v ≡ some x) × IsPublic x)
StandsFor n v (some name) x =
    (ascii : String) × ((n.is_ip name ≡ false)
      × ((n.idna name ≡ some ascii) × ((x ≡ String.◌++◌ "*." ascii) × IsPublic ascii)))

-- one of the given values, without blanks around it and final dots, is what `x` stands for
abbrev pub Gives : Names → String → List (Option String) → Type 0
Gives n x [] = ⊥
Gives n x (none ∷ values) = Gives n x values
Gives n x (some raw ∷ values) =
    let v = rstrip_dots (strip raw) in StandsFor n v (after_prefix "*." v) x ⊎ Gives n x values

module _ (n : Names) (public_acme : Bool) (P : String → Type 0) where
  added : (acc : List String) (x : String) → All P acc → P x → All P (acc ++ x ∷ [])
  added [] x h k = (k, tt)
  added (y ∷ acc) x (h, hs) k = (h, added acc x hs k)

  added_new :
      (acc : List String) (x : String) → All P acc → P x → All P (add_new n public_acme acc x)
  added_new acc x h k = elim (Bool-cases (contains x acc)) [
    | inl e ↦ rw e h
    | inr e ↦ rw e (added acc x h k)
  ]

  -- what the loop takes from a value has the property
  abbrev Yields : Option String → Type 0
  Yields raw =
      (x : String)
      → (clean raw == "") ≡ false
      → canonical_value n public_acme (clean raw) ≡ ok x
      → P x

  abbrev Accepts : Result (List String) → Type 0
  Accepts (ok xs) = All P xs
  Accepts (err e) = Unit

  next-Accepts :
      (values : List (Option String)) (acc : List String) (value : String)
      → ((acc' : List String) → All P acc' → Accepts (normalize_from n public_acme acc' values))
      → All P acc
      → ((x : String) → canonical_value n public_acme value ≡ ok x → P x)
      → (r : Result String) → canonical_value n public_acme value ≡ r
      → Accepts (elim r [
        | err e ↦ err e
        | ok name ↦ normalize_from n public_acme (add_new n public_acme acc name) values
      ])
  next-Accepts values acc value ih h f (err x) e = tt
  next-Accepts values acc value ih h f (ok name) e =
      ih (add_new n public_acme acc name) (added_new acc name h (f name e))

  normalize_from-Accepts :
      (values : List (Option String)) (acc : List String)
      → All P acc
      → All Yields values
      → Accepts (normalize_from n public_acme acc values)
  unfolding normalize_from
  normalize_from-Accepts [] acc h _ = h
  normalize_from-Accepts (raw ∷ values) acc h (f, fs) = elim (Bool-cases (clean raw == "")) [
    | inl e ↦ rw e (normalize_from-Accepts values acc h fs)
    | inr e ↦ rw e (
        next-Accepts values acc (clean raw) (λ acc' h'. normalize_from-Accepts values acc' h' fs) h
          (λ x. f x e) (canonical_value n public_acme (clean raw)) refl)
  ]

  require_some-Accepts : (r : Result (List String)) → Accepts r → Accepts (require_some r)
  unfolding require_some
  require_some-Accepts (ok []) h = tt
  require_some-Accepts (ok (x ∷ xs)) h = h
  require_some-Accepts (err e) h = tt

  pub normalize-All :
      (values : List (Option String)) (xs : List String)
      → normalize_identifiers n values public_acme ≡ ok xs
      → All Yields values
      → All P xs
  unfolding normalize_identifiers
  normalize-All values xs e fs =
      subst Accepts e (require_some-Accepts _ (normalize_from-Accepts values [] tt fs))

not_private : (name : String) → is_private_name name ≡ false → IsPublic name
unfolding is_private_name
not_private name h = (ground (arith, h), (ground (arith, h), ground (arith, h)))

module _ (n : Names) where
  named_parts :
      (value : String) (wildcard : Bool) (o : Option String) (x : String)
      → canonical_name n true value wildcard o ≡ ok x
      → (ascii : String) × ((o ≡ some ascii)
          × ((x ≡ with_wildcard wildcard ascii) × IsPublic ascii))
  unfolding canonical_name
  named_parts value wildcard none x e = ground (arith, e)
  named_parts value wildcard (some name) x e = elim (Bool-cases (is_private_name name)) [
    | inl p ↦ absurd (cc (rw p at e))
    | inr p ↦ (name, (refl, (cc (rw p at e), not_private name p)))
  ]

  checked_parts :
      (value : String) (wildcard : Bool) (name x : String)
      → canonical n true value wildcard name ≡ ok x
      → (ascii : String) × ((n.is_ip name ≡ false)
          × ((n.idna name ≡ some ascii) × ((x ≡ with_wildcard wildcard ascii) × IsPublic ascii)))
  unfolding canonical
  checked_parts value wildcard name x e = elim (Bool-cases (n.is_ip name)) [
    | inl p ↦ absurd (cc (rw p at e))
    | inr p ↦
        (let (ascii, (known, (same, public))) =
            named_parts value wildcard (n.idna name) x (rw p at e) in
          (ascii, (p, (known, (same, public)))))
  ]

  canonical_split-StandsFor :
      (v : String) (o : Option String) (x : String)
      → canonical_split n true v o ≡ ok x
      → StandsFor n v o x
  unfolding canonical_split
  canonical_split-StandsFor v none x e =
      let (ascii, (ip, (known, (same, public)))) = checked_parts v false v x e in
      (ip, (rw same known, subst IsPublic (sym same) public))
  canonical_split-StandsFor v (some name) x e = checked_parts v true name x e

  canonical_value-StandsFor :
      (v x : String) → canonical_value n true v ≡ ok x → StandsFor n v (after_prefix "*." v) x
  unfolding canonical_value
  canonical_value-StandsFor v = canonical_split-StandsFor v (after_prefix "*." v)

  given :
      (values : List (Option String)) (P : String → Type 0)
      → ((x : String) → Gives n x values → P x)
      → All (Yields n true P) values
  unfolding clean
  given [] P f = tt
  given (none ∷ values) P f = (λ x ne e. ground (arith, ne), given values P f)
  given (some raw ∷ values) P f = (
    λ x ne e. f x (inl (canonical_value-StandsFor (rstrip_dots (strip raw)) x e)),
    given values P (λ x g. f x (inr g)),
  )

  -- For a public CA, whatever values are given: each identifier that `normalize_identifiers` returns
  -- comes from one of the values, without the blanks around it and the dots at its end. It is the
  -- IDNA form of the value, or `*.` and the IDNA form of what follows a leading `*.`; this name is no
  -- IP address, and its IDNA form, which is under the wildcard if there is one, has a dot, is not
  -- below `.local` and is not `localhost`.
  pub normalize_identifiers-Gives :
      (values : List (Option String)) (xs : List String)
      → normalize_identifiers n values true ≡ ok xs
      → All (λ x. Gives n x values) xs
  normalize_identifiers-Gives values xs e =
      normalize-All n true (λ x. Gives n x values) values xs e
        (given values (λ x. Gives n x values) (λ x g. g))
