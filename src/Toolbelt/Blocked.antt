-- ===== src/Toolbelt/Blocked.antt =====
-- The gate of `start` (certmon/toolbelt.py).
use certmon.Prelude.{
  String, Bool, true, false, not, ◌≡◌, refl, sym, ◌∙◌, ◌==◌, ◌&&◌, eq_iff, arith, Option, none,
  some, List, [], ◌∷◌, All, if◌then◌else◌, contains, select, order_by, insert_ordered, Bool-cases,
  inl, inr,
}
use certmon.Outcome.{Result, ok, err, raise_if}
use mathlib.Core.Path.{subst}
use certmon.Outcome.Rules.{continue-ok, raise_if-ok}
use certmon.Db.{Certificate, UploadStatus, Database}
use certmon.Artifacts.{Store, has_certificate}
use certmon.Toolbelt.{
  Reader, Row, Run, Statuses, status_at, status_key, selector_of, is_ready, is_new, listed_row,
  row_of, add_row, rows_of, is_empty, has_dry_run, ids_of, check_targets,
}

module _ {A : Type 0} (P : A → Type 0) where
  pub All-select : (p : A → Bool) (xs : List A) → All P xs → All P (select p xs)
  unfolding select
  All-select p [] h = tt
  All-select p (x ∷ xs) (h, hs) = elim (Bool-cases (p x)) [
    | inl e ↦ rw e (h, All-select p xs hs)
    | inr e ↦ rw e (All-select p xs hs)
  ]

  All-insert :
      (before : A → A → Bool) (x : A) (xs : List A)
      → P x
      → All P xs
      → All P (insert_ordered before x xs)
  unfolding insert_ordered
  All-insert before x [] h hs = (h, tt)
  All-insert before x (y ∷ ys) h (k, ks) = elim (Bool-cases (before x y)) [
    | inl e ↦ rw e (h, (k, ks))
    | inr e ↦ rw e (k, All-insert before x ys h ks)
  ]

  pub All-order_by : (before : A → A → Bool) (xs : List A) → All P xs → All P (order_by before xs)
  unfolding order_by
  All-order_by before [] h = tt
  All-order_by before (x ∷ xs) (h, hs) =
      All-insert before x (order_by before xs) h (All-order_by before xs hs)

module _ (reader : Reader) (store : Store) (latest : Statuses) where
  -- the row says what the statuses and the artifact store say
  pub record IsTrue (row : Row) : Type 0 where
    pub dry : row.dry_run ≡ status_at (status_key row.selector row.certificate_id "dry-run") latest
    pub ready :
        row.extron_ready ≡ true → has_certificate reader.vault row.certificate_id store ≡ ok true

  unfoldable pub AllTrue : Result (List Row) → Type 0
  AllTrue (ok rows) = All IsTrue rows
  AllTrue (err e) = Unit

  ready-true :
      (cert : Certificate) (b : Bool)
      → is_ready reader store cert ≡ ok b
      → b ≡ true
      → has_certificate reader.vault cert.id store ≡ ok true
  unfolding is_ready
  ready-true cert b e h = ground arith

  add_row-AllTrue :
      (row : Result (Option Row)) (rest : Result (List Row))
      → ((r : Row) → row ≡ ok (some r) → IsTrue r)
      → AllTrue rest
      → AllTrue (add_row reader store row rest)
  unfolding AllTrue
  add_row-AllTrue (err e) rest h hs = tt
  add_row-AllTrue (ok none) rest h hs = hs
  add_row-AllTrue (ok (some r)) (err e) h hs = tt
  add_row-AllTrue (ok (some r)) (ok rows) h hs = (h r refl, hs)

  row-IsTrue :
      (cert : Certificate) (b : Bool)
      → is_ready reader store cert ≡ ok b
      → IsTrue (row_of reader store latest cert (selector_of reader store cert) b)
  row-IsTrue cert b e = record { dry = refl; ready = ready-true cert b e }

  -- a certificate that is not skipped
  shown_row : Certificate → Result Bool → Result (Option Row)
  shown_row cert (err e) = err e
  shown_row cert (ok b) =
      ok (some (row_of reader store latest cert (selector_of reader store cert) b))

  shown-IsTrue :
      (cert : Certificate) (b : Result Bool) (r : Row)
      → is_ready reader store cert ≡ b
      → shown_row cert b ≡ ok (some r)
      → IsTrue r
  unfolding shown_row
  shown-IsTrue cert (err x) r e h = absurd cc
  shown-IsTrue cert (ok b) r e h = subst IsTrue (cc) (row-IsTrue cert b e)

  listed_row-shown :
      (done seen : List String) (cert : Certificate)
      → (is_new reader store cert seen && not (contains cert.id done)) ≡ true
      → (b : Result Bool) → is_ready reader store cert ≡ b
      → listed_row reader store latest done seen cert ≡ shown_row cert b
  unfolding listed_row shown_row
  listed_row-shown done seen cert e (err x) k = rw (listed_row, e, k) refl
  listed_row-shown done seen cert e (ok b) k = rw (listed_row, e, k) refl

  listed_row-IsTrue :
      (done seen : List String) (cert : Certificate) (r : Row)
      → listed_row reader store latest done seen cert ≡ ok (some r)
      → IsTrue r
  unfolding listed_row
  listed_row-IsTrue done seen cert r h =
      elim (Bool-cases (is_new reader store cert seen && not (contains cert.id done))) [
        | inl e ↦
            shown-IsTrue cert (is_ready reader store cert) r refl
              (sym (listed_row-shown done seen cert e (is_ready reader store cert) refl) ∙ h)
        | inr e ↦ absurd (cc (rw e at h))
      ]

  pub rows_of-AllTrue :
      (done : List String) (certs : List Certificate) (seen : List String)
      → AllTrue (rows_of reader store latest done certs seen)
  unfolding rows_of AllTrue
  rows_of-AllTrue done [] seen = tt
  rows_of-AllTrue done (cert ∷ certs) seen =
      add_row-AllTrue (listed_row reader store latest done seen cert) _
        (listed_row-IsTrue done seen cert)
        (rows_of-AllTrue done certs
          (if is_new reader store cert seen then selector_of reader store cert ∷ seen else seen))

  -- a target with a dry run that went well, and the files of a certificate
  pub record IsProven (target : String × String) : Type 0 where
    pub status : UploadStatus
    pub stored : status_at (status_key target.0 target.1 "dry-run") latest ≡ some status
    pub went_well : status.ok ≡ true

  abbrev pub HasFiles : String × String → Type 0
  HasFiles (selector, id) = has_certificate reader.vault id store ≡ ok true

  row-IsProven :
      (row : Row) (o : Option UploadStatus)
      → IsTrue row
      → row.dry_run ≡ o
      → has_dry_run reader store row ≡ true
      → IsProven (row.selector, row.certificate_id)
  row-IsProven row none h e k = absurd (cc (rw e at k))
  row-IsProven row (some s) h e k = record {
    status = s;
    stored = sym h.dry ∙ e;
    went_well = cc (rw e at k);
  }

  ids-IsProven :
      (rows : List Row)
      → All IsTrue rows
      → is_empty reader store (select (λ row. not (has_dry_run reader store row)) rows) ≡ true
      → All IsProven (ids_of reader store rows)
  unfolding select
  ids-IsProven [] hs e = tt
  ids-IsProven (row ∷ rows) (h, hs) e = elim (Bool-cases (has_dry_run reader store row)) [
    | inl k ↦ (row-IsProven row row.dry_run h refl k, ids-IsProven rows hs (rw k at e))
    | inr k ↦ absurd (cc (rw k at e))
  ]

  ids-HasFiles :
      (rows : List Row)
      → All IsTrue rows
      → is_empty reader store (select (λ row. not row.extron_ready) rows) ≡ true
      → All HasFiles (ids_of reader store rows)
  unfolding select
  ids-HasFiles [] hs e = tt
  ids-HasFiles (row ∷ rows) (h, hs) e = elim (Bool-cases row.extron_ready) [
    | inl k ↦ (h.ready k, ids-HasFiles rows hs (rw k at e))
    | inr k ↦ absurd (cc (rw k at e))
  ]

  -- what the targets of a run that starts are like
  abbrev pub Starts : String → Run → Type 0
  Starts mode run =
      All HasFiles run.certificate_ids × (mode ≡ "upload" → All IsProven run.certificate_ids)

  blocked_false :
      (mode : String) (b : Bool) → (mode == "upload" && not b) ≡ false → mode ≡ "upload" → b ≡ true
  blocked_false mode b e same = ground (arith, eq_iff mode "upload")

  pub check_targets-ok :
      (mode : String) (targets : List Row) (db : Database) (u : Unit {0})
      → All IsTrue targets
      → (check_targets reader store mode targets db).0 ≡ ok u
      → All HasFiles (ids_of reader store targets)
        × (mode ≡ "upload" → All IsProven (ids_of reader store targets))
  unfolding check_targets
  check_targets-ok mode targets db u hs e =
      let unready = not (is_empty reader store (select (λ row. not row.extron_ready) targets)) in
      let (_, (first, second)) = continue-ok (raise_if unready _ db) _ u e in
      let ready : unready ≡ false = raise_if-ok unready _ db tt first in
      let blocked =
        mode == "upload"
        && not
            (is_empty reader store (select (λ row. not (has_dry_run reader store row)) targets)) in
      let free : blocked ≡ false = raise_if-ok blocked _ _ u second in
      (
        ids-HasFiles targets hs (ground (arith, ready)),
        λ upload. ids-IsProven targets hs (blocked_false mode _ free upload),
      )
