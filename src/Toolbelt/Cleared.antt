-- ===== src/Toolbelt/Cleared.antt =====
-- The old results that a run (certmon/toolbelt.py) clears as it starts.
use certmon.Prelude.{
  String, Bool, true, false, not, ◌≡◌, refl, sym, ap, ◌∙◌, ◌==◌, ◌||◌, ◌&&◌, eq_iff, eq_refl, arith,
  Option, none, some, List, [], ◌∷◌, All, if◌then◌else◌, is_none, select, Bool-cases, inl, inr,
}
use mathlib.Core.Path.{subst}
use certmon.Outcome.{Error, value_error, Result, ok, err, raise_if, lift, ◌>>=◌, ◌>>◌}
use certmon.Outcome.Rules.{returned, continue-ok, raise_if-next, bind_rule}
use certmon.Db.{UploadStatus, upload_statuses, Database}
use certmon.Db.Settings.{get_setting, put_setting, lookup-upsert}
use certmon.Artifacts.{Store}
use certmon.Toolbelt.{
  Reader, Row, Run, Statuses, status_setting, latest_statuses, status_at, without_status,
  status_key, keys_of, clear_keys, keep_cleared, clear_previous_statuses, is_empty, ids_of,
  check_targets, list_devices, is_selected, start_targets, start, has_dry_run,
}

status_at-without_status :
    (k j : String) (latest : Statuses)
    → status_at j (without_status k latest) ≡ (if k == j then none else status_at j latest)
unfolding status_at without_status
status_at-without_status k j [] = ground arith
status_at-without_status k j ((i, s) ∷ latest) =
    ground (arith, eq_iff k j, eq_iff i k, eq_iff i j, status_at-without_status k j latest)

was_none :
    (changed : Bool) (o : Option UploadStatus) → (changed || not (is_none o)) ≡ false → o ≡ none
was_none changed none e = refl
was_none true (some s) e = absurd cc
was_none false (some s) e = absurd cc

was_same :
    (changed : Bool) (o : Option UploadStatus)
    → (changed || not (is_none o)) ≡ false
    → changed ≡ false
was_same true o e = absurd cc
was_same false o e = refl

other :
    (k j : String) (latest : Statuses)
    → status_at k latest ≡ none
    → status_at j (without_status k latest) ≡ none
    → status_at j latest ≡ none
other k j latest h g = elim (Bool-cases (k == j)) [
  | inl e ↦ subst (λ i. status_at i latest ≡ none) ((eq_iff k j).0 e) h
  | inr e ↦ cc (rw (status_at-without_status k j latest, e) at g)
]

module _ (reader : Reader) (store : Store) where
  -- the statuses after the loop
  cleared : List String → Statuses → Bool → Statuses
  cleared ks latest changed = (clear_keys reader store ks latest changed).0

  -- a status that is gone stays gone
  cleared_before :
      (ks : List String) (latest : Statuses) (changed : Bool) (j : String)
      → status_at j latest ≡ none
      → status_at j (cleared ks latest changed) ≡ none
  unfolding cleared clear_keys
  cleared_before [] latest changed j h = h
  cleared_before (k ∷ ks) latest changed j h =
      cleared_before ks (without_status k latest) _ j
        (ground (arith, status_at-without_status k j latest))

  Gone : Statuses → String → Type 0
  Gone latest j = status_at j latest ≡ none

  cleared-Gone :
      (ks : List String) (latest : Statuses) (changed : Bool)
      → All (Gone (cleared ks latest changed)) ks
  unfolding cleared clear_keys Gone
  cleared-Gone [] latest changed = tt
  cleared-Gone (k ∷ ks) latest changed = (
    cleared_before ks (without_status k latest) _ k
        (ground (arith, status_at-without_status k k latest, eq_refl k)),
    cleared-Gone ks (without_status k latest) _,
  )

  still-Gone :
      (k : String) (ks : List String) (latest : Statuses)
      → status_at k latest ≡ none
      → All (Gone (without_status k latest)) ks
      → All (Gone latest) ks
  unfolding Gone
  still-Gone k [] latest h hs = tt
  still-Gone k (j ∷ js) latest h (g, gs) = (other k j latest h g, still-Gone k js latest h gs)

  -- a loop that has changed nothing
  clear_keys-unchanged :
      (ks : List String) (latest : Statuses) (changed : Bool)
      → (clear_keys reader store ks latest changed).1 ≡ false
      → (changed ≡ false) × All (Gone latest) ks
  unfolding clear_keys Gone
  clear_keys-unchanged [] latest changed e = (e, tt)
  clear_keys-unchanged (k ∷ ks) latest changed e =
      let (unchanged, gone) = clear_keys-unchanged ks (without_status k latest) _ e in
      let none_there : status_at k latest ≡ none =
        was_none changed (status_at k latest) unchanged in
      (
        was_same changed (status_at k latest) unchanged,
        (none_there, still-Gone k ks latest none_there gone),
      )

  kept-Gone :
      (ks : List String) (db : Database) (m : Statuses × Bool)
      → All (Gone m.0) ks
      → (m.1 ≡ false → All (Gone (latest_statuses db)) ks)
      → All (Gone (latest_statuses (keep_cleared reader store m db).1)) ks
  unfolding keep_cleared get_setting put_setting
  kept-Gone ks db (latest, true) hs same =
      rw (lookup-upsert status_setting status_setting (upload_statuses latest) db.settings) hs
  kept-Gone ks db (latest, false) hs same = same refl

  clear_previous-Gone :
      (mode : String) (targets : List Row) (db : Database)
      → All
          (Gone (latest_statuses (clear_previous_statuses reader store mode targets db).1))
          (keys_of reader store mode targets)
  unfolding clear_previous_statuses cleared
  clear_previous-Gone mode targets db =
      let ks = keys_of reader store mode targets in
      kept-Gone ks db (clear_keys reader store ks (latest_statuses db) false)
        (cleared-Gone ks (latest_statuses db) false)
        λ e. (clear_keys-unchanged ks (latest_statuses db) false e).1

  -- the results of the targets under the key of a mode are gone
  abbrev pub AllCleared : Statuses → String → List (String × String) → Type 0
  AllCleared latest mode targets =
      All (λ t. status_at (status_key t.0 t.1 mode) latest ≡ none) targets

  keys-cleared :
      (mode : String) (latest : Statuses) (targets : List Row)
      → All (Gone latest) (keys_of reader store mode targets)
      → AllCleared latest "upload" (ids_of reader store targets)
        × (mode ≡ "dry-run" → AllCleared latest "dry-run" (ids_of reader store targets))
  unfolding keys_of Gone
  keys-cleared mode latest [] hs = (tt, λ _. tt)
  keys-cleared mode latest (row ∷ rows) hs = elim (Bool-cases (mode == "dry-run")) [
    | inl e ↦
        let (dry, (upload, rest)) = (rw e at hs) in
        let (uploads, drys) = keys-cleared mode latest rows rest in
        ((upload, uploads), λ m. (dry, drys m))
    | inr e ↦
        let (upload, rest) = (rw e at hs) in
        let (uploads, drys) = keys-cleared mode latest rows rest in
        ((upload, uploads), λ m. absurd (cc (sym e ∙ (eq_iff mode "dry-run").1 m)))
  ]

  ids-started :
      (run_id mode : String) (targets : List Row) (run : Run) (db : Database)
      → (start_targets reader store run_id mode targets db).0 ≡ ok run
      → ids_of reader store targets ≡ run.certificate_ids
  unfolding start_targets
  ids-started run_id mode targets run db e =
      let e1 = raise_if-next (is_empty reader store targets) _ _ db run e in
      let (_, (_, e2)) =
        continue-ok (clear_previous_statuses reader store mode targets db) _ run e1 in
      let (u, (checked, e3)) =
        continue-ok
          (check_targets reader store mode targets
            (clear_previous_statuses reader store mode targets db).1)
          _ run e2 in
      ap (λ (r : Run). r.certificate_ids) (returned _ run e3)

  module _ (P : Database → Type 0) where
    last_check : (b : Bool) (x : Error) (db : Database) → P db → P (raise_if b x db).1
    last_check true x db h = h
    last_check false x db h = h

    two_checks :
        (b c : Bool) (x y : Error) (db : Database) → P db → P ((raise_if b x >> raise_if c y) db).1
    two_checks true c x y db h = h
    two_checks false c x y db h = last_check c y db h

    check_keeps :
        (mode : String) (targets : List Row) (db : Database)
        → P db
        → P (check_targets reader store mode targets db).1
    unfolding check_targets
    check_keeps mode targets db h =
        two_checks (not (is_empty reader store (select (λ row. not row.extron_ready) targets)))
          (mode == "upload"
            && not (
                is_empty reader store (select (λ row. not (has_dry_run reader store row)) targets)))
          (value_error "Toolbelt upload requires Extron-ready Local CA certificates")
          (value_error "Upload is blocked until dry-run is OK") db h

  start_targets-Gone :
      (run_id mode : String) (targets : List Row) (run : Run) (db : Database)
      → (start_targets reader store run_id mode targets db).0 ≡ ok run
      → All
          (Gone (latest_statuses (start_targets reader store run_id mode targets db).1))
          (keys_of reader store mode targets)
  unfolding start_targets
  start_targets-Gone run_id mode targets run db e =
      elim (Bool-cases (is_empty reader store targets)) [
        | inl none_left ↦ absurd (cc (rw none_left at e))
        | inr some_left ↦
            let Q : Database → Type 0 =
              λ db. All (Gone (latest_statuses db)) (keys_of reader store mode targets) in
            let after = clear_previous_statuses reader store mode targets db in
            rw some_left (
              bind_rule Q after _ (clear_previous-Gone mode targets db) λ _ _ k.
                bind_rule Q (check_targets reader store mode targets after.1) _
                  (check_keeps Q mode targets after.1 k) λ _ _ k. k)
      ]

  started-cleared :
      (run_id mode : String) (targets : List Row) (run : Run) (db : Database)
      → (start_targets reader store run_id mode targets db).0 ≡ ok run
      → let latest = latest_statuses (start_targets reader store run_id mode targets db).1 in
        AllCleared latest "upload" run.certificate_ids
        × (mode ≡ "dry-run" → AllCleared latest "dry-run" run.certificate_ids)
  started-cleared run_id mode targets run db e =
      let latest = latest_statuses (start_targets reader store run_id mode targets db).1 in
      subst
        (λ ids.
          AllCleared latest "upload" ids × (mode ≡ "dry-run" → AllCleared latest "dry-run" ids))
        (ids-started run_id mode targets run db e)
        (keys-cleared mode latest targets (start_targets-Gone run_id mode targets run db e))

  listed-cleared :
      (run_id mode : String) (selectors : Option (List String)) (run : Run) (db : Database)
      (rows : Result (List Row))
      → let m =
          (lift rows >>= λ rows.
          start_targets reader store run_id mode (select (is_selected reader store selectors) rows))
            db in
        m.0 ≡ ok run
        → AllCleared (latest_statuses m.1) "upload" run.certificate_ids
          × (mode ≡ "dry-run" → AllCleared (latest_statuses m.1) "dry-run" run.certificate_ids)
  listed-cleared run_id mode selectors run db (err x) e = absurd cc
  listed-cleared run_id mode selectors run db (ok rows) e =
      started-cleared run_id mode (select (is_selected reader store selectors) rows) run db e

  -- A run that starts has cleared the old results of an upload of every target and its certificate,
  -- and a dry run also those of a dry run: the next upload has to wait for a new dry run.
  pub start-cleared :
      (run_id mode : String) (selectors : Option (List String)) (run : Run) (db : Database)
      → (start reader store run_id mode selectors db).0 ≡ ok run
      → let latest = latest_statuses (start reader store run_id mode selectors db).1 in
        AllCleared latest "upload" run.certificate_ids
        × (mode ≡ "dry-run" → AllCleared latest "dry-run" run.certificate_ids)
  unfolding start
  start-cleared run_id mode selectors run db e =
      elim (Bool-cases (not (mode == "dry-run" || mode == "upload"))) [
        | inl bad ↦ absurd (cc (rw bad at e))
        | inr good ↦ rw good (
            listed-cleared run_id mode selectors run db (list_devices reader store db)
              (rw good at e))
      ]
