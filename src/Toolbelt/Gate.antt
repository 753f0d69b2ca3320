-- ===== src/Toolbelt/Gate.antt =====
-- The start of an upload (certmon/toolbelt.py).
use mathlib.Core.List.{reverse}
use mathlib.Core.Path.{subst}
use certmon.Prelude.{String, not, ◌≡◌, ◌==◌, ◌||◌, Option, List, [], All, select, order_by}
use certmon.Outcome.{Result, ok, err}
use certmon.Outcome.Rules.{returned, continue-ok, raise_if-next}
use certmon.Db.{Database}
use certmon.Db.Certificates.{list_certificates}
use certmon.Uploads.{completed}
use certmon.Artifacts.{Store}
use certmon.Toolbelt.{
  Reader, Row, Run, latest_statuses, row_before, list_devices, is_selected, is_empty,
  clear_previous_statuses, check_targets, start_targets, start,
}
use certmon.Toolbelt.Blocked.{
  AllTrue, IsTrue, Starts, All-select, All-order_by, rows_of-AllTrue, check_targets-ok,
}

module _ (reader : Reader) (store : Store) (db : Database) where
  abbrev Holds : Row → Type 0
  Holds = IsTrue reader store (latest_statuses db)

  ordered-AllTrue :
      (rows : Result (List Row))
      → AllTrue reader store (latest_statuses db) rows
      → AllTrue reader store
          (latest_statuses db)
          (elim rows [ err e ↦ err e | ok rows ↦ ok (order_by (row_before reader store) rows) ])
  unfolding AllTrue
  ordered-AllTrue (err e) h = tt
  ordered-AllTrue (ok rows) h = All-order_by Holds (row_before reader store) rows h

  list_devices-AllTrue : AllTrue reader store (latest_statuses db) (list_devices reader store db)
  unfolding list_devices
  list_devices-AllTrue = ordered-AllTrue _ (
      rows_of-AllTrue reader store (latest_statuses db) (completed db)
        (reverse (list_certificates db)) [])

  listed_rows : (rows : List Row) → list_devices reader store db ≡ ok rows → All Holds rows
  unfolding AllTrue
  listed_rows rows e = subst (AllTrue reader store (latest_statuses db)) e list_devices-AllTrue

  start_targets-ok :
      (run_id mode : String) (targets : List Row) (run : Run)
      → All Holds targets
      → (start_targets reader store run_id mode targets db).0 ≡ ok run
      → Starts reader store (latest_statuses db) mode run
  unfolding start_targets
  start_targets-ok run_id mode targets run hs e =
      let e1 = raise_if-next (is_empty reader store targets) _ _ db run e in
      let (_, (_, e2)) =
        continue-ok (clear_previous_statuses reader store mode targets db) _ run e1 in
      let (u, (checked, e3)) =
        continue-ok
          (check_targets reader store mode targets
            (clear_previous_statuses reader store mode targets db).1)
          _ run e2 in
      subst (Starts reader store (latest_statuses db) mode) (returned _ run e3)
        (check_targets-ok reader store (latest_statuses db) mode targets _ u hs checked)

  -- A run that starts, whatever devices are asked for: the artifact store has the certificate of every
  -- target, and a run that uploads has, for each target and this very certificate, a stored result of
  -- a dry run that went well.
  pub start-ok :
      (run_id mode : String) (selectors : Option (List String)) (run : Run)
      → (start reader store run_id mode selectors db).0 ≡ ok run
      → Starts reader store (latest_statuses db) mode run
  unfolding start
  start-ok run_id mode selectors run e =
      let e1 = raise_if-next (not (mode == "dry-run" || mode == "upload")) _ _ db run e in
      let (rows, (found, e2)) = continue-ok (list_devices reader store db, db) _ run e1 in
      start_targets-ok run_id mode (select (is_selected reader store selectors) rows) run
        (All-select Holds (is_selected reader store selectors) rows (listed_rows rows found)) e2
