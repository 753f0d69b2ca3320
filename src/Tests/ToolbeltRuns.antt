-- ===== src/Tests/ToolbeltRuns.antt =====
-- An upload that may start, after a dry run that went well.
use certmon.Prelude.{String, ◌≡◌, refl, true, false, none, some, Option, List, [], ◌∷◌}
use certmon.Outcome.{ok}
use certmon.Db.{Certificate, Database, UploadStatus, upload_statuses, text, texts, empty}
use certmon.Artifacts.{Store}
use certmon.Toolbelt.{Reader, Run, latest_statuses, start}
use certmon.Toolbelt.Blocked.{Starts}
use certmon.Toolbelt.Gate.{start-ok}
use certmon.Toolbelt.Cleared.{AllCleared, start-cleared}
use certmon.Tests.OrderRuns.{open_vault}

abbrev reader : Reader
reader = record {
  Blob = String;
  vault = open_vault;
  address_of = λ value. some value;
  lower_text = λ value. value;
}

abbrev leaf : Certificate
leaf = record {
  id = "c1";
  metadata =
      ("kind", text "leaf")
      ∷ ("issuer_type", text "local_ca")
      ∷ ("profile", text "extron-rsa")
      ∷ ("identifiers", texts ("10.0.0.7" ∷ []))
      ∷ [];
  created_at = 1;
}

abbrev went_well : UploadStatus
went_well = record {
  event = some "dry_run_ok";
  ok = true;
  message = none;
  time = 2;
  run_id = "r0";
  mode = "dry-run";
}

abbrev tested : Database
tested = record empty {
  certificates = leaf ∷ [];
  settings =
      ("toolbelt_latest_status", upload_statuses (("10.0.0.7|c1|dry-run", went_well) ∷ [])) ∷ [];
}

abbrev files : Store
files = record { id = "c1"; files = [] } ∷ []

abbrev run : Run
run = record {
  id = "r1";
  mode = "upload";
  certificate_ids = ("10.0.0.7", "c1") ∷ [];
  remove_successful = false;
}

starts : (start reader files "r1" "upload" none tested).0 ≡ ok run
unfolding start certmon.Db.Certificates.list_certificates certmon.Renewals.text_at
    certmon.Uploads.completed certmon.Db.Settings.get_setting certmon.Db.Settings.lookup
    certmon.Artifacts.has_certificate certmon.Prelude.select certmon.Prelude.find
    certmon.Uploads.auto_remove
starts = refl

start-ok_example : Starts reader files (latest_statuses tested) "upload" run
start-ok_example = start-ok reader files tested "r1" "upload" none run starts

abbrev trial : Run
trial = record run { mode = "dry-run" }

tries : (start reader files "r1" "dry-run" none tested).0 ≡ ok trial
unfolding start certmon.Db.Certificates.list_certificates certmon.Renewals.text_at
    certmon.Uploads.completed certmon.Db.Settings.get_setting certmon.Db.Settings.lookup
    certmon.Artifacts.has_certificate certmon.Prelude.select certmon.Db.Settings.put_setting
    certmon.Prelude.find certmon.Uploads.auto_remove
tries = refl

start-cleared_example :
    let latest = latest_statuses (start reader files "r1" "dry-run" none tested).1 in
    AllCleared reader files latest "upload" trial.certificate_ids
    × (trial.mode ≡ "dry-run" → AllCleared reader files latest "dry-run" trial.certificate_ids)
start-cleared_example = start-cleared reader files "r1" "dry-run" none trial tested tries
