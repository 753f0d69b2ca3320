-- ===== src/Toolbelt.antt =====
-- certmon/toolbelt.py: the devices of `ToolbeltBatchService` and the start of a run. `address_of`
-- stands for `str(ip_address(…))`, `lower_text` for `str.lower`. The thread that a run starts is not
-- modelled. The lock makes a start one step.
pub mod Blocked
pub mod Gate
pub mod Cleared
use Prim.Native.Nat.{Ordering}
use Prim.Native.String
use Prim.Native.String.{compare}
use mathlib.Core.List.{reverse}
use certmon.Prelude.{
  ℕ, String, Bool, true, false, not, ◌==◌, ◌&&◌, ◌||◌, Option, none, some, List, [], ◌∷◌,
  if◌then◌else◌, is_none, contains, select, order_by, strip, rstrip_dots, same_option,
}
use certmon.Outcome.{Result, ok, err, value_error, pure, raise_if, lift, gets, ◌>>=◌, ◌>>◌}
use certmon.Db.{
  Certificate, Setting, upload_statuses, UploadStatus, Value, text, texts, Details, Database, Query,
}
use certmon.Db.Settings.{get_setting, put_setting}
use certmon.Db.Certificates.{list_certificates}
use certmon.Artifacts.{Vault, Store, has_certificate}
use certmon.Renewals.{text_at}
use certmon.Uploads.{completed, auto_remove}

pub record Reader : Type 1 where
  pub Blob : Type 0
  pub vault : Vault Blob
  pub address_of : String → Option String
  pub lower_text : String → String

-- the fields of a device that `start` reads, and the two that the list is ordered by
pub record Row : Type 0 where
  pub selector : String
  pub certificate_id : String
  pub label : String
  pub extron_ready : Bool
  pub dry_run : Option UploadStatus
  pub upload : Option UploadStatus

-- `ToolbeltRun`, as it starts
pub record Run : Type 0 where
  pub id : String
  pub mode : String
  pub certificate_ids : List (String × String)
  pub remove_successful : Bool

abbrev pub Statuses : Type 0
Statuses = List (String × UploadStatus)

abbrev pub status_setting : String
status_setting = "toolbelt_latest_status"

-- the value under the key of the statuses, `{}` by default
abbrev pub statuses_of : Option Setting → Statuses
statuses_of (some (upload_statuses latest)) = latest
statuses_of _ = []

abbrev pub latest_statuses : Database → Statuses
latest_statuses db = statuses_of (get_setting status_setting db)

unfoldable pub status_at : String → Statuses → Option UploadStatus
status_at k [] = none
status_at k ((j, s) ∷ latest) = if j == k then some s else status_at k latest

-- `latest.pop(key, None)`
unfoldable pub without_status : String → Statuses → Statuses
without_status k [] = []
without_status k ((j, s) ∷ latest) =
    let rest = without_status k latest in if j == k then rest else (j, s) ∷ rest

-- `_status_key`
abbrev pub status_key : String → String → String → String
status_key selector certificate_id mode =
    String.◌++◌ selector (String.◌++◌ "|" (String.◌++◌ certificate_id (String.◌++◌ "|" mode)))

-- `metadata.get("identifiers") or []`
unfoldable pub identifiers_of : Details → List String
identifiers_of [] = []
identifiers_of ((k, texts ts) ∷ d) = if k == "identifiers" then ts else identifiers_of d
identifiers_of ((k, v) ∷ d) = if k == "identifiers" then [] else identifiers_of d

module _ (reader : Reader) (store : Store) where
  unfoldable pub first_address : List String → Option String
  first_address [] = none
  first_address (t ∷ ts) =
      let rest = first_address ts in elim (reader.address_of t) [ none ↦ rest | some a ↦ some a ]

  abbrev named : String → List String → String
  named id [] = id
  named id (t ∷ ts) = rstrip_dots (reader.lower_text (strip t))

  -- `_selector`
  unfoldable pub selector_of : Certificate → String
  unfolding first_address identifiers_of
  selector_of cert = elim (first_address (identifiers_of cert.metadata)) [
    | none ↦ named cert.id (identifiers_of cert.metadata)
    | some a ↦ a
  ]

  abbrev is_extron : Certificate → Bool
  is_extron cert = same_option (text_at "profile" cert.metadata) (some "extron-rsa")

  unfoldable pub is_ready : Certificate → Result Bool
  is_ready cert = if is_extron cert then has_certificate reader.vault cert.id store else ok false

  -- `cert.get("device_name") or selector`
  abbrev label_of : Option String → String → String
  label_of none selector = selector
  label_of (some name) selector = if name == "" then selector else name

  abbrev row_of : Statuses → Certificate → String → Bool → Row
  row_of latest cert selector ready = record {
    selector = selector;
    certificate_id = cert.id;
    label = label_of (text_at "device_name" cert.metadata) selector;
    extron_ready = ready;
    dry_run = status_at (status_key selector cert.id "dry-run") latest;
    upload = status_at (status_key selector cert.id "upload") latest;
  }

  -- a leaf of the local CA
  abbrev is_local_leaf : Certificate → Bool
  is_local_leaf cert =
      same_option (text_at "kind" cert.metadata) (some "leaf")
      && same_option (text_at "issuer_type" cert.metadata) (some "local_ca")

  -- the certificate is the first one of its selector
  unfoldable pub is_new : Certificate → List String → Bool
  unfolding selector_of
  is_new cert seen =
      is_local_leaf cert && not (selector_of cert == "" || contains (selector_of cert) seen)

  unfoldable pub listed_row :
      Statuses → List String → List String → Certificate → Result (Option Row)
  unfolding is_new is_ready
  listed_row latest done seen cert =
      if is_new cert seen && not (contains cert.id done)
      then elim (is_ready cert) [
        | err e ↦ err e
        | ok ready ↦ ok (some (row_of latest cert (selector_of cert) ready))
      ]
      else ok none

  abbrev pub add_row : Result (Option Row) → Result (List Row) → Result (List Row)
  add_row (err e) rest = err e
  add_row (ok none) rest = rest
  add_row (ok (some row)) (err e) = err e
  add_row (ok (some row)) (ok rows) = ok (row ∷ rows)

  -- the loop of `list_devices`, over the certificates from the newest
  unfoldable pub rows_of :
      Statuses → List String → List Certificate → List String → Result (List Row)
  unfolding listed_row
  rows_of latest done [] seen = ok []
  rows_of latest done (cert ∷ certs) seen =
      add_row (listed_row latest done seen cert)
        (rows_of latest done certs (if is_new cert seen then selector_of cert ∷ seen else seen))

  -- `(label, selector)`
  unfoldable pub row_before : Row → Row → Bool
  row_before a b = elim (compare a.label b.label) [
    | Ordering.lt ↦ true
    | Ordering.gt ↦ false
    | Ordering.eq ↦ elim (compare a.selector b.selector) [ Ordering.gt ↦ false | _ ↦ true ]
  ]

  unfoldable pub list_devices : Database → Result (List Row)
  unfolding rows_of row_before order_by
  list_devices db =
      elim (rows_of (latest_statuses db) (completed db) (reverse (list_certificates db)) []) [
        | err e ↦ err e
        | ok rows ↦ ok (order_by row_before rows)
      ]

  abbrev pub is_selected : Option (List String) → Row → Bool
  is_selected none row = true
  is_selected (some selectors) row = contains row.selector selectors

  unfoldable pub keys_of : String → List Row → List String
  keys_of mode [] = []
  keys_of mode (row ∷ rows) =
      let key = status_key row.selector row.certificate_id in
      let rest = keys_of mode rows in
      if mode == "dry-run" then key "dry-run" ∷ key "upload" ∷ rest else key "upload" ∷ rest

  unfoldable pub clear_keys : List String → Statuses → Bool → Statuses × Bool
  unfolding status_at without_status
  clear_keys [] latest changed = (latest, changed)
  clear_keys (k ∷ ks) latest changed =
      clear_keys ks (without_status k latest) (changed || not (is_none (status_at k latest)))

  keep_cleared : Statuses × Bool → Query Unit
  keep_cleared (latest, true) = put_setting status_setting (upload_statuses latest)
  keep_cleared (latest, false) = pure tt

  -- `_clear_previous_statuses`
  unfoldable pub clear_previous_statuses : String → List Row → Query Unit
  unfolding keys_of clear_keys keep_cleared
  clear_previous_statuses mode targets =
      gets (λ db. clear_keys (keys_of mode targets) (latest_statuses db) false) >>= keep_cleared

  abbrev pub is_empty : List Row → Bool
  is_empty [] = true
  is_empty (r ∷ rs) = false

  abbrev pub has_dry_run : Row → Bool
  has_dry_run row = elim row.dry_run [ none ↦ false | some s ↦ s.ok ]

  abbrev pub ids_of : List Row → List (String × String)
  ids_of [] = []
  ids_of (row ∷ rows) = (row.selector, row.certificate_id) ∷ ids_of rows

  -- the checks of the targets, after the old statuses are cleared
  unfoldable pub check_targets : String → List Row → Query Unit
  check_targets mode targets = do
    raise_if (not (is_empty (select (λ row. not row.extron_ready) targets)))
        (value_error "Toolbelt upload requires Extron-ready Local CA certificates")
    raise_if (mode == "upload" && not (is_empty (select (λ row. not (has_dry_run row)) targets)))
        (value_error "Upload is blocked until dry-run is OK")

  unfoldable pub start_targets : String → String → List Row → Query Run
  unfolding clear_previous_statuses check_targets
  start_targets run_id mode targets = do
    raise_if (is_empty targets) (value_error "No Toolbelt devices selected")
    clear_previous_statuses mode targets
    check_targets mode targets
    remove ← gets auto_remove
    pure (record {
      id = run_id;
      mode = mode;
      certificate_ids = ids_of targets;
      remove_successful = remove;
    })

  -- `start`
  unfoldable pub start : String → String → Option (List String) → Query Run
  unfolding list_devices start_targets
  start run_id mode selectors = do
    raise_if (not (mode == "dry-run" || mode == "upload"))
        (value_error "mode must be dry-run or upload")
    rows ← gets list_devices
    rows ← lift rows
    start_targets run_id mode (select (is_selected selectors) rows)
