-- ===== src/Uploads.antt =====
-- certmon/upload_queue.py: `UploadQueueService`. The lock makes `finish` one step of its own.
pub mod Runs
use certmon.Prelude.{
  ℕ, String, Bool, true, false, ◌==◌, ◌||◌, Option, none, some, List, [], ◌∷◌, ◌++◌, if◌then◌else◌,
  contains,
}
use Prim.Native.Nat.{Ordering}
use Prim.Native.String.{compare}
use certmon.Outcome.{gets, pure, ◌>>=◌, ◌>>◌}
use certmon.Db.{Setting, switch, names, Value, null, text, Details, Database, Query}
use certmon.Db.Settings.{get_setting, put_setting}
use certmon.Audit.{record_event}

pub record Outcome : Type 0 where
  pub ok : Bool
  pub selector : String
  pub certificate_id : String
  pub status : String
  pub nic : Option String

abbrev pub auto_remove_key : String
auto_remove_key = "upload_auto_remove_successful"

abbrev pub completed_key : String
completed_key = "upload_completed_certificates"

abbrev pub recorded_runs_key : String
recorded_runs_key = "upload_recorded_runs"

-- a list of texts under a key, `[]` by default; the two keys hold nothing else
unfoldable pub listed : Option Setting → List String
listed (some (names xs)) = xs
listed _ = []

unfoldable pub auto_remove : Database → Bool
auto_remove db = elim (get_setting auto_remove_key db) [ some (switch on) ↦ on | _ ↦ false ]

-- `completed()`; a set is a list without duplicates here
unfoldable pub completed : Database → List String
unfolding listed
completed db = listed (get_setting completed_key db)

unfoldable pub recorded_runs : Database → List String
unfolding listed
recorded_runs db = listed (get_setting recorded_runs_key db)

-- `set.add`, in the order that `sorted` gives
unfoldable pub add_sorted : String → List String → List String
add_sorted a [] = a ∷ []
add_sorted a (x ∷ xs) =
    if a == x
    then x ∷ xs
    else elim (compare a x) [ Ordering.gt ↦ x ∷ add_sorted a xs | _ ↦ a ∷ x ∷ xs ]

-- `sorted(set(xs) | {item["certificate_id"] for item in outcomes if item["ok"]})`
unfoldable pub sorted_set : List String → List String
unfolding add_sorted
sorted_set [] = []
sorted_set (x ∷ xs) = add_sorted x (sorted_set xs)

unfoldable pub successful : List Outcome → List String
successful [] = []
successful (o ∷ os) = let rest = successful os in if o.ok then o.certificate_id ∷ rest else rest

abbrev pub optional_text : Option String → Value
optional_text none = null
optional_text (some t) = text t

abbrev pub outcome_details : String → String → Outcome → Details
outcome_details method run_id o =
    ("method", text method)
    ∷ ("run_id", text run_id)
    ∷ ("certificate_id", text o.certificate_id)
    ∷ ("result", text o.status)
    ∷ ("nic", optional_text o.nic)
    ∷ []

module _ (now : ℕ) (method run_id : String) where
  -- the loop: one audit event for each outcome
  unfoldable pub record_outcomes : List Outcome → Query Unit
  record_outcomes [] = pure tt
  record_outcomes (o ∷ os) =
      record_event now
        (if o.ok then "certificate_upload_succeeded" else "certificate_upload_failed") none none
        (some o.selector) o.ok (outcome_details method run_id o)
      >> record_outcomes os

  unfoldable pub hide_successful : Bool → List Outcome → Query Unit
  unfolding successful sorted_set completed
  hide_successful false outcomes = pure tt
  hide_successful true outcomes = do
    known ← gets completed
    put_setting completed_key (names (sorted_set (known ++ successful outcomes)))

  -- the part of `finish` below its early return
  unfoldable pub record_run : List Outcome → Bool → List String → Query Unit
  unfolding record_outcomes hide_successful
  record_run outcomes remove_successful recorded = do
    record_outcomes outcomes
    hide_successful remove_successful outcomes
    put_setting recorded_runs_key (names (recorded ++ run_id ∷ []))

  -- the early return
  unfoldable pub record_new : List Outcome → Bool → List String → Query Unit
  unfolding record_run
  record_new outcomes remove_successful recorded =
      if contains run_id recorded then pure tt else record_run outcomes remove_successful recorded

  unfoldable pub finish : List Outcome → Bool → Query Unit
  unfolding record_new
  finish outcomes remove_successful = gets recorded_runs >>= record_new outcomes remove_successful
