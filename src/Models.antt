-- ===== src/Models.antt =====
-- certmon/models.py: the states of a renewal job and the transitions that are allowed.
pub mod Graph
use certmon.Prelude.{Bool, false, List, [], ◌∷◌, ℕ, ◌||◌, eqb, if◌then◌else◌}
use certmon.Outcome.{Result, ok, err, invalid_transition}

pub data RenewalState : Type 0 where
  draft awaiting_dns validating issuing awaiting_external_ca issued : RenewalState
  deployment_pending deployed cleanup_required cancelled failed : RenewalState

abbrev pub index : RenewalState → ℕ
index draft = 0
index awaiting_dns = 1
index validating = 2
index issuing = 3
index awaiting_external_ca = 4
index issued = 5
index deployment_pending = 6
index deployed = 7
index cleanup_required = 8
index cancelled = 9
index failed = 10

-- `==` on states
abbrev pub same_state : RenewalState → RenewalState → Bool
same_state a b = eqb (index a) (index b)

-- `state in {…}`
abbrev pub state_in : RenewalState → List RenewalState → Bool
state_in s [] = false
state_in s (t ∷ ts) = same_state s t || state_in s ts

-- `ALLOWED_TRANSITIONS`
unfoldable pub allowed_transitions : RenewalState → List RenewalState
allowed_transitions draft =
    awaiting_dns ∷ awaiting_external_ca ∷ issuing ∷ issued ∷ cancelled ∷ failed ∷ []
allowed_transitions awaiting_dns = validating ∷ cancelled ∷ cleanup_required ∷ failed ∷ []
allowed_transitions validating = issuing ∷ cleanup_required ∷ failed ∷ []
allowed_transitions issuing = issued ∷ cleanup_required ∷ failed ∷ []
allowed_transitions awaiting_external_ca = issued ∷ cancelled ∷ failed ∷ []
allowed_transitions issued = deployment_pending ∷ failed ∷ []
allowed_transitions deployment_pending = deployed ∷ failed ∷ []
allowed_transitions cleanup_required = issued ∷ cancelled ∷ failed ∷ []
allowed_transitions deployed = []
allowed_transitions cancelled = []
allowed_transitions failed = []

unfoldable pub validate_transition : RenewalState → RenewalState → Result Unit
unfolding allowed_transitions
validate_transition current target =
    if state_in target (allowed_transitions current) then ok tt else err invalid_transition
