-- ===== src/Models/Graph.antt =====
-- The graph of the allowed transitions has no cycle, and every job can still be finished.
use certmon.Prelude.{ℕ, ◌+◌, ◌≤◌, ◌<◌, Bool, true, false, ◌≡◌, refl, List, [], ◌∷◌, arith, length}
use certmon.Outcome.{ok, err, invalid_transition}
use certmon.Models.{
  RenewalState, draft, awaiting_dns, validating, issuing, awaiting_external_ca, issued,
  deployment_pending, deployed, cleanup_required, cancelled, failed, validate_transition,
}

-- how far a state is along the longest way through the graph
abbrev pub rank : RenewalState → ℕ
rank draft = 0
rank awaiting_dns = 1
rank validating = 2
rank issuing = 3
rank awaiting_external_ca = 4
rank cleanup_required = 4
rank issued = 5
rank deployment_pending = 6
rank deployed = 7
rank cancelled = 7
rank failed = 7

transition_climbs : (s t : RenewalState) → validate_transition s t ≡ ok tt → rank s < rank t
unfolding validate_transition
transition_climbs draft t h = ground arith
transition_climbs s t h = ground arith

-- every state of the list is reached from the one before it by an allowed transition
unfoldable pub Follows : RenewalState → List RenewalState → Type 0
Follows s [] = Unit
Follows s (t ∷ ts) = (validate_transition s t ≡ ok tt) × Follows t ts

-- A job makes at most seven transitions, however it is driven, and at most `7 - rank` from any
-- state.
pub Follows-bounded :
    (s : RenewalState) (ts : List RenewalState) → Follows s ts → rank s + length ts ≤ 7
unfolding Follows
Follows-bounded draft [] h = omega arith
Follows-bounded s [] h = ground arith
Follows-bounded s (t ∷ ts) h = omega (arith, transition_climbs s t h.0, Follows-bounded t ts h.1)

abbrev pub is_terminal : RenewalState → Bool
is_terminal deployed = true
is_terminal cancelled = true
is_terminal failed = true
is_terminal _ = false

-- A job that is deployed, cancelled or failed can make no transition at all.
pub validate-terminal :
    (s t : RenewalState) → is_terminal s ≡ true → validate_transition s t ≡ err invalid_transition
unfolding validate_transition
validate-terminal draft t h = cc
validate-terminal _ t h = ground arith

-- the first transition on a way to `deployed`, or to `cancelled` where there is none
abbrev pub way_out : RenewalState → List RenewalState
way_out draft = issued ∷ deployment_pending ∷ deployed ∷ []
way_out awaiting_dns = validating ∷ issuing ∷ issued ∷ deployment_pending ∷ deployed ∷ []
way_out validating = issuing ∷ issued ∷ deployment_pending ∷ deployed ∷ []
way_out issuing = issued ∷ deployment_pending ∷ deployed ∷ []
way_out awaiting_external_ca = issued ∷ deployment_pending ∷ deployed ∷ []
way_out issued = deployment_pending ∷ deployed ∷ []
way_out deployment_pending = deployed ∷ []
way_out cleanup_required = issued ∷ deployment_pending ∷ deployed ∷ []
way_out _ = []

abbrev pub last : RenewalState → List RenewalState → RenewalState
last s [] = s
last s (t ∷ ts) = last t ts

-- From every state that is not terminal the allowed transitions lead to `deployed`.
pub Follows-way_out :
    (s : RenewalState)
    → is_terminal s ≡ false
    → Follows s (way_out s) × (last s (way_out s) ≡ deployed)
unfolding Follows validate_transition
Follows-way_out draft h = ((refl, (refl, (refl, tt))), refl)
Follows-way_out _ h = ground arith
