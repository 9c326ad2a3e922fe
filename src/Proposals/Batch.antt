-- ===== src/Proposals/Batch.antt =====
-- `reason_about_opportunities` of Component_3/orchestrator.py: a dict by opportunity id.
use restaurant_ops_copilot.Prelude.{
  ℕ, String, Bool, false, Option, none, some, List, [], ◌∷◌, Result, err, ok, str_eq, ◌==◌, not,
  if◌then◌else◌, value_error,
}
use restaurant_ops_copilot.Prelude.Fallible.{◌>>=◌}
use restaurant_ops_copilot.Values.{Numbers, Payload}
use restaurant_ops_copilot.Proposals.{CandidateAction, Opportunity}
use restaurant_ops_copilot.Proposals.Reasoning.{Reasoner, reason_about_opportunity}

-- the candidates by opportunity
abbrev pub Batch : Type 0 → Type 0
Batch Num = List (String × List (CandidateAction Num))

module _ {Num : Type 0} where
  -- `result[k] = v`
  unfoldable pub assign : String → List (CandidateAction Num) → Batch Num → Batch Num
  assign k v [] = (k, v) ∷ []
  assign k v ((j, u) ∷ b) = if str_eq j k then (k, v) ∷ b else (j, u) ∷ assign k v b

  -- `proposals.get(k, [])`
  unfoldable pub proposals_for : String → Batch Num → List (CandidateAction Num)
  proposals_for k [] = []
  proposals_for k ((j, u) ∷ b) = if str_eq j k then u else proposals_for k b

-- whether a tenant differs from the batch's
abbrev pub mixes : Option ℕ → ℕ → Bool
mixes none t = false
mixes (some u) t = not (t == u)

module _ (N : Numbers) (freeze : Payload N.Num → String) (reasoner : Reasoner N.Num) where
  open N use {Num}

  -- the loop, with the batch's tenant and its dict so far
  unfoldable pub reason_from : Option ℕ → Batch Num → List (Opportunity Num) → Result (Batch Num)
  reason_from tenant b [] = ok b
  reason_from tenant b (o ∷ os) = if mixes tenant o.tenant_id then err value_error else do
    cs ← reason_about_opportunity N freeze reasoner o
    reason_from (some o.tenant_id) (assign o.id cs b) os

  -- `reason_about_opportunities`
  unfoldable pub reason_about_opportunities : List (Opportunity Num) → Result (Batch Num)
  reason_about_opportunities os = reason_from none [] os
