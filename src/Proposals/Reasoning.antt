-- ===== src/Proposals/Reasoning.antt =====
-- `LLMReasoner.reason` of Component_3/llm_reasoner.py and the orchestration of
-- Component_3/orchestrator.py. The language model is an argument: the JSON value of its answer, or
-- the error `llm_reasoner` where the client fails or the answer is no JSON, or any other exception of
-- `json.loads`, which nothing catches.
use restaurant_ops_copilot.Prelude.{
  ℕ, zero, suc, String, Option, none, some, List, [], ◌∷◌, Result, ok, err, any, str_eq, not,
  if◌then◌else◌, candidate_validation, llm_reasoner,
}
use restaurant_ops_copilot.Prelude.Fallible.{◌>>=◌}
use restaurant_ops_copilot.Values.{Numbers, Value, arr, obj, Payload, entry}
use restaurant_ops_copilot.Proposals.{
  CandidateAction, Opportunity, action_value, allowed_llm_actions_for, dict_of, list_of,
}
use restaurant_ops_copilot.Proposals.Validator.{
  validate_llm_candidate, validate_candidate_against_opportunity,
}
use restaurant_ops_copilot.Proposals.Merger.{merge_candidates}
use restaurant_ops_copilot.Proposals.Deterministic.{generate_candidate_actions}

-- `MAX_LLM_CANDIDATES`
abbrev pub max_llm_candidates : ℕ
max_llm_candidates = 5

module _ {Num : Type 0} where
  -- `except CandidateValidationError: continue`
  abbrev pub unless_invalid : Result (CandidateAction Num) → Result (Option (CandidateAction Num))
  unless_invalid (ok c) = ok (some c)
  unless_invalid (err candidate_validation) = ok none
  unless_invalid (err e) = err e

  -- `data.get("candidates", [])`
  unfoldable pub raw_candidates : Value Num → Result (List (Value Num))
  raw_candidates (obj fields) = elim (entry "candidates" (dict_of fields)) [
    | none ↦ ok []
    | some v ↦ elim v [ arr items ↦ ok (list_of items) | _ ↦ err llm_reasoner ]
  ]
  raw_candidates _ = err llm_reasoner

  -- `except LLMReasonerError: return deterministic`, else the merge
  unfoldable pub merge_or_fall_back :
      (Payload Num → String)
      → List (CandidateAction Num)
      → Result (List (CandidateAction Num))
      → Result (List (CandidateAction Num))
  merge_or_fall_back freeze rules (ok proposed) = ok (merge_candidates freeze rules proposed)
  merge_or_fall_back freeze rules (err llm_reasoner) = ok rules
  merge_or_fall_back freeze rules (err e) = err e

-- the language model, where one is configured
abbrev pub Reasoner : Type 0 → Type 0
Reasoner Num = Option (Opportunity Num → Result (Value Num))

module _ (N : Numbers) where
  open N use {Num}

  -- the `try` block for one candidate
  unfoldable pub checked_candidate :
      Opportunity Num → List String → Value Num → Result (CandidateAction Num)
  checked_candidate o allowed raw = do
    c ← validate_llm_candidate raw o
    if not (any (str_eq (action_value c.action_type)) allowed) then err candidate_validation else do
      fits ← validate_candidate_against_opportunity N c o
      if fits then ok c else err candidate_validation

  -- the loop, with the number of candidates that may still be accepted
  unfoldable pub collect :
      Opportunity Num → List String → ℕ → List (Value Num) → Result (List (CandidateAction Num))
  collect o allowed zero raws = ok []
  collect o allowed (suc room) [] = ok []
  collect o allowed (suc room) (raw ∷ raws) = do
    checked ← unless_invalid (checked_candidate o allowed raw)
    elim checked [
      | none ↦ collect o allowed (suc room) raws
      | some c ↦ do rest ← collect o allowed room raws; ok (c ∷ rest)
    ]

  -- `LLMReasoner.reason`
  unfoldable pub reason :
      (Opportunity Num → Result (Value Num))
      → Opportunity Num
      → List String
      → Result (List (CandidateAction Num))
  reason generate o [] = ok []
  reason generate o (a ∷ allowed) = do
    answer ← generate o
    raws ← raw_candidates answer
    collect o (a ∷ allowed) max_llm_candidates raws

  -- the language model's part, where it may propose anything for the opportunity
  unfoldable pub with_llm :
      (Payload Num → String)
      → List (CandidateAction Num)
      → (Opportunity Num → Result (Value Num))
      → Opportunity Num
      → List String
      → Result (List (CandidateAction Num))
  with_llm freeze rules generate o [] = ok rules
  with_llm freeze rules generate o (a ∷ allowed) =
      merge_or_fall_back freeze rules (reason generate o (a ∷ allowed))

  -- `reason_about_opportunity`; no reasoner stands for `use_llm=False` as well
  unfoldable pub reason_about_opportunity :
      (Payload Num → String) → Reasoner Num → Opportunity Num → Result (List (CandidateAction Num))
  reason_about_opportunity freeze reasoner o = do
    rules ← generate_candidate_actions N o
    elim reasoner [
      | none ↦ ok rules
      | some generate ↦
          with_llm freeze rules generate o (allowed_llm_actions_for o.opportunity_type)
    ]
