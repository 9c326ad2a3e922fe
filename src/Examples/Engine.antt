-- ===== src/Examples/Engine.antt =====
-- The decision engine, on one decision.
use restaurant_ops_copilot.Prelude.{
  ◌≡◌, ◌≤◌, refl, some, List, [], ◌∷◌, Result, ok, err, find, unavailable, decision_not_found,
  decision_state,
}
use restaurant_ops_copilot.Prelude.Traces.{wins_in}
use restaurant_ops_copilot.Values.{price_change}
use restaurant_ops_copilot.ToolResult.{ActualOutcome}
use restaurant_ops_copilot.Decisions.{
  Decision, is_decision, mark_executed, validate_prediction, execute_and_observe,
}
use restaurant_ops_copilot.Decisions.Lifecycle.{
  Call, propose_call, claim_call, evaluate_call, step, claims, decision_claimed_once,
}
use restaurant_ops_copilot.Decisions.Execution.{
  may_execute, execution_refused, interrupted_execution_strands,
}
use restaurant_ops_copilot.Examples.Data.{
  Fixed, plus, fixed, raise_price, prediction, outcome, waiting,
}

abbrev calls : List (Call fixed)
calls =
    propose_call 5 1 price_change raise_price (ok prediction)
    ∷ claim_call 1 5
    ∷ claim_call 1 5
    ∷ evaluate_call 1 5 outcome (plus 50)
    ∷ []

decision_claimed_once_example : wins_in (step fixed) (claims fixed 1 5) calls [] ≤ 1
decision_claimed_once_example = decision_claimed_once fixed 1 5 calls []

abbrev sample : Decision Fixed
sample = waiting price_change raise_price

abbrev table : List (Decision Fixed)
table = sample ∷ []

abbrev see : Decision Fixed → Result (ActualOutcome Fixed)
see d = ok outcome

abbrev fail_to_see : Decision Fixed → Result (ActualOutcome Fixed)
fail_to_see d = err unavailable

execution_refused_example :
    execute_and_observe fixed 1 9 see table ≡ (err decision_not_found, table)
execution_refused_example = execution_refused fixed 1 9 see table decision_not_found refl

interrupted_execution_strands_example :
    let after = execute_and_observe fixed 1 5 fail_to_see table in
    (after.0 ≡ err unavailable)
    × (find (is_decision 1 5) after.1 ≡ some (mark_executed sample))
    × (execute_and_observe fixed 1 5 see after.1 ≡ (err decision_state, after.1))
unfolding may_execute validate_prediction
interrupted_execution_strands_example =
    interrupted_execution_strands fixed 1 5 fail_to_see see table sample unavailable refl refl refl
