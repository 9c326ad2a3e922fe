-- ===== src/Examples/Framework.antt =====
-- The tool framework, on one price change of one dish.
use restaurant_ops_copilot.Prelude.{
  ◌≡◌, refl, true, none, some, [], ◌∷◌, Result, ok, err, find, key_error, tool_busy, decision_state,
}
use restaurant_ops_copilot.Values.{Value, entry, Payload, price_change}
use restaurant_ops_copilot.Decisions.{
  Decision, is_decision, mark_evaluated, validate_prediction, calibration_error, claim_decision,
  persist_evaluation, propose_and_simulate, execute_and_observe,
}
use restaurant_ops_copilot.Decisions.Execution.{may_execute}
use restaurant_ops_copilot.Policy.Numeric.{Reason, small_change, is_valid_numeric}
use restaurant_ops_copilot.Policy.Critic.{critique}
use restaurant_ops_copilot.Policy.Risk.{classify_risk}
use restaurant_ops_copilot.EventStore.Append.{append_event, head_hash, tenant_events}
use restaurant_ops_copilot.EventStore.Handlers.{apply_to_current_state}
use restaurant_ops_copilot.EventStore.Handlers.Menu.{apply_menu_price_change}
use restaurant_ops_copilot.Text.{is_blank, text_length}
use restaurant_ops_copilot.Approval.{ApprovalRequest, approved, get_request}
use restaurant_ops_copilot.Idempotency.{claim, invalid_key}
use restaurant_ops_copilot.ToolResult.{ToolResult}
use restaurant_ops_copilot.Tools.{Store, Surroundings, write_log}
use restaurant_ops_copilot.Tools.Apply.{state_change_event}
use restaurant_ops_copilot.Tools.Resolve.{current_value_for_critic}
use restaurant_ops_copilot.Tools.Calls.{
  apply_state_change, execute_now, under_lock, serialized, busy, gate, propose_and_gate,
  is_menu_add, execute_tool_call, execute_decision, execute_approved_tool_call,
  execute_tool_call_idempotent,
}
use restaurant_ops_copilot.Tools.Gates.{unexecuted_keeps_world}
use restaurant_ops_copilot.EventStore.Append.Repriced.{Repriced}
use restaurant_ops_copilot.Tools.Repricing.{executed_reprices}
use restaurant_ops_copilot.Tools.Executed.{Cleared, executed_through_gates}
use restaurant_ops_copilot.Tools.Approved.{Granted, failed_apply_strands, approved_executes_once}
use restaurant_ops_copilot.Tools.Retry.{settled_answer, retry_never_reexecutes}
use restaurant_ops_copilot.Examples.Data.{
  Fixed, plus, fixed, copying, menu, raise_price, outcome, shop, calm, waiting, same_print,
}

abbrev crowded : Surroundings Fixed
crowded = record calm { lock = some tool_busy }

unexecuted_keeps_world_example :
    (execute_tool_call fixed copying crowded 1 price_change raise_price shop).1.world ≡ menu
unfolding execute_tool_call is_menu_add propose_and_gate gate serialized busy propose_and_simulate
    validate_prediction write_log
unexecuted_keeps_world_example =
    unexecuted_keeps_world fixed copying crowded 1 price_change raise_price shop refl

abbrev sold : Result (ToolResult Fixed) × Store Fixed
sold = execute_tool_call fixed copying calm 1 price_change raise_price shop

executed_through_gates_example :
    Cleared fixed copying calm 1 price_change raise_price shop sold.1.world
unfolding execute_tool_call is_menu_add propose_and_gate gate serialized under_lock execute_now
    propose_and_simulate validate_prediction write_log current_value_for_critic critique
    classify_risk is_valid_numeric execute_and_observe claim_decision calibration_error
    persist_evaluation apply_state_change state_change_event append_event apply_to_current_state
    apply_menu_price_change is_blank tenant_events head_hash
executed_through_gates_example =
    executed_through_gates fixed copying calm 1 price_change raise_price shop refl

executed_reprices_example :
    (item : Value Fixed) × (price : Value Fixed) × (entry "menu_item_id" raise_price ≡ some item)
    × (entry "new_price" raise_price ≡ some price)
    × Repriced fixed 1 item price menu.menu_items sold.1.world.menu_items
unfolding execute_tool_call is_menu_add propose_and_gate gate serialized under_lock execute_now
    propose_and_simulate validate_prediction write_log current_value_for_critic critique
    classify_risk is_valid_numeric execute_and_observe claim_decision calibration_error
    persist_evaluation apply_state_change state_change_event append_event apply_to_current_state
    apply_menu_price_change is_blank tenant_events head_hash
executed_reprices_example =
    executed_reprices fixed copying calm 1 price_change raise_price shop refl

abbrev pub approval : ApprovalRequest (Reason Fixed)
approval = record {
  id = 6;
  tenant_id = 1;
  decision_id = 5;
  reason = small_change (plus 500);
  status = approved;
  reviewer_id = some "kim";
  override_reason = none;
  resolved_at = some 90;
}

-- an approved price change, with a given payload
abbrev pub approved_shop : Payload Fixed → Store Fixed
approved_shop p = record shop { decisions = waiting price_change p ∷ []; approvals = approval ∷ [] }

abbrev granted :
    (p : Payload Fixed) → Granted fixed copying 1 6 (waiting price_change p) (approved_shop p)
granted p = record {
  approval = approval;
  approval_is = refl;
  is_granted = refl;
  decision_is = refl;
}

failed_apply_strands_example :
    let after = execute_approved_tool_call fixed copying calm 1 6 (approved_shop []) in
    (after.0 ≡ err key_error)
    × (after.1.world ≡ menu)
    × (after.1.log ≡ [])
    × (find (is_decision 1 5) after.1.decisions
        ≡ some (mark_evaluated outcome (plus 50) (waiting price_change [])))
    × (execute_approved_tool_call fixed copying calm 1 6 after.1 ≡ (err decision_state, after.1))
unfolding may_execute validate_prediction calibration_error apply_state_change state_change_event
failed_apply_strands_example =
    failed_apply_strands fixed copying calm calm 1 6 (waiting price_change []) (approved_shop [])
      outcome (plus 50) key_error (granted []) refl refl refl refl refl refl

abbrev carried_out : Result (ToolResult Fixed) × Store Fixed
carried_out = execute_approved_tool_call fixed copying calm 1 6 (approved_shop raise_price)

approved_executes_once_example :
    (true ≡ true)
    × ((d : Decision Fixed) × Granted fixed copying 1 6 d (approved_shop raise_price)
        × (may_execute fixed d ≡ ok tt))
    × (execute_approved_tool_call fixed copying calm 1 6 carried_out.1
        ≡ (err decision_state, carried_out.1))
unfolding execute_approved_tool_call get_request execute_decision execute_and_observe claim_decision
    calibration_error persist_evaluation apply_state_change state_change_event append_event
    apply_to_current_state apply_menu_price_change is_blank tenant_events head_hash write_log
    validate_prediction
approved_executes_once_example =
    approved_executes_once fixed copying calm calm 1 6 (approved_shop raise_price) _ refl refl

retry_never_reexecutes_example :
    let first =
      execute_tool_call_idempotent fixed copying same_print calm 1 "k" price_change raise_price
        shop in
    let second =
      execute_tool_call_idempotent fixed copying same_print crowded 1 "k" price_change raise_price
        first.1 in
    (second.0 ≡ ok (settled_answer fixed copying first.0))
    × (second.1.world ≡ first.1.world)
    × (second.1.decisions ≡ first.1.decisions)
    × (second.1.approvals ≡ first.1.approvals)
    × (second.1.log ≡ first.1.log)
unfolding claim invalid_key is_blank text_length
retry_never_reexecutes_example =
    retry_never_reexecutes fixed copying same_print calm crowded 1 "k" price_change raise_price shop
      refl
