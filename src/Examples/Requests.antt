-- ===== src/Examples/Requests.antt =====
-- Work requests, with one request of one restaurant.
use restaurant_ops_copilot.Prelude.{
  ◌≡◌, refl, true, false, none, some, [], ◌∷◌, ok, err, find, unavailable, tool_busy,
}
use restaurant_ops_copilot.Values.{price_change}
use restaurant_ops_copilot.Text.{is_blank, text_length}
use restaurant_ops_copilot.Idempotency.{invalid_key, claim, complete, fail}
use restaurant_ops_copilot.Decisions.{propose_and_simulate, validate_prediction}
use restaurant_ops_copilot.Tools.{Surroundings, write_log}
use restaurant_ops_copilot.Tools.Calls.{
  gate, serialized, busy, answer_of, attempt, is_menu_add, propose_and_gate, execute_tool_call,
  execute_tool_call_idempotent,
}
use restaurant_ops_copilot.Work.{
  pending, WorkRequest, Office, parse_action_type, has_request, has_work_key,
}
use restaurant_ops_copilot.Work.Submit.{unknown_action_type, new_work_request, submit_action}
use restaurant_ops_copilot.Work.Publishing.{unpublished_never_queued, resubmission_adds_nothing}
use restaurant_ops_copilot.Work.Process.{violates_synthetic_guard, start, process_message}
use restaurant_ops_copilot.ToolResult.{concurrent_change_in_progress, json_safe}
use restaurant_ops_copilot.Work.Outcome.{recorded, outcome_is_recorded}
use restaurant_ops_copilot.Prelude.Traces.{run_all}
use restaurant_ops_copilot.Work.Delivery.{
  Delivery, deliver, request_started_once, transient_failure_is_dropped,
}
use restaurant_ops_copilot.Examples.Data.{
  Fixed, fixed, copying, raise_price, shop, calm, same_print,
}

abbrev idle : Office Fixed
idle = record { store = shop; requests = []; queue = [] }

abbrev posted : WorkRequest Fixed
posted = new_work_request 9 1 "k" "price_change" raise_price

abbrev office : Office Fixed
office = record idle { requests = posted ∷ []; queue = (1, 9) ∷ [] }

unpublished_never_queued_example :
    let after = (submit_action 9 (some unavailable) 1 "k" "price_change" raise_price idle).1 in
    ((submit_action 9 (some unavailable) 1 "k" "price_change" raise_price idle).0 ≡ err unavailable)
    × (find (has_work_key 1 "k") after.requests ≡ some posted)
    × (after.queue ≡ [])
    × (submit_action 10 none 1 "k" "price_change" raise_price after ≡ (ok (9, pending), after))
unfolding unknown_action_type parse_action_type
unpublished_never_queued_example =
    unpublished_never_queued 9 10 1 unavailable none "k" "price_change" "price_change" raise_price
      raise_price idle refl refl refl refl

abbrev delivery : Delivery fixed copying same_print true
delivery = record { surroundings = calm; tenant = 1; request = 9 }

request_started_once_example :
    let later =
      run_all
        (deliver fixed copying same_print true)
        (delivery ∷ delivery ∷ [])
        (process_message fixed copying same_print true calm 1 9 office).1 in
    process_message fixed copying same_print true calm 1 9 later ≡ (ok true, later)
request_started_once_example =
    request_started_once fixed copying same_print true calm calm 1 9 posted
      (delivery ∷ delivery ∷ []) office refl

abbrev offline : Surroundings Fixed
offline = record calm { simulate = err unavailable }

transient_failure_is_dropped_example :
    let after = process_message fixed copying same_print true offline 1 9 office in
    (after.0 ≡ ok false)
    × (find (has_request 1 9) after.1.requests ≡ some (start posted))
    × (process_message fixed copying same_print true calm 1 9 after.1 ≡ (ok true, after.1))
unfolding parse_action_type violates_synthetic_guard execute_tool_call_idempotent claim invalid_key
    is_blank text_length answer_of attempt is_menu_add propose_and_gate execute_tool_call
    propose_and_simulate fail
transient_failure_is_dropped_example =
    transient_failure_is_dropped fixed copying same_print true offline calm 1 9 posted price_change
      unavailable office refl refl refl refl refl refl

resubmission_adds_nothing_example :
    let after = (submit_action 9 none 1 "k" "price_change" raise_price idle).1 in
    ((submit_action 9 none 1 "k" "price_change" raise_price idle).0 ≡ ok (9, pending))
    × (after.requests ≡ posted ∷ [])
    × (after.queue ≡ (1, 9) ∷ [])
    × (submit_action 10 none 1 "k" "menu_swap" [] after ≡ (ok (9, pending), after))
unfolding unknown_action_type parse_action_type
resubmission_adds_nothing_example =
    resubmission_adds_nothing 9 10 1 none "k" "price_change" "menu_swap" raise_price [] idle refl
      refl refl refl

abbrev crowded : Surroundings Fixed
crowded = record calm { lock = some tool_busy }

outcome_is_recorded_example :
    let after = process_message fixed copying same_print true crowded 1 9 office in
    (after.0 ≡ ok true)
    × (find (has_request 1 9) after.1.requests
        ≡ some
            (recorded fixed copying same_print true 100 (concurrent_change_in_progress 5) posted))
unfolding parse_action_type violates_synthetic_guard execute_tool_call_idempotent claim invalid_key
    is_blank text_length answer_of attempt is_menu_add propose_and_gate execute_tool_call
    propose_and_simulate validate_prediction complete gate serialized busy write_log json_safe
outcome_is_recorded_example =
    outcome_is_recorded fixed copying same_print true crowded 1 9 posted price_change
      (concurrent_change_in_progress 5) office refl refl refl refl refl
