-- ===== src/Examples/Registries.antt =====
-- Approvals and idempotency keys, with one row each.
use restaurant_ops_copilot.Prelude.{
  ◌≡◌, ◌≤◌, refl, arith, ℕ, true, false, none, some, List, [], ◌∷◌, ok, find,
}
use restaurant_ops_copilot.Prelude.Traces.{run_all, wins_in}
use restaurant_ops_copilot.Text.{is_blank, text_length}
use restaurant_ops_copilot.Approval.{ApprovalRequest, pending, approved, for_request}
use restaurant_ops_copilot.Approval.Resolution.{
  resolve_op, resolves, resolved_final, at_most_one_resolution,
}
use restaurant_ops_copilot.Approval.Resolution as Approving
use restaurant_ops_copilot.Idempotency.{
  KeyRow, in_progress, nothing, result, replay, abandon, has_key, invalid_key, claim, complete,
}
use restaurant_ops_copilot.Idempotency.Ownership.{
  claim_op, complete_op, fail_op, owns, at_most_one_owner,
}
use restaurant_ops_copilot.Idempotency.Replay.{completed_replays, abandoned_stays_failed}
use restaurant_ops_copilot.Idempotency.Ownership as Owning

abbrev granted_row : ApprovalRequest ℕ
granted_row = record {
  id = 6;
  tenant_id = 1;
  decision_id = 5;
  reason = 0;
  status = approved;
  reviewer_id = some "kim";
  override_reason = none;
  resolved_at = some 90;
}

abbrev pending_row : ApprovalRequest ℕ
pending_row = record granted_row { status = pending; reviewer_id = none; resolved_at = none }

abbrev votes : List (Approving.Op ℕ)
votes = resolve_op 1 6 false "lee" none 100 ∷ resolve_op 1 6 true "kim" none 110 ∷ []

resolved_final_example :
    find (for_request 1 6) (run_all Approving.step votes (granted_row ∷ [])) ≡ some granted_row
resolved_final_example = resolved_final 1 6 granted_row votes (granted_row ∷ []) refl refl

at_most_one_resolution_example : wins_in Approving.step (resolves 1 6) votes (pending_row ∷ []) ≤ 1
at_most_one_resolution_example = at_most_one_resolution 1 6 votes (pending_row ∷ [])

abbrev attempts : List (Owning.Op ℕ)
attempts =
    claim_op 1 "k" "fp" 100
    ∷ claim_op 1 "k" "fp" 110
    ∷ complete_op 1 "k" 42
    ∷ fail_op 1 "k"
    ∷ claim_op 1 "k" "fp" 400000
    ∷ []

at_most_one_owner_example : wins_in Owning.step (owns 1 "k") attempts [] ≤ 1
at_most_one_owner_example = at_most_one_owner 1 "k" attempts []

abbrev running_row : KeyRow ℕ
running_row = record {
  tenant_id = 1;
  idempotency_key = "k";
  request_fingerprint = "fp";
  status = in_progress;
  stored = nothing;
  created_at = 100;
}

completed_replays_example :
    (claim 1 "k" "fp" 900 (run_all Owning.step attempts (complete 1 "k" 7 (running_row ∷ [])).1)).0
    ≡ ok (replay (result 7))
unfolding invalid_key is_blank text_length
completed_replays_example =
    completed_replays 1 "k" "fp" 7 900 attempts (running_row ∷ []) running_row refl refl refl

abbrev late_rows : List (KeyRow ℕ)
late_rows = (claim 1 "k" "fp" 400000 (running_row ∷ [])).1

abandoned_stays_failed_example :
    ((complete 1 "k" 7 late_rows).0 ≡ ok 7)
    × (find (has_key 1 "k") (complete 1 "k" 7 late_rows).1 ≡ some (abandon running_row))
unfolding invalid_key is_blank text_length
abandoned_stays_failed_example =
    abandoned_stays_failed 1 "k" "fp" 400000 7 (running_row ∷ []) running_row refl refl refl
      (omega arith)
