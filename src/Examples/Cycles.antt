-- ===== src/Examples/Cycles.antt =====
-- Cycles over one dish, and the human's part.
use restaurant_ops_copilot.Prelude.{◌≡◌, refl, true, false, none, some, [], ◌∷◌, ok, any, take, ◌⊎◌}
use restaurant_ops_copilot.Values.{price_change}
use restaurant_ops_copilot.Approval.{ApprovalStatus}
use restaurant_ops_copilot.Tools.{Store, ToolExecutionLog}
use restaurant_ops_copilot.Tools.{no_reason}
use restaurant_ops_copilot.Tools.History.{tenant_rows}
use restaurant_ops_copilot.Cycle.{CycleMode, Settings, Environment, default_scorer}
use restaurant_ops_copilot.Cycle.Selection.{in_cooldown}
use restaurant_ops_copilot.Cycle.Selection.Cooldown.{blocks_candidate, in_cooldown_iff_blocked}
use restaurant_ops_copilot.Cycle.Run.{run_cycle}
use restaurant_ops_copilot.Cycle.Run.Bounds.{Bounded, run_cycle-Bounded}
use restaurant_ops_copilot.Cycle.Run.Authority.{Ran, only_rules_act}
use restaurant_ops_copilot.Cycle.Run.DryRun.{dry_cycle_keeps_store}
use restaurant_ops_copilot.Cycle.Review.{resolve_approval}
use restaurant_ops_copilot.Cycle.Review.Gated.{Reviewed, review_is_gated}
use restaurant_ops_copilot.Examples.Data.{
  Fixed, plus, fixed, copying, raise_price, prediction, shop, calm, same_print,
}
use restaurant_ops_copilot.Examples.Candidates.{thin_margin, proposed_candidate, model, print}
use restaurant_ops_copilot.Examples.Framework.{approval, approved_shop}

abbrev settings : CycleMode → Settings Fixed
settings mode = record {
  mode = mode;
  min_score = plus 0;
  max_opportunities = 10;
  max_actions = 3;
  max_errors = 3;
  cooldown = 24;
  now = 100;
  verify_chain = true;
  reasoner = model;
  scorer = default_scorer fixed;
}

abbrev surrounding_shop : Environment Fixed
surrounding_shop = record {
  detect_opportunities = λ s. ok (thin_margin ∷ []);
  simulate = λ s a p. ok prediction;
  surroundings = λ o. calm;
  idempotency_key = λ i c. i;
  fingerprint = same_print;
  freeze = print;
  dumps = print;
  acquired = true;
}

run_cycle-Bounded_example :
    Bounded fixed copying
      (settings CycleMode.execute)
      surrounding_shop
      1
      10
      3
      3
      shop
      (run_cycle fixed copying (settings CycleMode.execute) surrounding_shop 1 shop)
run_cycle-Bounded_example =
    run_cycle-Bounded fixed copying (settings CycleMode.execute) surrounding_shop 1 shop

only_rules_act_example :
    let end = run_cycle fixed copying (settings CycleMode.execute) surrounding_shop 1 shop in
    Ran fixed copying (settings CycleMode.execute) surrounding_shop 1 end.0.outcomes shop end.1
only_rules_act_example =
    only_rules_act fixed copying (settings CycleMode.execute) surrounding_shop 1 shop

dry_cycle_keeps_store_example :
    (run_cycle fixed copying (settings CycleMode.simulate) surrounding_shop 1 shop).1 ≡ shop
dry_cycle_keeps_store_example =
    dry_cycle_keeps_store fixed copying (settings CycleMode.simulate) surrounding_shop 1 shop refl

-- a price change that was executed at 90
abbrev earlier : ToolExecutionLog Fixed
earlier = record {
  tenant_id = 1;
  decision_id = some 5;
  tool_category = "pricing";
  action_type = price_change;
  confidence_gate_passed = true;
  critic_approved = some true;
  critic_reason = no_reason;
  executed = true;
  payload = raise_price;
  created_at = 90;
}

abbrev busy_shop : Store Fixed
busy_shop = record shop { log = earlier ∷ record earlier { created_at = 10 } ∷ [] }

in_cooldown_iff_blocked_example :
    in_cooldown fixed 1 proposed_candidate 24 100 busy_shop
    ≡ ok (
        any (blocks_candidate fixed 24 100 proposed_candidate) (take 500 (tenant_rows 1 busy_shop)))
in_cooldown_iff_blocked_example =
    in_cooldown_iff_blocked fixed 1 proposed_candidate 24 100 busy_shop refl

-- the request before the reviewer's vote
abbrev waiting_shop : Store Fixed
waiting_shop = record (approved_shop raise_price) {
  approvals =
      record approval { status = ApprovalStatus.pending; reviewer_id = none; resolved_at = none }
      ∷ [];
}

review_is_gated_example :
    let after = (resolve_approval fixed copying calm 1 6 true "kim" none waiting_shop).1 in
    (after ≡ waiting_shop)
    ⊎ ((true ≡ false) × (after ≡ record waiting_shop { approvals = after.approvals }))
    ⊎ ((true ≡ true) × Reviewed fixed copying 1 6 waiting_shop)
review_is_gated_example = review_is_gated fixed copying calm 1 6 true "kim" none waiting_shop
