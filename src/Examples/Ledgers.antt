-- ===== src/Examples/Ledgers.antt =====
-- Four observations of two tenants: the third has a taken record id, the fourth the same id elsewhere.
use restaurant_ops_copilot.Prelude.{
  ℕ, String, ◌≡◌, refl, false, none, some, List, [], ◌∷◌, ok, arith, filter_rows, ◌==◌,
}
use restaurant_ops_copilot.Text.{is_blank}
use restaurant_ops_copilot.Ledger.{EvaluationRecord, list_for_tenant, pos, is_invalid}
use restaurant_ops_copilot.Ledger.Listing.{Observation, record_all, accepted, ledger_lists_accepted}
use restaurant_ops_copilot.Ledger.Metrics.{metrics, aggregate}
use restaurant_ops_copilot.Ledger.Isolation.{own, metrics_of_own}
use restaurant_ops_copilot.Examples.Data.{Fixed, plus, fixed}

abbrev seen : ℕ → String → EvaluationRecord Fixed
seen t i = record {
  tenant_id = t;
  record_id = i;
  decision_id = some "d1";
  action_type = none;
  opportunity_was_correct = none;
  candidate_was_valid = none;
  decision_succeeded = some false;
  human_overrode = none;
  policy_violation = none;
  isolation_breach = none;
  execution_failed = none;
  retry_count = some (pos 1);
  autonomous = none;
  latency_ms = some (plus 120000);
  cost_usd = none;
  predicted_economic_impact = none;
  actual_economic_impact = none;
}

abbrev observations : List (Observation Fixed)
observations =
    record { now = 5; observation = seen 1 "a" }
    ∷ record { now = 6; observation = seen 1 "b" }
    ∷ record { now = 7; observation = seen 1 "a" }
    ∷ record { now = 9; observation = seen 2 "a" }
    ∷ []

-- What is kept of them for the first tenant.
kept_run :
    filter_rows (λ r. r.tenant_id == 1) (accepted fixed observations [])
    ≡ seen 1 "a" ∷ seen 1 "b" ∷ []
unfolding accepted is_invalid is_blank
kept_run = refl

ledger_lists_accepted_example :
    list_for_tenant fixed 1 (record_all fixed observations [])
    ≡ ok (filter_rows (λ r. r.tenant_id == 1) (accepted fixed observations []))
ledger_lists_accepted_example =
    ledger_lists_accepted fixed 1 observations
      (omega arith, (omega arith, (omega arith, (omega arith, tt))))

metrics_of_own_example :
    metrics fixed (λ x. x) 1 (record_all fixed observations [])
    ≡ aggregate fixed (λ x. x) (accepted fixed (own fixed 1 observations) [])
metrics_of_own_example =
    metrics_of_own fixed 1 (λ x. x) observations
      (omega arith, (omega arith, (omega arith, (omega arith, tt))))
