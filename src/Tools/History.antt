-- ===== src/Tools/History.antt =====
-- `get_action_log` of Component_4/tool_framework.py: a tenant's rows, newest first. Rows of one
-- instant come in the order of insertion; the database promises none.
use restaurant_ops_copilot.Prelude.{
  ℕ, ◌≤◌, ◌≡◌, Bool, true, List, Result, ok, err, arith, value_error, length, length-take, take,
  filter_rows, All, All-take, filter_rows_passes, ltb, ◌==◌, ◌||◌, if◌then◌else◌,
}
use restaurant_ops_copilot.Prelude.Sorting.{
  sort_by, Ordered, All-sort_by, sort_by-Ordered, Ordered-take,
}
use restaurant_ops_copilot.Tools.{ToolExecutionLog, Store}

-- `MAX_ACTION_LOG_LIMIT`
abbrev pub max_action_log_limit : ℕ
max_action_log_limit = 500

module _ {Num : Type 0} where
  -- `ORDER BY created_at DESC`
  abbrev pub newer : ToolExecutionLog Num → ToolExecutionLog Num → Bool
  newer a b = ltb b.created_at a.created_at

  abbrev pub tenant_rows : ℕ → Store Num → List (ToolExecutionLog Num)
  tenant_rows t s = sort_by newer (filter_rows (λ e. e.tenant_id == t) s.log)

  -- `get_action_log`
  unfoldable pub get_action_log : ℕ → ℕ → Store Num → Result (List (ToolExecutionLog Num))
  get_action_log t limit s =
      if limit == 0 || ltb max_action_log_limit limit
      then err value_error
      else ok (take limit (tenant_rows t s))

  tenant_rows-All : (t : ℕ) (s : Store Num) → All (λ e. (e.tenant_id == t) ≡ true) (tenant_rows t s)
  tenant_rows-All t s =
      All-sort_by _ newer (filter_rows (λ e. e.tenant_id == t) s.log)
        (filter_rows_passes (λ e. e.tenant_id == t) s.log)

  pub tenant_rows-Ordered : (t : ℕ) (s : Store Num) → Ordered newer (tenant_rows t s)
  tenant_rows-Ordered t s =
      sort_by-Ordered newer (λ x y h. ground arith) (λ x y z h k. ground arith)
        (filter_rows (λ e. e.tenant_id == t) s.log)

  pub get_action_log-take :
      (t limit : ℕ) (s : Store Num) (rows : List (ToolExecutionLog Num))
      → get_action_log t limit s ≡ ok rows
      → rows ≡ take limit (tenant_rows t s)
  unfolding get_action_log
  get_action_log-take t limit s rows h = ground arith

  -- What `get_action_log` returns is at most `limit` rows, and so at most 500, all of the tenant,
  -- newest first.
  pub action_log_bounded :
      (t limit : ℕ) (s : Store Num) (rows : List (ToolExecutionLog Num))
      → get_action_log t limit s ≡ ok rows
      → (length rows ≤ limit)
        × (limit ≤ max_action_log_limit)
        × All (λ e. (e.tenant_id == t) ≡ true) rows
        × Ordered newer rows
  unfolding get_action_log
  action_log_bounded t limit s rows h =
      let same = get_action_log-take t limit s rows h in
      (
        rw same (length-take limit (tenant_rows t s)),
        ground arith,
        rw same (All-take _ limit (tenant_rows t s) (tenant_rows-All t s)),
        rw same (Ordered-take newer limit (tenant_rows t s) (tenant_rows-Ordered t s)),
      )
