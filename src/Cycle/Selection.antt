-- ===== src/Cycle/Selection.antt =====
-- Which candidate a cycle selects: scores, their order, and the cooldown.
pub mod Cooldown
use restaurant_ops_copilot.Prelude.{
  ℕ, ◌+◌, String, Bool, true, false, Option, none, some, List, [], ◌∷◌, Result, ok, err, Error, map,
  filter_rows, str_eq, ltb, ◌==◌, ◌&&◌, ◌||◌, not, if◌then◌else◌, value_error,
}
use restaurant_ops_copilot.Prelude.Fallible.{◌>>=◌}
use restaurant_ops_copilot.Prelude.Sorting.{sort_by}
use restaurant_ops_copilot.Text.{text_lt}
use restaurant_ops_copilot.Values.{Numbers, Value, null, Payload, get, ActionType}
use restaurant_ops_copilot.Decisions.{PredictedOutcome}
use restaurant_ops_copilot.EventStore.Tables.{Tables}
use restaurant_ops_copilot.Tools.{ToolExecutionLog, Store}
use restaurant_ops_copilot.Tools.History.{get_action_log}
use restaurant_ops_copilot.Proposals.{
  CandidateAction, deterministic, llm, CandidateSource, action_value,
}
use restaurant_ops_copilot.Cycle.{ScoredCandidate, Settings, Environment}

abbrev pub is_deterministic : CandidateSource → Bool
is_deterministic deterministic = true
is_deterministic llm = false

abbrev pub is_true : Option Bool → Bool
is_true none = false
is_true (some b) = b

-- equality of tuples of pairs of texts
unfoldable pub same_target : List (String × String) → List (String × String) → Bool
same_target [] [] = true
same_target ((k, v) ∷ xs) ((j, u) ∷ ys) = str_eq k j && str_eq v u && same_target xs ys
same_target _ _ = false

module _ (N : Numbers) where
  open N use {Num, is_finite, lt, eq, str_of}

  -- `_TARGET_KEYS`
  abbrev pub target_keys : List String
  target_keys = "menu_item_id" ∷ "ingredient_id" ∷ "supplier_sku_id" ∷ "staff_shift_id" ∷ []

  unfoldable pub target_of : List String → Payload Num → List (String × String)
  target_of [] p = []
  target_of (k ∷ ks) p = elim (get k p) [
    | null ↦ target_of ks p
    | v ↦ (k, str_of v) ∷ target_of ks p
  ]

  -- `_target`
  unfoldable pub target : Payload Num → List (String × String)
  target p = target_of target_keys p

  -- the tests on one row of the log, but for its age
  unfoldable pub blocks_again : CandidateAction Num → ToolExecutionLog Num → Bool
  blocks_again c e =
      str_eq (action_value e.action_type) (action_value c.action_type)
      && same_target (target e.payload) (target c.payload)
      && (e.executed || is_true e.critic_approved && not e.executed)

  -- `created < since`, with the duration on the other side
  abbrev pub is_old : ℕ → ℕ → ToolExecutionLog Num → Bool
  is_old cooldown now e = ltb (e.created_at + cooldown) now

  -- the loop over the rows, newest first
  unfoldable pub scan : ℕ → ℕ → CandidateAction Num → List (ToolExecutionLog Num) → Bool
  scan cooldown now c [] = false
  scan cooldown now c (e ∷ rows) =
      let rest = scan cooldown now c rows in
      if is_old cooldown now e then false else if blocks_again c e then true else rest

  -- `_in_cooldown`
  unfoldable pub in_cooldown : ℕ → CandidateAction Num → ℕ → ℕ → Store Num → Result Bool
  in_cooldown t c cooldown now s =
      if cooldown == 0
      then ok false
      else do rows ← get_action_log t 500 s; ok (scan cooldown now c rows)

  abbrev unscored : CandidateAction Num → Error → ScoredCandidate Num
  unscored c e = record { candidate = c; predicted = none; score = none; failure = some e }

  -- `float(scorer(predicted))`, if it is finite
  unfoldable pub finite_score : Option Num → Result Num
  finite_score none = err value_error
  finite_score (some x) = if is_finite x then ok x else err value_error

  -- the `try` block for one candidate
  unfoldable pub score_candidate :
      Settings Num → Environment Num → Tables Num → CandidateAction Num → ScoredCandidate Num
  score_candidate cfg env s c = elim (env.simulate s c.action_type c.payload) [
    | err e ↦ unscored c e
    | ok q ↦ elim (finite_score (cfg.scorer q)) [
      | err e ↦ unscored c e
      | ok x ↦ record { candidate = c; predicted = some q; score = some x; failure = none }
    ]
  ]

  -- the score, negated: a missing one comes last
  unfoldable pub score_before : Option Num → Option Num → Bool
  score_before none y = false
  score_before (some x) none = true
  score_before (some x) (some y) = lt y x

  unfoldable pub score_same : Option Num → Option Num → Bool
  score_same none none = true
  score_same (some x) (some y) = eq x y
  score_same _ _ = false

  -- the order of the tuples `_rank_key`
  unfoldable pub ranks_before :
      (Payload Num → String) → ScoredCandidate Num → ScoredCandidate Num → Bool
  ranks_before dumps a b =
      if not (score_same a.score b.score)
      then score_before a.score b.score
      else if is_deterministic a.candidate.source
      then (if is_deterministic b.candidate.source
          then text_lt (dumps a.candidate.payload) (dumps b.candidate.payload)
          else true)
      else if is_deterministic b.candidate.source
      then false
      else text_lt (dumps a.candidate.payload) (dumps b.candidate.payload)

  -- `sorted(_score(...), key=_rank_key)`
  unfoldable pub ranked :
      Settings Num
      → Environment Num
      → Tables Num
      → List (CandidateAction Num)
      → List (ScoredCandidate Num)
  ranked cfg env s cs = sort_by (ranks_before env.dumps) (map (score_candidate cfg env s) cs)

  -- `s.score is not None and s.score > min_score`
  unfoldable pub is_viable : Num → ScoredCandidate Num → Bool
  is_viable least x = elim x.score [ none ↦ false | some v ↦ lt least v ]

  abbrev pub viable : Num → List (ScoredCandidate Num) → List (ScoredCandidate Num)
  viable least xs = filter_rows (is_viable least) xs

  abbrev pub unflagged : List (ScoredCandidate Num) → List (ScoredCandidate Num)
  unflagged xs = filter_rows (λ x. not x.candidate.requires_human_review) xs
