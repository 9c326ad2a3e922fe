-- ===== src/Cycle/Run/Authority.antt =====
-- What `run_cycle` (orchestrator.py) acts on.
use mathlib.Core.Path.{subst, sym, ap, ◌∙◌}
use restaurant_ops_copilot.Prelude.{
  ℕ, suc, leb, refl, Result, err, Error, ◌≡◌, String, true, false, Option, none, some, List, [],
  ◌∷◌, ok, arith, ◌⊎◌, inl, inr, Result-cases, Bool-cases, All, All-filter_rows, filter_rows_passes,
  map, not, str_eq, take,
}
use restaurant_ops_copilot.Prelude.Sorting.{All-sort_by}
use restaurant_ops_copilot.Values.{Numbers, Payload}
use restaurant_ops_copilot.EventStore.Append.{Digest}
use restaurant_ops_copilot.EventStore.Tables.{Tables}
use restaurant_ops_copilot.Tools.{Store}
use restaurant_ops_copilot.Tools.Calls.{execute_tool_call_idempotent}
use restaurant_ops_copilot.ToolResult.{ToolResult}
use restaurant_ops_copilot.Proposals.{CandidateAction, Opportunity}
use restaurant_ops_copilot.Proposals.Rules.{Ruled}
use restaurant_ops_copilot.Proposals.Reasoning.{Reasoner, reason_about_opportunity}
use restaurant_ops_copilot.Proposals.Grounded.{Grounded, every_candidate_is_Grounded}
use restaurant_ops_copilot.Proposals.Batch.{
  Batch, assign, proposals_for, mixes, reason_from, reason_about_opportunities,
}
use restaurant_ops_copilot.Cycle.{ScoredCandidate, OpportunityOutcome, Settings, Environment}
use restaurant_ops_copilot.Cycle.Selection.{
  ranked, score_candidate, finite_score, ranks_before, is_viable, viable, unflagged,
}
use restaurant_ops_copilot.Cycle.Handle.{act, handle}
use restaurant_ops_copilot.Cycle.Handle.Cases.{has_result, Acted, handle-cases}
use restaurant_ops_copilot.Cycle.Run.{
  action_budget, actions_after, failed_outcome, run_loop, detect_and_reason, run_cycle,
}
use restaurant_ops_copilot.Cycle.Run.Loop.{act-store, run_cycle-cases}

module _ (N : Numbers) where
  open N use {Num}

  -- A candidate that is flagged for a human, or a rule's for some opportunity.
  abbrev pub Safe : CandidateAction Num → Type 0
  Safe c = (c.requires_human_review ≡ true) ⊎ ((o : Opportunity Num) × Ruled N c o)

  Grounded-Safe :
      (o : Opportunity Num) (cs : List (CandidateAction Num)) → All (Grounded N o) cs → All Safe cs
  Grounded-Safe o [] h = tt
  Grounded-Safe o (c ∷ cs) (inl ruled, hs) = (inr (o, ruled), Grounded-Safe o cs hs)
  Grounded-Safe o (c ∷ cs) (inr (verified, flagged, source), hs) =
      (inl flagged, Grounded-Safe o cs hs)

  abbrev SafeBatch : Batch Num → Type 0
  SafeBatch b = All (λ e. All Safe e.1) b

  assign-SafeBatch :
      (k : String) (cs : List (CandidateAction Num)) (b : Batch Num)
      → All Safe cs
      → SafeBatch b
      → SafeBatch (assign k cs b)
  unfolding assign
  assign-SafeBatch k cs [] h hs = (h, tt)
  assign-SafeBatch k cs ((j, u) ∷ b) h hs = elim (Bool-cases (str_eq j k)) [
    | inl found ↦ rw found (h, hs.1)
    | inr other ↦ rw other (hs.0, assign-SafeBatch k cs b h hs.1)
  ]

  proposals_for-Safe : (k : String) (b : Batch Num) → SafeBatch b → All Safe (proposals_for k b)
  unfolding proposals_for
  proposals_for-Safe k [] h = tt
  proposals_for-Safe k ((j, u) ∷ b) h = elim (Bool-cases (str_eq j k)) [
    | inl found ↦ rw found h.0
    | inr other ↦ rw other (proposals_for-Safe k b h.1)
  ]

  reason_from-SafeBatch :
      (freeze : Payload Num → String) (reasoner : Reasoner Num) (tenant : Option ℕ)
      (b c : Batch Num) (os : List (Opportunity Num))
      → SafeBatch b
      → reason_from N freeze reasoner tenant b os ≡ ok c
      → SafeBatch c
  unfolding reason_from
  reason_from-SafeBatch freeze reasoner tenant b c [] h e =
      let same : b ≡ c = ground arith in subst SafeBatch same h
  reason_from-SafeBatch freeze reasoner tenant b c (o ∷ os) h e =
      elim (Bool-cases (mixes tenant o.tenant_id)) [
        | inl mixed ↦ absurd (ground arith)
        | inr alike ↦ elim (Result-cases (reason_about_opportunity N freeze reasoner o)) [
          | inr (x, raised) ↦ absurd (ground arith)
          | inl (cs, reasoned) ↦
              let safe =
                Grounded-Safe o cs (every_candidate_is_Grounded N freeze reasoner o cs reasoned) in
              reason_from-SafeBatch freeze reasoner (some o.tenant_id) (assign o.id cs b) c os
                (assign-SafeBatch o.id cs b safe h) (ground arith)
        ]
      ]

module _ (N : Numbers) (digest : Digest N.Num) (cfg : Settings N.Num) (env : Environment N.Num)
    (t : ℕ) where
  open N use {Num, lt}

  -- scoring keeps the candidate
  score_candidate-candidate :
      (s : Tables Num) (c : CandidateAction Num) → (score_candidate N cfg env s c).candidate ≡ c
  unfolding score_candidate
  score_candidate-candidate s c = elim (Result-cases (env.simulate s c.action_type c.payload)) [
    | inr (e, broken) ↦ ground arith
    | inl (q, predicted) ↦ elim (Result-cases (finite_score N (cfg.scorer q))) [
      | inr (e, broken) ↦ ground arith
      | inl (x, rated) ↦ ground arith
    ]
  ]

  scored-All :
      (P : CandidateAction Num → Type 0) (s : Tables Num) (cs : List (CandidateAction Num))
      → All P cs
      → All (λ x. P x.candidate) (map (score_candidate N cfg env s) cs)
  scored-All P s [] h = tt
  scored-All P s (c ∷ cs) h =
      (subst P (sym (score_candidate-candidate s c)) h.0, scored-All P s cs h.1)

  chosen-All :
      (P : CandidateAction Num → Type 0) (s : Tables Num) (cs : List (CandidateAction Num))
      → All P cs
      → All (λ x. P x.candidate) (unflagged N (viable N cfg.min_score (ranked N cfg env s cs)))
  unfolding ranked
  chosen-All P s cs h =
      let Q = λ (x : ScoredCandidate Num). P x.candidate in
      let scored = scored-All P s cs h in
      let sorted =
        All-sort_by Q (ranks_before N env.dumps) (map (score_candidate N cfg env s) cs) scored in
      let kept = All-filter_rows Q (is_viable N cfg.min_score) _ sorted in
      All-filter_rows Q _ _ kept

  detect_and_reason-Safe :
      (s : Store Num) (os : List (Opportunity Num)) (b : Batch Num) (k : String)
      → detect_and_reason N digest cfg env t s ≡ ok (os, b)
      → All (Safe N) (proposals_for k b)
  unfolding detect_and_reason reason_about_opportunities
  detect_and_reason-Safe s os b k h = elim (Result-cases (env.detect_opportunities s.world)) [
    | inr (e, broken) ↦ absurd (ground arith)
    | inl (found, detected) ↦
        let considered : List (Opportunity Num) = take cfg.max_opportunities found in
        elim (Result-cases (reason_about_opportunities N env.freeze cfg.reasoner considered)) [
          | inr (e, broken) ↦ absurd (ground arith)
          | inl (c, reasoned) ↦
              let same : c ≡ b = ground arith in
              let safe =
                reason_from-SafeBatch N env.freeze cfg.reasoner none [] c considered tt reasoned in
              subst (λ d. All (Safe N) (proposals_for k d)) same (proposals_for-Safe N k c safe)
        ]
  ]

  -- A rule's candidate, not flagged for a human, that scores above the minimum.
  abbrev pub Allowed : ScoredCandidate Num → Type 0
  Allowed best =
      (best.candidate.requires_human_review ≡ false)
      × ((v : Num) × (best.score ≡ some v) × (lt cfg.min_score v ≡ true))
      × ((o : Opportunity Num) × Ruled N best.candidate o)

  -- the tool call for an opportunity's candidate
  abbrev pub call :
      Opportunity Num → ScoredCandidate Num → Store Num → Result (ToolResult Num) × Store Num
  call o best s =
      execute_tool_call_idempotent N digest env.fingerprint (env.surroundings o) t
        (env.idempotency_key o.id best.candidate) best.candidate.action_type best.candidate.payload
        s

  -- How the outcomes of a cycle lead from one store to another: the store changes only by tool calls
  -- of allowed candidates, and an outcome with a result holds the result of the call of the candidate
  -- that it names as selected.
  pub data Ran : List (OpportunityOutcome Num) → Store Num → Store Num → Type 0 where
    over : (s : Store Num) → Ran [] s s
    idled :
        (x : OpportunityOutcome Num) (xs : List (OpportunityOutcome Num)) (s s' : Store Num)
        → has_result x ≡ false
        → Ran xs s s'
        → Ran (x ∷ xs) s s'
    attempted :
        (o : Opportunity Num) (best : ScoredCandidate Num) (v : ToolResult Num)
        (x : OpportunityOutcome Num) (xs : List (OpportunityOutcome Num)) (s s' : Store Num)
        → Allowed best
        → (call o best s).0 ≡ ok v
        → x.selected ≡ some best
        → x.result ≡ some v
        → Ran xs (call o best s).1 s'
        → Ran (x ∷ xs) s s'
    raised :
        (o : Opportunity Num) (best : ScoredCandidate Num) (e : Error) (x : OpportunityOutcome Num)
        (xs : List (OpportunityOutcome Num)) (s s' : Store Num)
        → Allowed best
        → (call o best s).0 ≡ err e
        → has_result x ≡ false
        → Ran xs (call o best s).1 s'
        → Ran (x ∷ xs) s s'

  act-ok :
      (o : Opportunity Num) (scored : List (ScoredCandidate Num)) (best : ScoredCandidate Num)
      (s : Store Num) (x : OpportunityOutcome Num)
      → (act N digest cfg env t o scored best s).0 ≡ ok x
      → (v : ToolResult Num) × ((call o best s).0 ≡ ok v)
        × (x.selected ≡ some best)
        × (x.result ≡ some v)
  unfolding act
  act-ok o scored best s x h = ground arith

  act-err :
      (o : Opportunity Num) (scored : List (ScoredCandidate Num)) (best : ScoredCandidate Num)
      (s : Store Num) (e : Error)
      → (act N digest cfg env t o scored best s).0 ≡ err e
      → (call o best s).0 ≡ err e
  unfolding act
  act-err o scored best s e h = ground arith

  is_viable-score :
      (x : ScoredCandidate Num)
      → is_viable N cfg.min_score x ≡ true
      → (v : Num) × (x.score ≡ some v) × (lt cfg.min_score v ≡ true)
  unfolding is_viable
  is_viable-score x h = ground arith

  Acted-Allowed :
      (o : Opportunity Num) (left : ℕ) (cs : List (CandidateAction Num)) (s : Store Num)
      (a : Acted N digest cfg env t o left cs s (handle N digest cfg env t o left cs s))
      → All (Safe N) cs
      → Allowed a.best
  Acted-Allowed o left cs s a safe =
      let all_safe =
        subst (All (λ y. Safe N y.candidate)) a.is_first (chosen-All (Safe N) s.world cs safe) in
      let unseen = subst (All (λ y. not y.candidate.requires_human_review ≡ true)) a.is_first (
        filter_rows_passes (λ y. not y.candidate.requires_human_review)
          (viable N cfg.min_score (ranked N cfg env s.world cs))) in
      let scores = subst (All (λ y. is_viable N cfg.min_score y ≡ true)) a.is_first (
        All-filter_rows (λ y. is_viable N cfg.min_score y ≡ true)
          (λ y. not y.candidate.requires_human_review)
          (viable N cfg.min_score (ranked N cfg env s.world cs))
          (filter_rows_passes (is_viable N cfg.min_score) (ranked N cfg env s.world cs))) in
      let plain : a.best.candidate.requires_human_review ≡ false = ground (arith, unseen.0) in
      (
        plain,
        is_viable-score a.best scores.0,
        elim all_safe.0 [
          | inl flagged ↦ absurd (ground (arith, flagged, plain))
          | inr ruled ↦ ruled
        ],
      )

  -- one opportunity, and then the others
  handle-Ran :
      (o : Opportunity Num) (left : ℕ) (cs : List (CandidateAction Num)) (s s' : Store Num)
      (xs ys : List (OpportunityOutcome Num))
      → All (Safe N) cs
      → let r = handle N digest cfg env t o left cs s in
        ((x : OpportunityOutcome Num) → r.0 ≡ ok x → Ran xs r.1 s' → Ran (x ∷ xs) s s')
        × ((e : Error) → r.0 ≡ err e → Ran ys r.1 s' → Ran (failed_outcome o ∷ ys) s s')
  handle-Ran o left cs s s' xs ys safe = elim (handle-cases N digest cfg env t o left cs s) [
    | inl (same, quiet) ↦ (
      λ x h rest. idled x xs s s' (quiet x h).0 (subst (λ z. Ran xs z s') same rest),
      λ e h rest. idled (failed_outcome o) ys s s' refl (subst (λ z. Ran ys z s') same rest),
    )
    | inr a ↦
        let scored = ranked N cfg env s.world cs in
        let allowed = Acted-Allowed o left cs s a safe in
        let store = ap (λ r. r.1) a.acts ∙ act-store N digest cfg env t o scored a.best s in
        (
          λ x h rest.
              let (v, made, chosen, result) =
                act-ok o scored a.best s x (ap (λ r. r.0) (sym a.acts) ∙ h) in
              attempted o a.best v x xs s s' allowed made chosen result
                (subst (λ z. Ran xs z s') store rest),
          λ e h rest.
              raised o a.best e (failed_outcome o) ys s s' allowed
                (act-err o scored a.best s e (ap (λ r. r.0) (sym a.acts) ∙ h)) refl
                (subst (λ z. Ran ys z s') store rest),
        )
  ]

  run_loop-Ran :
      (proposals : Batch Num)
      → ((k : String) → All (Safe N) (proposals_for k proposals))
      → (left errors : ℕ) (os : List (Opportunity Num)) (s : Store Num)
      → let end = run_loop N digest cfg env t proposals left errors os s in
        Ran end.0.outcomes s end.1
  unfolding run_loop
  run_loop-Ran proposals safe left errors [] s = over s
  run_loop-Ran proposals safe left errors (o ∷ os) s =
      let r = handle N digest cfg env t o left (proposals_for o.id proposals) s in
      elim (Bool-cases (leb cfg.max_errors errors)) [
        | inl full ↦ rw full (over s)
        | inr room ↦ rw room (elim (Result-cases r.0) [
          | inl (x, handled) ↦
              let rest =
                run_loop N digest cfg env t proposals (actions_after x left) errors os r.1 in
              rw handled (
                (handle-Ran o left (proposals_for o.id proposals) s rest.1 rest.0.outcomes []
                    (safe o.id)).0
                  x handled (run_loop-Ran proposals safe (actions_after x left) errors os r.1))
          | inr (e, failing) ↦
              let rest = run_loop N digest cfg env t proposals left (suc errors) os r.1 in
              rw failing (
                (handle-Ran o left (proposals_for o.id proposals) s rest.1 [] rest.0.outcomes
                    (safe o.id)).1
                  e failing (run_loop-Ran proposals safe left (suc errors) os r.1))
        ])
      ]

  -- Whatever the language model and the detector answer, a cycle changes the store only by tool calls
  -- of candidates that a rule proposed, price changes to a finite price above zero of an item that an
  -- opportunity names, which scored above the minimum and are not flagged for a human; it makes them
  -- one after another in the order of its outcomes, and an outcome with a result names as selected the
  -- candidate that was called and holds that call's result. So no candidate of the language model is
  -- ever executed.
  pub only_rules_act :
      (s : Store Num) → let end = run_cycle N digest cfg env t s in Ran end.0.outcomes s end.1
  only_rules_act s = elim (run_cycle-cases N digest cfg env t s) [
    | inl (status, same) ↦ rw same (over s)
    | inr (os, proposals, reasoned, same) ↦ rw same (
        run_loop-Ran proposals (λ k. detect_and_reason-Safe s os proposals k reasoned)
          (action_budget N digest cfg env t) 0 os s)
  ]
