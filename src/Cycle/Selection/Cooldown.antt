-- ===== src/Cycle/Selection/Cooldown.antt =====
-- The cooldown of orchestrator.py, without its early exit.
use restaurant_ops_copilot.Prelude.{
  ℕ, ◌≡◌, refl, ap, Bool, true, false, List, [], ◌∷◌, ok, arith, inl, inr, Bool-cases, All, any,
  take, ◌==◌, ◌&&◌, ◌||◌, ◌+◌, not, leb, ltb, Option, str_eq, eq_iff, String, none, some,
  if◌then◌else◌, ◌∙◌,
}
use restaurant_ops_copilot.Prelude.Sorting.{Ordered, Ordered-take}
use restaurant_ops_copilot.Values.{Numbers, Value, null, bool, num, text, arr, obj, Payload, get}
use restaurant_ops_copilot.Tools.{ToolExecutionLog, Store}
use restaurant_ops_copilot.Tools.History.{newer, tenant_rows, tenant_rows-Ordered, get_action_log}
use restaurant_ops_copilot.Proposals.{CandidateAction, action_value}
use restaurant_ops_copilot.Cycle.Selection.{
  same_target, target_keys, target_of, target, is_true, blocks_again, is_old, scan, in_cooldown,
}

abbrev is_null : {Num : Type 0} → Value Num → Bool
is_null null = true
is_null _ = false

Fresh : String → List String → Type 0
Fresh k ks = All (λ j. (str_eq k j ≡ false) × (str_eq j k ≡ false)) ks

Distinct : List String → Type 0
unfolding Fresh
Distinct [] = Unit
Distinct (k ∷ ks) = Fresh k ks × Distinct ks

module _ (N : Numbers) where
  open N use {Num, str_of}

  -- a row within the window that blocks the candidate
  abbrev blocks_now : ℕ → ℕ → CandidateAction Num → ToolExecutionLog Num → Bool
  blocks_now cooldown now c e = not (is_old N cooldown now e) && blocks_again N c e

  -- behind a row that is too old there are only rows that are too old
  old-tail :
      (cooldown now : ℕ) (c : CandidateAction Num) (e : ToolExecutionLog Num)
      (rows : List (ToolExecutionLog Num))
      → is_old N cooldown now e ≡ true
      → All (λ y. newer y e ≡ false) rows
      → any (blocks_now cooldown now c) rows ≡ false
  old-tail cooldown now c e [] h hs = refl
  old-tail cooldown now c e (y ∷ rows) h hs =
      let older : is_old N cooldown now y ≡ true = ground arith in
      ground (arith, old-tail cooldown now c e rows h hs.1, older)

  scan-any :
      (cooldown now : ℕ) (c : CandidateAction Num) (rows : List (ToolExecutionLog Num))
      → Ordered newer rows
      → scan N cooldown now c rows ≡ any (blocks_now cooldown now c) rows
  unfolding scan
  scan-any cooldown now c [] h = refl
  scan-any cooldown now c (e ∷ rows) h = elim (Bool-cases (is_old N cooldown now e)) [
    | inl old ↦ ground (arith, old-tail cooldown now c e rows old h.0)
    | inr recent ↦ ground (arith, scan-any cooldown now c rows h.1)
  ]

  -- The two payloads leave the key out, or give it the same text.
  abbrev pub agree : String → Payload Num → Payload Num → Bool
  agree k p q =
      if is_null (get k p)
      then is_null (get k q)
      else if is_null (get k q)
      then false
      else str_eq (str_of (get k p)) (str_of (get k q))

  abbrev agree_on : List String → Payload Num → Payload Num → Bool
  agree_on [] p q = true
  agree_on (k ∷ ks) p q = agree k p q && agree_on ks p q

  -- A row of the candidate's action type and target, executed or approved by the critic, and not older
  -- than the duration.
  abbrev pub blocks_candidate : ℕ → ℕ → CandidateAction Num → ToolExecutionLog Num → Bool
  blocks_candidate cooldown now c e =
      leb now (e.created_at + cooldown)
      && str_eq (action_value e.action_type) (action_value c.action_type)
      && (agree "menu_item_id" e.payload c.payload
          && agree "ingredient_id" e.payload c.payload
          && agree "supplier_sku_id" e.payload c.payload
          && agree "staff_shift_id" e.payload c.payload)
      && (e.executed || elim e.critic_approved [ none ↦ false | some b ↦ b ])

  given_key :
      (k : String) (v : Value Num) (xs : List (String × String))
      → is_null v ≡ false
      → elim v as (λ _. List (String × String)) [ null ↦ xs | u ↦ (k, str_of u) ∷ xs ]
        ≡ (k, str_of v) ∷ xs
  given_key k null xs h = absurd (ground arith)
  given_key k (bool b) xs h = refl
  given_key k (num x) xs h = refl
  given_key k (text s) xs h = refl
  given_key k (arr vs) xs h = refl
  given_key k (obj fs) xs h = refl

  missing_key :
      (k : String) (v : Value Num) (xs : List (String × String))
      → is_null v ≡ true
      → elim v as (λ _. List (String × String)) [ null ↦ xs | u ↦ (k, str_of u) ∷ xs ] ≡ xs
  missing_key k null xs h = refl
  missing_key k (bool b) xs h = absurd (ground arith)
  missing_key k (num x) xs h = absurd (ground arith)
  missing_key k (text s) xs h = absurd (ground arith)
  missing_key k (arr vs) xs h = absurd (ground arith)
  missing_key k (obj fs) xs h = absurd (ground arith)

  target_of-given :
      (k : String) (ks : List String) (p : Payload Num)
      → is_null (get k p) ≡ false
      → target_of N (k ∷ ks) p ≡ (k, str_of (get k p)) ∷ target_of N ks p
  unfolding target_of
  target_of-given k ks p h = given_key k (get k p) (target_of N ks p) h

  target_of-missing :
      (k : String) (ks : List String) (p : Payload Num)
      → is_null (get k p) ≡ true
      → target_of N (k ∷ ks) p ≡ target_of N ks p
  unfolding target_of
  target_of-missing k ks p h = missing_key k (get k p) (target_of N ks p) h

  target_of-none : (p : Payload Num) → target_of N [] p ≡ []
  unfolding target_of
  target_of-none p = refl

  -- a key that the other payload leaves out
  target_of-lacks :
      (k v : String) (xs : List (String × String)) (ks : List String) (q : Payload Num)
      → Fresh k ks
      → (same_target ((k, v) ∷ xs) (target_of N ks q) ≡ false)
        × (same_target (target_of N ks q) ((k, v) ∷ xs) ≡ false)
  unfolding same_target Fresh
  target_of-lacks k v xs [] q h = rw (target_of-none q) (refl, refl)
  target_of-lacks k v xs (j ∷ ks) q h = elim (Bool-cases (is_null (get j q))) [
    | inl missing ↦ rw (target_of-missing j ks q missing) (target_of-lacks k v xs ks q h.1)
    | inr given ↦ rw (target_of-given j ks q given) (ground (arith, h.0.0), ground (arith, h.0.1))
  ]

  same_target-agree_on :
      (ks : List String) (p q : Payload Num)
      → Distinct ks
      → same_target (target_of N ks p) (target_of N ks q) ≡ agree_on ks p q
  unfolding same_target Distinct
  same_target-agree_on [] p q h = rw (target_of-none p) (rw (target_of-none q) refl)
  same_target-agree_on (k ∷ ks) p q h = elim (Bool-cases (is_null (get k p))) [
    | inl missing ↦ elim (Bool-cases (is_null (get k q))) [
      | inl lost ↦ rw (target_of-missing k ks p missing) (
          rw (target_of-missing k ks q lost)
            (same_target-agree_on ks p q h.1 ∙ ground (arith, missing, lost)))
      | inr given ↦ rw (target_of-missing k ks p missing) (
          rw (target_of-given k ks q given) (
            (target_of-lacks k (str_of (get k q)) (target_of N ks q) ks p h.0).1
            ∙ ground (arith, missing, given)))
    ]
    | inr given ↦ elim (Bool-cases (is_null (get k q))) [
      | inl lost ↦ rw (target_of-given k ks p given) (
          rw (target_of-missing k ks q lost) (
            (target_of-lacks k (str_of (get k p)) (target_of N ks p) ks q h.0).0
            ∙ ground (arith, given, lost)))
      | inr both ↦ rw (target_of-given k ks p given) (
          rw (target_of-given k ks q both)
            (ground (arith, given, both, eq_iff k k, same_target-agree_on ks p q h.1)))
    ]
  ]

  target_keys-Distinct : Distinct (target_keys N)
  unfolding Distinct Fresh
  target_keys-Distinct = (
    ((refl, refl), ((refl, refl), ((refl, refl), tt))),
    (((refl, refl), ((refl, refl), tt)), (((refl, refl), tt), (tt, tt))),
  )

  still_recent : (a now : ℕ) → not (ltb a now) ≡ leb now a
  still_recent a now = ground arith

  voted :
      (executed : Bool) (vote : Option Bool)
      → (executed || is_true vote && not executed)
        ≡ (executed || elim vote [ none ↦ false | some b ↦ b ])
  voted executed none = ground arith
  voted executed (some b) = ground arith

  keys_agree :
      (p q : Payload Num)
      → same_target (target N p) (target N q) ≡ (
          agree "menu_item_id" p q
          && agree "ingredient_id" p q
          && agree "supplier_sku_id" p q
          && agree "staff_shift_id" p q)
  unfolding target
  keys_agree p q =
      same_target-agree_on (target_keys N) p q target_keys-Distinct
      ∙ four (agree "menu_item_id" p q) (agree "ingredient_id" p q) (agree "supplier_sku_id" p q)
          (agree "staff_shift_id" p q)
    where
      four : (a b c d : Bool) → (a && (b && (c && (d && true)))) ≡ (a && b && c && d)
      four a b c d = ground arith

  arrange :
      (x u y z v w t : Bool) → x ≡ u → z ≡ v → w ≡ t → (x && (y && z && w)) ≡ (u && y && v && t)
  arrange x u y z v w t h k l = ground arith

  blocks_now-blocks_candidate :
      (cooldown now : ℕ) (c : CandidateAction Num) (e : ToolExecutionLog Num)
      → blocks_now cooldown now c e ≡ blocks_candidate cooldown now c e
  unfolding blocks_again
  blocks_now-blocks_candidate cooldown now c e =
      arrange _ _ (str_eq (action_value e.action_type) (action_value c.action_type)) _ _ _ _
        (still_recent (e.created_at + cooldown) now) (keys_agree e.payload c.payload)
        (voted e.executed e.critic_approved)

  any-same :
      (f g : ToolExecutionLog Num → Bool)
      → ((e : ToolExecutionLog Num) → f e ≡ g e)
      → (rows : List (ToolExecutionLog Num)) → any f rows ≡ any g rows
  any-same f g h [] = refl
  any-same f g h (e ∷ rows) = ground (arith, h e, any-same f g h rows)

  -- With a duration above zero, a candidate is in cooldown exactly when one of the tenant's 500 newest
  -- rows of the action log is within the window, has its action type, was executed or approved by the
  -- critic, and agrees with it on each of menu_item_id, ingredient_id, supplier_sku_id and
  -- staff_shift_id: left out by both, or of the same text. The early exit at the first row that is too
  -- old loses none.
  pub in_cooldown_iff_blocked :
      (t : ℕ) (c : CandidateAction Num) (cooldown now : ℕ) (s : Store Num)
      → (cooldown == 0) ≡ false
      → in_cooldown N t c cooldown now s
        ≡ ok (any (blocks_candidate cooldown now c) (take 500 (tenant_rows t s)))
  unfolding in_cooldown get_action_log
  in_cooldown_iff_blocked t c cooldown now s h = rw h (
      ap ok (
        scan-any cooldown now c (take 500 (tenant_rows t s))
          (Ordered-take newer 500 (tenant_rows t s) (tenant_rows-Ordered t s))
        ∙ any-same (blocks_now cooldown now c) (blocks_candidate cooldown now c)
            (blocks_now-blocks_candidate cooldown now c) (take 500 (tenant_rows t s))))
