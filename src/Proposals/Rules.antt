-- ===== src/Proposals/Rules.antt =====
-- What the rules of Component_3/reasoning.py propose.
use mathlib.Core.Path.{subst}
use restaurant_ops_copilot.Prelude.{
  ◌≤◌, ◌≡◌, refl, ap, inl, inr, String, true, false, Option, none, some, List, [], ◌∷◌, Result, ok,
  err, arith, any, All, length, str_eq, Option-cases,
}
use restaurant_ops_copilot.Prelude.Fallible.{◌>>=◌}
use restaurant_ops_copilot.Values.{Numbers, Value, num, text, price_change}
use restaurant_ops_copilot.Proposals.{
  CandidateAction, Opportunity, deterministic, margin_deterioration, demand_decline,
  stockout_exposure,
}
use restaurant_ops_copilot.Proposals.Deterministic.{
  proposed_price, restoring_price, margin_price, discounted_price, demand_price, price_candidate,
  names_item, margin_candidate, demand_candidate, generate_candidate_actions,
}

module _ (N : Numbers) where
  open N use {Num, hundredths, is_finite, le}

  -- A candidate of the rules: a finite price above zero for an item that the opportunity names.
  pub record Ruled (c : CandidateAction Num) (o : Opportunity Num) : Type 0 where
    pub item : String
    pub price : Num
    pub opportunity_is : c.opportunity_id ≡ o.id
    pub action_is : c.action_type ≡ price_change
    pub payload_is : c.payload ≡ ("menu_item_id", text item) ∷ ("new_price", num price) ∷ []
    pub item_named : any (str_eq item) o.affected_entity_ids ≡ true
    pub price_finite : is_finite price ≡ true
    pub price_positive : le price (hundredths 0) ≡ false
    pub source_is : c.source ≡ deterministic

  abbrev Sellable : Num → Type 0
  Sellable p = (is_finite p ≡ true) × (le p (hundredths 0) ≡ false)

  proposed_price-Sellable : (d p : Num) → proposed_price N d ≡ some p → Sellable p
  unfolding proposed_price
  proposed_price-Sellable d p h = ground arith

  restoring_price-Sellable : (now q p : Num) → restoring_price N now q ≡ ok (some p) → Sellable p
  unfolding restoring_price
  restoring_price-Sellable now q p h = elim (Option-cases (N.add now (hundredths 25))) [
    | inl failed ↦ ground (arith, proposed_price-Sellable q p)
    | inr (up, added) ↦ ground (arith, proposed_price-Sellable q p, proposed_price-Sellable up p)
  ]

  margin_price-Sellable :
      (x y : Option Num) (p : Num) → margin_price N x y ≡ ok (some p) → Sellable p
  unfolding margin_price
  margin_price-Sellable none y p h = absurd (ground arith)
  margin_price-Sellable (some now) none p h = absurd (ground arith)
  margin_price-Sellable (some now) (some cost) p h =
      elim (Option-cases (N.sub (hundredths 100) (hundredths 35))) [
        | inl failed ↦ ground arith
        | inr (d, subtracted) ↦ elim (Option-cases (N.div cost d)) [
          | inl failed ↦ ground arith
          | inr (q, divided) ↦ ground (arith, restoring_price-Sellable now q p)
        ]
      ]

  demand_price-Sellable : (x : Option Num) (p : Num) → demand_price N x ≡ ok (some p) → Sellable p
  unfolding demand_price discounted_price
  demand_price-Sellable none p h = absurd (ground arith)
  demand_price-Sellable (some now) p h =
      elim (Option-cases (N.sub (hundredths 100) (hundredths 5))) [
        | inl failed ↦ ground arith
        | inr (factor, subtracted) ↦ elim (Option-cases (N.mul now factor)) [
          | inl failed ↦ ground arith
          | inr (q, multiplied) ↦ ground (arith, proposed_price-Sellable q p)
        ]
      ]

  names_item-named :
      (v : Value Num) (o : Opportunity Num) (item : String)
      → names_item N v o ≡ some item
      → any (str_eq item) o.affected_entity_ids ≡ true
  unfolding names_item
  names_item-named v o item h = ground arith

  -- at most one candidate, and a ruled one
  abbrev pub Rules : Opportunity Num → List (CandidateAction Num) → Type 0
  Rules o cs = (length cs ≤ 1) × All (λ c. Ruled c o) cs

  price_candidate-Rules :
      (o : Opportunity Num) (item rationale : String) (assumptions : List String) (x : Option Num)
      → any (str_eq item) o.affected_entity_ids ≡ true
      → ((p : Num) → x ≡ some p → Sellable p)
      → Rules o (price_candidate N o item rationale assumptions x)
  unfolding price_candidate
  price_candidate-Rules o item rationale assumptions none named sells = (ground arith, tt)
  price_candidate-Rules o item rationale assumptions (some p) named sells =
      let (finite, positive) = sells p refl in
      (
        ground arith,
        (
          record {
            item = item;
            price = p;
            opportunity_is = refl;
            action_is = refl;
            payload_is = refl;
            item_named = named;
            price_finite = finite;
            price_positive = positive;
            source_is = refl;
          },
          tt,
        ),
      )

  empty-Rules : (o : Opportunity Num) (cs : List (CandidateAction Num)) → [] ≡ cs → Rules o cs
  empty-Rules o cs same = subst (Rules o) same (ground arith, tt)

  -- the form of both rules: an item, then a price
  rule-Rules :
      (o : Opportunity Num) (rationale : String) (assumptions : List String) (item : Option String)
      (price : Result (Option Num)) (cs : List (CandidateAction Num))
      → ((i : String) → item ≡ some i → any (str_eq i) o.affected_entity_ids ≡ true)
      → ((p : Num) → price ≡ ok (some p) → Sellable p)
      → elim item [
        | none ↦ ok []
        | some i ↦ price >>= λ p. ok (price_candidate N o i rationale assumptions p)
      ]
        ≡ ok cs
      → Rules o cs
  rule-Rules o rationale assumptions none price cs named sells h = empty-Rules o cs (ground arith)
  rule-Rules o rationale assumptions (some i) (err e) cs named sells h = absurd (ground arith)
  rule-Rules o rationale assumptions (some i) (ok x) cs named sells h =
      let same : price_candidate N o i rationale assumptions x ≡ cs = ground arith in
      subst (Rules o) same (
        price_candidate-Rules o i rationale assumptions x (named i refl) (λ p e. sells p (ap ok e)))

  -- The rules give at most one candidate: a price change, to a finite price above zero, of the item
  -- in the evidence, which the opportunity names.
  pub generate-Rules :
      (o : Opportunity Num) (cs : List (CandidateAction Num))
      → generate_candidate_actions N o ≡ ok cs
      → Rules o cs
  unfolding generate_candidate_actions margin_candidate demand_candidate
  generate-Rules o cs h =
      elim o.opportunity_type
          as (λ k.
            elim k [
              | margin_deterioration ↦ margin_candidate N o
              | demand_decline ↦ demand_candidate N o
              | stockout_exposure ↦ ok []
            ]
              ≡ ok cs
            → Rules o cs) [
              | margin_deterioration ↦
                  rule-Rules o _ _ _ _ cs (names_item-named _ o) (margin_price-Sellable _ _)
              | demand_decline ↦
                  rule-Rules o _ _ _ _ cs (names_item-named _ o) (demand_price-Sellable _)
              | stockout_exposure ↦ λ e. empty-Rules o cs (ground arith)
            ]
        h
