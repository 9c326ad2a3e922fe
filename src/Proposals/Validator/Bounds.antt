-- ===== src/Proposals/Validator/Bounds.antt =====
-- What passes Component_3/candidate_validator.py.
use mathlib.Core.Path.{subst}
use restaurant_ops_copilot.Prelude.{
  ◌≡◌, ◌↔◌, ◌⊎◌, inl, inr, refl, ap, sym, ◌∙◌, String, true, false, Option, none, some, [], ◌∷◌, ok,
  arith, any, str_eq, eq_iff, not, ◌||◌, All, Bool-cases,
}
use restaurant_ops_copilot.Values.{
  Numbers, Value, null, bool, num, text, arr, obj, Payload, entry, get, price_change,
}
use restaurant_ops_copilot.Proposals.{CandidateAction, Opportunity}
use restaurant_ops_copilot.Proposals.Validator.{
  has_price_change_keys, strict_decimal, within_limit, is_empty, check_item,
  validate_price_change_against_opportunity, domain_check, validate_candidate_against_opportunity,
}

module _ (N : Numbers) where
  open N use {Num, hundredths, is_finite, exact, sub, div, abs, le}

  -- A number of the JSON, with its finite decimal value.
  abbrev pub FiniteNumber : Value Num → Num → Type 0
  FiniteNumber v d = (raw : Num) × (v ≡ num raw) × (exact raw ≡ some d) × (is_finite d ≡ true)

  -- The item and the price, and no other field.
  abbrev pub OnlyKeys : Payload Num → Type 0
  OnlyKeys p = All (λ e. (e.0 ≡ "menu_item_id") ⊎ (e.0 ≡ "new_price")) p

  -- A price above zero that differs by at most 30% from a current price above zero.
  pub record WithinLimit (proposed now : Value Num) : Type 0 where
    pub price : Num
    pub current : Num
    pub difference : Num
    pub ratio : Num
    pub price_is : FiniteNumber proposed price
    pub current_is : FiniteNumber now current
    pub price_positive : le price (hundredths 0) ≡ false
    pub current_positive : le current (hundredths 0) ≡ false
    pub difference_is : sub price current ≡ some difference
    pub ratio_is : div (abs difference) current ≡ some ratio
    pub ratio_bounded : le ratio (hundredths 30) ≡ true

  -- A price change, with exactly the two keys, of an item that the opportunity names.
  pub record Verified (c : CandidateAction Num) (o : Opportunity Num) : Type 0 where
    pub item : String
    pub opportunity_is : str_eq c.opportunity_id o.id ≡ true
    pub action_is : c.action_type ≡ price_change
    pub new_price : Value Num
    pub only_keys : OnlyKeys c.payload
    pub item_is : entry "menu_item_id" c.payload ≡ some (text item)
    pub price_is : entry "new_price" c.payload ≡ some new_price
    pub item_given : str_eq item "" ≡ false
    pub item_named : any (str_eq item) o.affected_entity_ids ≡ true
    pub limit : WithinLimit new_price (get "current_price" o.evidence)

  strict_decimal-FiniteNumber :
      (v : Value Num) (d : Num) → strict_decimal N v ≡ some d → FiniteNumber v d
  unfolding strict_decimal
  strict_decimal-FiniteNumber (num x) d h = (x, refl, ground arith, ground arith)
  strict_decimal-FiniteNumber null d h = absurd (ground arith)
  strict_decimal-FiniteNumber (bool b) d h = absurd (ground arith)
  strict_decimal-FiniteNumber (text s) d h = absurd (ground arith)
  strict_decimal-FiniteNumber (arr xs) d h = absurd (ground arith)
  strict_decimal-FiniteNumber (obj fs) d h = absurd (ground arith)

  FiniteNumber-strict_decimal :
      (v : Value Num) (d : Num) → FiniteNumber v d → strict_decimal N v ≡ some d
  unfolding strict_decimal
  FiniteNumber-strict_decimal v d (x, is, e, k) = rw is (ground arith)

  known-OnlyKeys :
      (p : Payload Num)
      → any (λ e. not (str_eq e.0 "menu_item_id" || str_eq e.0 "new_price")) p ≡ false
      → OnlyKeys p
  known-OnlyKeys [] h = tt
  known-OnlyKeys (e ∷ p) h = elim (Bool-cases (str_eq e.0 "menu_item_id")) [
    | inl item ↦ (inl (ground (arith, eq_iff e.0 "menu_item_id")), known-OnlyKeys p (ground arith))
    | inr other ↦ (inr (ground (arith, eq_iff e.0 "new_price")), known-OnlyKeys p (ground arith))
  ]

  OnlyKeys-known :
      (p : Payload Num)
      → OnlyKeys p
      → any (λ e. not (str_eq e.0 "menu_item_id" || str_eq e.0 "new_price")) p ≡ false
  OnlyKeys-known [] h = refl
  OnlyKeys-known (e ∷ p) (inl item, hs) =
      ground (arith, eq_iff e.0 "menu_item_id", OnlyKeys-known p hs)
  OnlyKeys-known (e ∷ p) (inr price, hs) =
      ground (arith, eq_iff e.0 "new_price", OnlyKeys-known p hs)

  entry-get : (k : String) (p : Payload Num) (v : Value Num) → entry k p ≡ some v → get k p ≡ v
  entry-get k p v h = ground arith

  any-entry :
      (k : String) (p : Payload Num)
      → any (λ e. str_eq e.0 k) p ≡ true
      → (v : Value Num) × (entry k p ≡ some v)
  any-entry k [] h = absurd (ground arith)
  any-entry k (e ∷ p) h = elim (Bool-cases (str_eq e.0 k)) [
    | inl found ↦ (e.1, ground arith)
    | inr other ↦ let (v, later) = any-entry k p (ground arith) in (v, ground (arith, later))
  ]

  entry-any :
      (k : String) (p : Payload Num) (v : Value Num)
      → entry k p ≡ some v
      → any (λ e. str_eq e.0 k) p ≡ true
  entry-any k [] v h = absurd (ground arith)
  entry-any k (e ∷ p) v h = ground (arith, entry-any k p v)

  keys-known :
      (p : Payload Num)
      → has_price_change_keys p ≡ true
      → OnlyKeys p
        × ((v : Value Num) × (entry "menu_item_id" p ≡ some v))
        × ((v : Value Num) × (entry "new_price" p ≡ some v))
  unfolding has_price_change_keys
  keys-known p h = (
    known-OnlyKeys p (ground arith),
    any-entry "menu_item_id" p (ground arith),
    any-entry "new_price" p (ground arith),
  )

  known-keys :
      (p : Payload Num) (v w : Value Num)
      → OnlyKeys p
      → entry "menu_item_id" p ≡ some v
      → entry "new_price" p ≡ some w
      → has_price_change_keys p ≡ true
  unfolding has_price_change_keys
  known-keys p v w h hv hw =
      ground
        (arith, OnlyKeys-known p h, entry-any "menu_item_id" p v hv, entry-any "new_price" p w hw)

  numbers-pass :
      (price current : Num)
      → within_limit N (some price) (some current) ≡ ok true
      → (d : Num) × (ratio : Num) × (le price (hundredths 0) ≡ false)
        × (le current (hundredths 0) ≡ false)
        × (sub price current ≡ some d)
        × (div (abs d) current ≡ some ratio)
        × (le ratio (hundredths 30) ≡ true)
  unfolding within_limit
  numbers-pass price current h = ground arith

  -- the numbers behind an answer `true`
  limit-passes :
      (x y : Option Num)
      → within_limit N x y ≡ ok true
      → (price : Num) × (current : Num) × (d : Num) × (ratio : Num) × (x ≡ some price)
        × (y ≡ some current)
        × (le price (hundredths 0) ≡ false)
        × (le current (hundredths 0) ≡ false)
        × (sub price current ≡ some d)
        × (div (abs d) current ≡ some ratio)
        × (le ratio (hundredths 30) ≡ true)
  unfolding within_limit
  limit-passes none y h = absurd (ground arith)
  limit-passes (some price) none h = absurd (ground arith)
  limit-passes (some price) (some current) h =
      let (d, ratio, up, low, s, r, b) = numbers-pass price current h in
      (price, current, d, ratio, refl, refl, up, low, s, r, b)

  within_limit-WithinLimit :
      (proposed now : Value Num)
      → within_limit N (strict_decimal N proposed) (strict_decimal N now) ≡ ok true
      → WithinLimit proposed now
  within_limit-WithinLimit proposed now h =
      let (price, current, d, ratio, p, q, up, low, s, r, b) =
        limit-passes (strict_decimal N proposed) (strict_decimal N now) h in
      record {
        price = price;
        current = current;
        difference = d;
        ratio = ratio;
        price_is = strict_decimal-FiniteNumber proposed price p;
        current_is = strict_decimal-FiniteNumber now current q;
        price_positive = up;
        current_positive = low;
        difference_is = s;
        ratio_is = r;
        ratio_bounded = b;
      }

  WithinLimit-within_limit :
      (proposed now : Value Num)
      → WithinLimit proposed now
      → within_limit N (strict_decimal N proposed) (strict_decimal N now) ≡ ok true
  unfolding within_limit
  WithinLimit-within_limit proposed now q =
      let p = FiniteNumber-strict_decimal proposed q.price q.price_is in
      let c = FiniteNumber-strict_decimal now q.current q.current_is in
      rw (p, c)
        (ground (
          arith, q.price_positive, q.current_positive, q.difference_is, q.ratio_is, q.ratio_bounded,
        ))

  -- Where a candidate passes the check against its opportunity.
  abbrev pub Passes : CandidateAction Num → Opportunity Num → Type 0
  Passes c o = validate_candidate_against_opportunity N c o ≡ ok true

  check_item-passes :
      (v : Value Num) (p : Payload Num) (o : Opportunity Num)
      → check_item N v p o ≡ ok true
      → (item : String) × (v ≡ text item)
        × (is_empty N item ≡ false)
        × (any (str_eq item) o.affected_entity_ids ≡ true)
        × (within_limit N
              (strict_decimal N (get "new_price" p))
              (strict_decimal N (get "current_price" o.evidence))
            ≡ ok true)
  unfolding check_item
  check_item-passes (text item) p o h = (item, refl, ground arith, ground arith, ground arith)
  check_item-passes null p o h = absurd (ground arith)
  check_item-passes (bool b) p o h = absurd (ground arith)
  check_item-passes (num x) p o h = absurd (ground arith)
  check_item-passes (arr vs) p o h = absurd (ground arith)
  check_item-passes (obj fs) p o h = absurd (ground arith)

  Passes-checked :
      (c : CandidateAction Num) (o : Opportunity Num)
      → Passes c o
      → (str_eq c.opportunity_id o.id ≡ true)
        × (c.action_type ≡ price_change)
        × (has_price_change_keys c.payload ≡ true)
        × (check_item N (get "menu_item_id" c.payload) c.payload o ≡ ok true)
  unfolding validate_candidate_against_opportunity domain_check
      validate_price_change_against_opportunity
  Passes-checked c o h = ground arith

  pub Passes-Verified : (c : CandidateAction Num) (o : Opportunity Num) → Passes c o → Verified c o
  Passes-Verified c o h =
      let (same, action, keys, checked) = Passes-checked c o h in
      let (only, (v, item_is), (w, price_is)) = keys-known c.payload keys in
      let (item, is, given, named, limit) = check_item-passes _ c.payload o checked in
      let own : get "menu_item_id" c.payload ≡ v = entry-get "menu_item_id" c.payload v item_is in
      let price : get "new_price" c.payload ≡ w = entry-get "new_price" c.payload w price_is in
      record {
        item = item;
        new_price = w;
        opportunity_is = same;
        action_is = action;
        only_keys = only;
        item_is = item_is ∙ ap some (sym own ∙ is);
        price_is = price_is;
        item_given = given;
        item_named = named;
        limit = within_limit-WithinLimit w _ (
            subst
              (λ z.
                within_limit N (strict_decimal N z)
                  (strict_decimal N (get "current_price" o.evidence))
                ≡ ok true)
              price limit);
      }

  Verified-checked :
      (c : CandidateAction Num) (o : Opportunity Num)
      → Verified c o
      → check_item N (get "menu_item_id" c.payload) c.payload o ≡ ok true
  unfolding check_item
  Verified-checked c o v =
      let own : get "menu_item_id" c.payload ≡ text v.item =
        entry-get "menu_item_id" c.payload (text v.item) v.item_is in
      let price : get "new_price" c.payload ≡ v.new_price =
        entry-get "new_price" c.payload v.new_price v.price_is in
      let within = WithinLimit-within_limit v.new_price (get "current_price" o.evidence) v.limit in
      rw own (rw price (ground (arith, v.item_given, v.item_named, within)))

  Verified-Passes : (c : CandidateAction Num) (o : Opportunity Num) → Verified c o → Passes c o
  unfolding validate_candidate_against_opportunity domain_check
      validate_price_change_against_opportunity
  Verified-Passes c o v =
      let keys = known-keys c.payload (text v.item) v.new_price v.only_keys v.item_is v.price_is in
      rw v.action_is (ground (arith, v.opportunity_is, keys, Verified-checked c o v))

  -- A candidate passes the check against an opportunity exactly when it is a price change for that
  -- opportunity, with the item and the price as its only fields, of an item that the opportunity
  -- names, to a finite price above zero that is at most 30% away from the finite current price above
  -- zero in the opportunity's evidence.
  pub validate_iff : (c : CandidateAction Num) (o : Opportunity Num) → Passes c o ↔ Verified c o
  validate_iff c o = (Passes-Verified c o, Verified-Passes c o)
