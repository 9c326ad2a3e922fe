-- ===== src/Tools/Resolve.antt =====
-- How Component_4/tool_framework.py completes a compact payload from the tenant's rows. A query
-- with a value that is not a text is an error of the database.
use restaurant_ops_copilot.Prelude.{
  ℕ, String, Bool, true, false, Option, none, some, List, [], ◌∷◌, Result, ok, err, or_raise, find,
  str_eq, ◌==◌, ◌&&◌, if◌then◌else◌, tool_framework, unavailable, type_error,
}
use restaurant_ops_copilot.Prelude.Fallible.{◌>>=◌}
use restaurant_ops_copilot.Values.{
  Numbers, Value, null, bool, num, text, Payload, entry, get, ActionType, price_change,
  supplier_switch,
}
use restaurant_ops_copilot.EventStore.Tables.{
  Tables, StaffShift, SupplierSku, is_ingredient, is_menu_item,
}

abbrev pub is_sku : ℕ → String → SupplierSku → Bool
is_sku t i k = str_eq k.id i && k.tenant_id == t

abbrev serves : ℕ → String → SupplierSku → Bool
serves t i k = k.tenant_id == t && str_eq k.ingredient_id i

abbrev supplied_by : ℕ → String → String → SupplierSku → Bool
supplied_by t i u k = serves t i k && str_eq k.supplier_id u

-- the SKU of the current supplier, if there is one
preferred_sku : ℕ → String → Option String → List SupplierSku → Option SupplierSku
preferred_sku t i none rows = none
preferred_sku t i (some u) rows = find (supplied_by t i u) rows

module _ {Num : Type 0} where
  -- `T.id == v` in a query: null finds no row
  unfoldable pub by_id : {A : Type 0} → (String → A → Bool) → Value Num → List A → Result (Option A)
  by_id has_id null rows = ok none
  by_id has_id (text i) rows = ok (find (has_id i) rows)
  by_id has_id v rows = err unavailable

  -- `sku.ingredient_id != ingredient_id` for a value that is given
  sku_serves : SupplierSku → Value Num → Bool
  sku_serves k null = true
  sku_serves k (text i) = str_eq k.ingredient_id i
  sku_serves k v = false

  -- the explicit SKU of the payload
  explicit_sku : ℕ → Value Num → Value Num → Tables Num → Result String
  unfolding by_id sku_serves
  explicit_sku t sku ingredient s = do
    row ← by_id (is_sku t) sku s.skus
    k ← or_raise row tool_framework
    if sku_serves k ingredient then ok k.id else err tool_framework

  -- the SKU of the current supplier, else any SKU of the ingredient
  ingredient_sku : ℕ → Value Num → Tables Num → Result String
  unfolding by_id preferred_sku
  ingredient_sku t v s = do
    row ← by_id (is_ingredient t) v s.ingredients
    r ← or_raise row tool_framework
    k ←
        or_raise
          (elim (preferred_sku t r.id r.current_supplier_id s.skus) [
            | none ↦ find (serves t r.id) s.skus
            | some k ↦ some k
          ])
          tool_framework
    ok k.id

  -- `_resolve_supplier_sku_id`
  unfoldable pub resolve_supplier_sku_id : ℕ → Payload Num → Tables Num → Result String
  unfolding explicit_sku ingredient_sku
  resolve_supplier_sku_id t p s = elim (get "supplier_sku_id" p) [
    | null ↦ ingredient_sku t (get "ingredient_id" p) s
    | v ↦ explicit_sku t v (get "ingredient_id" p) s
  ]

module _ (N : Numbers) where
  open N use {Num, hundredths, json, add, lt, eq, int_of, str_of}

  -- `_current_value_for_critic`
  unfoldable pub current_value_for_critic :
      ℕ → ActionType → Payload Num → Tables Num → Result (Value Num)
  unfolding by_id
  current_value_for_critic t price_change p s = do
    row ← by_id (is_menu_item t) (get "menu_item_id" p) s.menu_items
    ok (elim row [ none ↦ null | some r ↦ num (json r.current_price) ])
  current_value_for_critic t supplier_switch p s = do
    row ← by_id (is_ingredient t) (get "ingredient_id" p) s.ingredients
    ok (elim row [ none ↦ null | some r ↦ num (json r.current_price) ])
  current_value_for_critic t _ p s = ok null

  -- `int(v)` of a value that is given; `int` raises on what is not a number
  optional_int : Value Num → Result (Option Num)
  optional_int null = ok none
  optional_int v = elim (int_of v) [ none ↦ err tool_framework | some x ↦ ok (some x) ]

  optional_text : Value Num → Option String
  optional_text null = none
  optional_text v = some (str_of v)

  delta_of : Payload Num → Result Num
  delta_of p = elim (entry "headcount_delta" p) [
    | none ↦ err tool_framework
    | some (bool b) ↦ err tool_framework
    | some v ↦ or_raise (int_of v) tool_framework
  ]

  -- the contract's fields, with a headcount that is not negative
  staffing_contract : Option (Value Num) → String → Num → Num → Result (Payload Num)
  staffing_contract shift role day n =
      if lt n (hundredths 0)
      then err tool_framework
      else ok (elim shift [
        | none ↦ ("role", text role) ∷ ("day_of_week", num day) ∷ ("headcount", num n) ∷ []
        | some i ↦
            ("staff_shift_id", i)
            ∷ ("role", text role)
            ∷ ("day_of_week", num day)
            ∷ ("headcount", num n)
            ∷ []
      ])

  abbrev or_else : {A : Type 0} → Option A → A → A
  or_else none a = a
  or_else (some b) a = b

  -- the row's id as a payload holds it
  shift_id : StaffShift Num → Value Num
  shift_id r = elim r.id [ none ↦ null | some i ↦ text i ]

  -- an existing shift, changed by the delta unless a headcount is given
  change_shift :
      Value Num
      → StaffShift Num
      → Option String
      → Option Num
      → Option Num
      → Num
      → Result (Payload Num)
  unfolding staffing_contract
  change_shift i r role day count delta = do
    n ← elim count [ some n ↦ ok n | none ↦ or_raise (add r.headcount delta) type_error ]
    staffing_contract (some i) (or_else role r.role) (or_else day r.day_of_week) n

  abbrev on_shift : ℕ → String → Num → StaffShift Num → Bool
  on_shift t role day r = r.tenant_id == t && str_eq r.role role && eq r.day_of_week day

  -- role and day are given: their shift, or a new one
  change_role_and_day : ℕ → String → Num → Option Num → Num → Tables Num → Result (Payload Num)
  unfolding change_shift shift_id
  change_role_and_day t role day count delta s = elim (find (on_shift t role day) s.shifts) [
    | some r ↦ change_shift (shift_id r) r (some role) (some day) count delta
    | none ↦ staffing_contract none role day (or_else count delta)
  ]

  -- the compact payload: the tenant's first shift, or a new one
  change_any_shift :
      ℕ → Option String → Option Num → Option Num → Num → Tables Num → Result (Payload Num)
  unfolding change_shift shift_id
  change_any_shift t role day count delta s = elim (find (λ r. r.tenant_id == t) s.shifts) [
    | some r ↦ change_shift (shift_id r) r role day count delta
    | none ↦
        staffing_contract none (or_else role "general") (or_else day (hundredths 0))
          (or_else count delta)
  ]

  has_shift_id : ℕ → String → StaffShift Num → Bool
  has_shift_id t i r = elim r.id [ none ↦ false | some j ↦ r.tenant_id == t && str_eq j i ]

  change_given_shift :
      ℕ
      → Value Num
      → Option String
      → Option Num
      → Option Num
      → Num
      → Tables Num
      → Result (Payload Num)
  unfolding change_shift by_id has_shift_id
  change_given_shift t v role day count delta s = do
    row ← by_id (has_shift_id t) v s.shifts
    r ← or_raise row tool_framework
    change_shift v r role day count delta

  -- which shift a change addresses
  change_some_shift :
      ℕ
      → Value Num
      → Option String
      → Option Num
      → Option Num
      → Num
      → Tables Num
      → Result (Payload Num)
  unfolding change_given_shift change_role_and_day change_any_shift
  change_some_shift t null (some role) (some day) count delta s =
      change_role_and_day t role day count delta s
  change_some_shift t null role day count delta s = change_any_shift t role day count delta s
  change_some_shift t v role day count delta s = change_given_shift t v role day count delta s

  -- `_resolve_staffing_event_payload`
  unfoldable pub resolve_staffing_event_payload :
      ℕ → Payload Num → Tables Num → Result (Payload Num)
  unfolding delta_of optional_text optional_int change_some_shift
  resolve_staffing_event_payload t p s = do
    delta ← delta_of p
    day ← optional_int (get "day_of_week" p)
    count ← optional_int (get "headcount" p)
    change_some_shift t (get "staff_shift_id" p) (optional_text (get "role" p)) day count delta s
