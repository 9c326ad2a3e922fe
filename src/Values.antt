-- ===== src/Values.antt =====
-- The dynamic values that the program handles: JSON payloads, and Python's numbers.
-- The enumerations are those of Component_1/models.py.
use restaurant_ops_copilot.Prelude.{
  ℕ, String, Bool, Option, none, some, List, [], ◌∷◌, str_eq, if◌then◌else◌,
}

mutual
  pub data Value (Num : Type 0) : Type 0 where
    null : Value Num
    bool : Bool → Value Num
    num : Num → Value Num
    text : String → Value Num
    arr : Items Num → Value Num
    obj : Fields Num → Value Num

  pub data Items (Num : Type 0) : Type 0 where
    nil : Items Num
    cons : Value Num → Items Num → Items Num

  pub data Fields (Num : Type 0) : Type 0 where
    end : Fields Num
    field : String → Value Num → Fields Num → Fields Num

-- int, float and Decimal, as the code uses them. No law is assumed of the operations, so what is
-- proved holds of every rounding; `none` means that Python raises.
pub record Numbers : Type 1 where
  pub Num : Type 0
  -- a constant of the source, in hundredths
  pub hundredths : ℕ → Num
  -- `math.isfinite(x)`, `Decimal.is_finite()`
  pub is_finite : Num → Bool
  -- `float.is_integer()`, `x == x.to_integral_value()`; an int always is one
  pub is_integer : Num → Bool
  -- `abs(int(x))` of an integer-valued number, and whether it is negative
  pub abs_int : Num → ℕ
  -- `Decimal(x)` of an int or Decimal, `Decimal(str(x))` of a float
  pub exact : Num → Option Num
  -- `Decimal(s)` of a text
  pub parse : String → Option Num
  pub add : Num → Num → Option Num
  pub mul : Num → Num → Option Num
  pub sub : Num → Num → Option Num
  pub div : Num → Num → Option Num
  pub abs : Num → Num
  -- `x.quantize(Decimal("1"), rounding=ROUND_HALF_UP)` and `float(x)`
  pub round_half_up : Num → Option Num
  pub to_float : Num → Num
  pub lt : Num → Num → Bool
  pub le : Num → Num → Bool
  pub eq : Num → Num → Bool
  -- `Decimal.is_nan()`: an order with such a number raises
  pub is_nan : Num → Bool
  -- what a `Numeric` column of scale 2 and one of scale 4 give back: a value that does not fit is a
  -- failure of the database
  pub cents : Num → Num
  pub ten_thousandths : Num → Num
  -- what a `Numeric(5, 4)` column gives back, and what a number is after a JSON round trip
  pub column : Num → Num
  pub json : Num → Num
  -- `Decimal(str(v))`, `int(v)` and `str(v)`
  pub decimal : Value Num → Option Num
  pub int_of : Value Num → Option Num
  pub str_of : Value Num → String

-- A payload, `dict[str, Any]`, in insertion order.
abbrev pub Payload : Type 0 → Type 0
Payload Num = List (String × Value Num)

module _ {Num : Type 0} where
  -- `payload[k]`; `none` where `k not in payload`
  abbrev pub entry : String → Payload Num → Option (Value Num)
  entry k [] = none
  entry k ((j, v) ∷ p) = if str_eq j k then some v else entry k p

  -- `payload.get(k)`
  abbrev pub get : String → Payload Num → Value Num
  get k p = elim (entry k p) [ none ↦ null | some v ↦ v ]

pub data ActionType : Type 0 where
  price_change supplier_switch menu_swap staffing_change : ActionType

pub data DecisionStatus : Type 0 where
  proposed simulated held_low_confidence executed evaluated : DecisionStatus

pub data EventType : Type 0 where
  supplier_price_change supplier_switch_event stockout restock : EventType
  inventory_adjustment waste_recorded demand_spike order_recorded : EventType
  menu_item_added menu_item_removed menu_price_change staffing_change_event : EventType
  invoice_recorded : EventType
