-- ===== src/Examples/Data.antt =====
-- Numbers in ten-thousandths, a digest that copies the source, and one restaurant with one dish.
use Prim.Native.Nat.{◌/◌, ◌%◌}
use restaurant_ops_copilot.Prelude.{
  ℕ, ◌+◌, ◌-◌, ◌*◌, String, Bool, true, false, Option, none, some, [], ◌∷◌, ltb, leb, ◌==◌,
  if◌then◌else◌, ok,
}
use restaurant_ops_copilot.Values.{Numbers, Value, num, text, Payload, ActionType, simulated}
use restaurant_ops_copilot.EventStore.Tables.{Tables}
use restaurant_ops_copilot.EventStore.Append.{Digest}
use restaurant_ops_copilot.Decisions.{PredictedOutcome, Decision}
use restaurant_ops_copilot.ToolResult.{ActualOutcome}
use restaurant_ops_copilot.Tools.{Store, Surroundings}

pub data Fixed : Type 0 where
  plus minus : ℕ → Fixed

abbrev magnitude : Fixed → ℕ
magnitude (plus n) = n
magnitude (minus n) = n

abbrev difference : ℕ → ℕ → Fixed
difference m n = if ltb m n then minus (n - m) else plus (m - n)

abbrev pub add_fixed : Fixed → Fixed → Fixed
add_fixed (plus m) (plus n) = plus (m + n)
add_fixed (plus m) (minus n) = difference m n
add_fixed (minus m) (plus n) = difference n m
add_fixed (minus m) (minus n) = minus (m + n)

abbrev pub negate : Fixed → Fixed
negate (plus n) = minus n
negate (minus n) = plus n

abbrev pub quotient : Fixed → Fixed → Fixed
quotient (plus m) (plus n) = plus (m * 10000 / n)
quotient (plus m) (minus n) = minus (m * 10000 / n)
quotient (minus m) (plus n) = minus (m * 10000 / n)
quotient (minus m) (minus n) = plus (m * 10000 / n)

abbrev product : Fixed → Fixed → Fixed
product (plus m) (plus n) = plus (m * n / 10000)
product (plus m) (minus n) = minus (m * n / 10000)
product (minus m) (plus n) = minus (m * n / 10000)
product (minus m) (minus n) = plus (m * n / 10000)

abbrev rounded : Fixed → Fixed
rounded (plus m) = plus ((m + 5000) / 10000 * 10000)
rounded (minus m) = minus ((m + 5000) / 10000 * 10000)

-- half away from zero, as the database rounds
abbrev cents_of : Fixed → Fixed
cents_of (plus m) = plus ((m + 50) / 100 * 100)
cents_of (minus m) = minus ((m + 50) / 100 * 100)

abbrev le_fixed : Fixed → Fixed → Bool
le_fixed (plus m) (plus n) = leb m n
le_fixed (plus m) (minus n) = m == 0
le_fixed (minus m) (plus n) = true
le_fixed (minus m) (minus n) = leb n m

abbrev lt_fixed : Fixed → Fixed → Bool
lt_fixed a b = if le_fixed b a then false else true

abbrev decimal_of : Value Fixed → Option Fixed
decimal_of (num x) = some x
decimal_of _ = none

abbrev text_of : Value Fixed → String
text_of (text s) = s
text_of _ = ""

abbrev pub fixed : Numbers
fixed = record {
  Num = Fixed;
  hundredths = λ n. plus (n * 100);
  is_finite = λ x. true;
  is_integer = λ x. magnitude x % 10000 == 0;
  abs_int = λ x. magnitude x / 10000;
  exact = λ x. some x;
  parse = λ s. none;
  add = λ a b. some (add_fixed a b);
  mul = λ a b. some (product a b);
  sub = λ a b. some (add_fixed a (negate b));
  div = λ a b. if magnitude b == 0 then none else some (quotient a b);
  abs = λ x. plus (magnitude x);
  round_half_up = λ x. some (rounded x);
  to_float = λ x. x;
  lt = lt_fixed;
  le = le_fixed;
  eq = λ a b. if le_fixed a b then le_fixed b a else false;
  is_nan = λ x. false;
  cents = cents_of;
  ten_thousandths = λ x. x;
  column = λ x. x;
  json = λ x. x;
  decimal = decimal_of;
  int_of = decimal_of;
  str_of = text_of;
}

abbrev pub copying : Digest Fixed
copying = record { compute_sha256_hash = λ prev k p now source. source }

-- a dish at 10.00, to be sold at 10.50
abbrev pub menu : Tables Fixed
menu = record {
  tenants = 1 ∷ [];
  events = [];
  ingredients = [];
  skus = [];
  suppliers = [];
  menu_items =
      record {
        tenant_id = 1;
        id = "soup";
        name = "Soup";
        current_price = plus 100000;
        active = true;
      }
      ∷ [];
  shifts = [];
  inventory = [];
  history = [];
}

abbrev pub raise_price : Payload Fixed
raise_price = ("menu_item_id", text "soup") ∷ ("new_price", num (plus 105000)) ∷ []

abbrev pub prediction : PredictedOutcome Fixed
prediction = record {
  margin_change_pct = plus 300;
  demand_change_pct = minus 100;
  stockout_risk = plus 0;
  confidence = plus 9000;
}

abbrev pub outcome : ActualOutcome Fixed
outcome = record { margin_change_pct = plus 200; demand_change_pct = minus 100 }

abbrev pub shop : Store Fixed
shop = record { world = menu; decisions = []; approvals = []; keys = []; log = [] }

abbrev pub calm : Surroundings Fixed
calm = record {
  decision_id = 5;
  approval_id = 6;
  event_id = 7;
  now = 100;
  simulate = ok prediction;
  observe = λ d. ok outcome;
  lock = none;
}

-- a decision that waits for its execution
abbrev pub waiting : ActionType → Payload Fixed → Decision Fixed
waiting a p = record {
  id = 5;
  tenant_id = 1;
  action_type = a;
  action_payload = p;
  predicted_outcome = prediction;
  confidence = plus 9000;
  confidence_threshold_cleared = true;
  status = simulated;
  actual_outcome = none;
  calibration_error = none;
}

abbrev pub same_print : ActionType → Payload Fixed → String
same_print a p = "fp"
