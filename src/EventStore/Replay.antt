-- ===== src/EventStore/Replay.antt =====
-- `reconstruct_state_at` of Component_1/event_store.py: the tenant's events replayed into
-- dictionaries. A key of a dictionary is an id of a payload: none, or a text. Any other id raises
-- here; no handler lets one into the log.
pub mod Step
pub mod Menu
use restaurant_ops_copilot.Prelude.{
  ℕ, String, Bool, true, false, Option, none, some, List, [], ◌∷◌, Result, ok, err, str_eq,
  if◌then◌else◌, type_error,
}
use restaurant_ops_copilot.Values.{Value, null, text, Payload}

-- A dict in the order of insertion.
abbrev pub Dict : Type 0 → Type 0
Dict A = List (Option String × A)

abbrev pub same_id : Option String → Option String → Bool
same_id none none = true
same_id (some i) (some j) = str_eq i j
same_id _ _ = false

module _ {A : Type 0} where
  -- `d.get(k)`
  unfoldable pub look_up : Option String → Dict A → Option A
  look_up k [] = none
  look_up k ((j, a) ∷ d) = if same_id j k then some a else look_up k d

  -- `f` on `d.setdefault(k, default)`
  unfoldable pub change_at : Option String → A → (A → A) → Dict A → Dict A
  change_at k default f [] = (k, f default) ∷ []
  change_at k default f ((j, a) ∷ d) =
      let rest = change_at k default f d in if same_id j k then (j, f a) ∷ d else (j, a) ∷ rest

-- an id as a key
abbrev pub key_of : {Num : Type 0} → Value Num → Result (Option String)
key_of null = ok none
key_of (text i) = ok (some i)
key_of _ = err type_error

-- The dicts of one ingredient, one menu item and one supplier price, each with the keys that are set.
pub record IngredientState (Num : Type 0) : Type 0 where
  pub current_price : Option (Value Num)
  pub supplier_id : Option (Value Num)
  pub stock_level : Option Num

pub record MenuItemState (Num : Type 0) : Type 0 where
  pub current_price : Option (Value Num)
  pub active : Option Bool
  pub name : Option (Value Num)

pub record SupplierPrice (Num : Type 0) : Type 0 where
  pub price : Value Num
  pub effective_at : ℕ

pub record ReplayedWaste (Num : Type 0) : Type 0 where
  pub ingredient_id : String
  pub quantity : Value Num
  pub reason : Value Num
  pub timestamp : ℕ

pub record ReplayedOrder (Num : Type 0) : Type 0 where
  pub order_id : Value Num
  pub ordered_at : ℕ
  pub lines : Value Num

pub record ReplayedInvoice (Num : Type 0) : Type 0 where
  pub invoice_id : Value Num
  pub supplier_id : Value Num
  pub invoice_number : Value Num
  pub total_amount : Value Num
  pub lines : Value Num
  pub invoice_date : ℕ

pub record ReplayedStaffing (Num : Type 0) : Type 0 where
  pub role : Value Num
  pub day_of_week : Value Num
  pub headcount : Value Num

-- The dict `state`, with the local variable `inventory`, which outlives its iteration.
pub record ReplayState (Num : Type 0) : Type 0 where
  pub ingredients : Dict (IngredientState Num)
  pub menu_items : Dict (MenuItemState Num)
  pub inventory : Dict Num
  pub supplier_prices : Dict (SupplierPrice Num)
  pub orders : List (ReplayedOrder Num)
  pub waste : List (ReplayedWaste Num)
  pub invoices : List (ReplayedInvoice Num)
  pub staffing : Dict (ReplayedStaffing Num)
  pub informational_events : List (ℕ × Payload Num)
  pub last_inventory : Option Num

module _ {Num : Type 0} where
  abbrev pub new_ingredient : IngredientState Num
  new_ingredient = record { current_price = none; supplier_id = none; stock_level = none }

  abbrev pub new_menu_item : MenuItemState Num
  new_menu_item = record { current_price = none; active = none; name = none }

  abbrev pub empty_state : ReplayState Num
  empty_state = record {
    ingredients = [];
    menu_items = [];
    inventory = [];
    supplier_prices = [];
    orders = [];
    waste = [];
    invoices = [];
    staffing = [];
    informational_events = [];
    last_inventory = none;
  }
