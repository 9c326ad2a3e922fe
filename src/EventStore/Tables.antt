-- ===== src/EventStore/Tables.antt =====
-- The tables that the event store writes (Component_1/models.py), and its tenant-scoped lookups.
-- A tenant is its UUID, a number; the ids of rows are texts, as payloads name them. What a `Numeric`
-- column gives back is the number that was written: its rounding is not modelled here.
use restaurant_ops_copilot.Prelude.{
  ℕ, String, Bool, Option, List, Exec, Result, ok, err, lift, gets, or_raise, ◌>>=◌, invalid_event,
  event_store, invalid_operation, find, str_eq, ◌==◌, ◌&&◌, if◌then◌else◌,
}
use restaurant_ops_copilot.Values.{Numbers, Value, null, text, Payload, get, EventType}

pub record Ingredient (Num : Type 0) : Type 0 where
  pub tenant_id : ℕ
  pub id : String
  pub current_price : Num
  pub current_stock_level : Num
  pub current_supplier_id : Option String

pub record SupplierSku : Type 0 where
  pub tenant_id : ℕ
  pub id : String
  pub ingredient_id : String
  pub supplier_id : String

pub record Supplier : Type 0 where
  pub tenant_id : ℕ
  pub id : String

pub record MenuItem (Num : Type 0) : Type 0 where
  pub tenant_id : ℕ
  pub id : String
  pub name : String
  pub current_price : Num
  pub active : Bool

pub record StaffShift (Num : Type 0) : Type 0 where
  pub tenant_id : ℕ
  pub id : Option String
  pub role : String
  pub day_of_week : Num
  pub headcount : Num

pub record InventoryLevel (Num : Type 0) : Type 0 where
  pub tenant_id : ℕ
  pub ingredient_id : String
  pub quantity : Num
  pub updated_at : ℕ

-- The history rows, each with the columns that the handlers fill.
pub data History (Num : Type 0) : Type 0 where
  supplier_price : ℕ → String → Num → ℕ → History Num
  waste : ℕ → String → Num → String → ℕ → History Num
  sales_order : ℕ → Value Num → ℕ → History Num
  sales_order_line : ℕ → Value Num → String → Num → Num → History Num
  order_volume : ℕ → String → ℕ → Num → History Num
  invoice : ℕ → Value Num → String → String → ℕ → Num → History Num
  invoice_line : ℕ → Value Num → String → Num → Num → History Num

pub record Event (Num : Type 0) : Type 0 where
  pub id : ℕ
  pub tenant_id : ℕ
  pub event_type : EventType
  pub payload : Payload Num
  pub source : String
  pub hash : String
  pub previous_hash : String
  pub timestamp : ℕ

pub record Tables (Num : Type 0) : Type 0 where
  pub tenants : List ℕ
  pub events : List (Event Num)
  pub ingredients : List (Ingredient Num)
  pub skus : List SupplierSku
  pub suppliers : List Supplier
  pub menu_items : List (MenuItem Num)
  pub shifts : List (StaffShift Num)
  pub inventory : List (InventoryLevel Num)
  pub history : List (History Num)

module _ {Num : Type 0} where
  -- A text column compared with a payload's value: the database rejects any other type.
  abbrev pub id_of : Value Num → Result String
  id_of (text s) = ok s
  id_of _ = err event_store

  -- `_require_payload_field`
  unfoldable pub require_payload_field : Payload Num → String → Result (Value Num)
  require_payload_field p k = elim (get k p) [ null ↦ err invalid_event | v ↦ ok v ]

  abbrev pub is_ingredient : ℕ → String → Ingredient Num → Bool
  is_ingredient t i r = r.tenant_id == t && str_eq r.id i

  abbrev pub is_menu_item : ℕ → String → MenuItem Num → Bool
  is_menu_item t i r = r.tenant_id == t && str_eq r.id i

  abbrev pub is_inventory : ℕ → String → InventoryLevel Num → Bool
  is_inventory t i r = r.tenant_id == t && str_eq r.ingredient_id i

  -- `_get_ingredient`
  unfoldable pub get_ingredient : ℕ → Value Num → Exec (Tables Num) (Ingredient Num)
  get_ingredient t v = do
    i ← lift (id_of v)
    found ← gets (λ s. find (is_ingredient t i) s.ingredients)
    lift (or_raise found invalid_event)

  -- `_get_menu_item`
  unfoldable pub get_menu_item : ℕ → Value Num → Exec (Tables Num) (MenuItem Num)
  get_menu_item t v = do
    i ← lift (id_of v)
    found ← gets (λ s. find (is_menu_item t i) s.menu_items)
    lift (or_raise found invalid_event)

  -- `_get_supplier`
  unfoldable pub get_supplier : ℕ → Value Num → Exec (Tables Num) Supplier
  get_supplier t v = do
    i ← lift (id_of v)
    found ← gets (λ s. find (λ r. r.tenant_id == t && str_eq r.id i) s.suppliers)
    lift (or_raise found invalid_event)

  -- `_get_supplier_sku`
  unfoldable pub get_supplier_sku : ℕ → Value Num → Exec (Tables Num) SupplierSku
  get_supplier_sku t v = do
    i ← lift (id_of v)
    found ← gets (λ s. find (λ r. r.tenant_id == t && str_eq r.id i) s.skus)
    lift (or_raise found invalid_event)

module _ (N : Numbers) where
  open N use {Num, hundredths, is_nan, decimal, lt, le}

  -- `_decimal`
  unfoldable pub to_decimal : Value Num → Result Num
  to_decimal v = or_raise (decimal v) invalid_event

  -- `if x < 0: raise InvalidEventError`; an order with a NaN raises
  unfoldable pub reject_negative : Num → Result (Unit {0})
  reject_negative x =
      if is_nan x
      then err invalid_operation
      else if lt x (hundredths 0)
      then err invalid_event
      else ok tt

  -- `if x <= 0: raise InvalidEventError`
  unfoldable pub reject_not_positive : Num → Result (Unit {0})
  reject_not_positive x =
      if is_nan x
      then err invalid_operation
      else if le x (hundredths 0)
      then err invalid_event
      else ok tt
