-- ===== src/EventStore/Replay/Step.antt =====
-- One event replayed, and `reconstruct_state_at` (Component_1/event_store.py).
use Prim.Native.String.{◌++◌ as append_text}
use restaurant_ops_copilot.Prelude.{
  ℕ, String, true, false, Option, none, some, List, [], ◌∷◌, ◌++◌, Result, ok, err, or_raise, find,
  filter_rows, length, leb, str_eq, ◌==◌, ◌&&◌, invalid_operation, unbound_local,
}
use restaurant_ops_copilot.Prelude.Fallible.{◌>>=◌}
use restaurant_ops_copilot.Values.{
  Numbers, Value, null, arr, nil, Payload, entry, get, EventType, supplier_price_change,
  supplier_switch_event, stockout, restock, inventory_adjustment, waste_recorded, demand_spike,
  order_recorded, menu_item_added, menu_item_removed, menu_price_change, staffing_change_event,
  invoice_recorded,
}
use restaurant_ops_copilot.EventStore.Tables.{Tables, Event, SupplierSku, to_decimal}
use restaurant_ops_copilot.EventStore.Append.{sort_events}
use restaurant_ops_copilot.EventStore.Replay.{
  look_up, change_at, key_of, MenuItemState, ReplayState, new_ingredient, new_menu_item,
  empty_state,
}

-- `sku_to_ingredient.get(k)`
unfoldable pub sku_to_ingredient : ℕ → String → List SupplierSku → Option String
sku_to_ingredient t i skus = elim (find (λ r. r.tenant_id == t && str_eq r.id i) skus) [
  | none ↦ none
  | some r ↦ some r.ingredient_id
]

module _ {Num : Type 0} where
  -- `payload.get(k, [])`
  abbrev get_list : String → Payload Num → Value Num
  get_list k p = elim (entry k p) [ none ↦ arr nil | some v ↦ v ]

  -- `d[f] = payload[k]` where `k in payload`
  abbrev pub keep_or : Option (Value Num) → Option (Value Num) → Option (Value Num)
  keep_or none old = old
  keep_or (some v) old = some v

  -- the new price of the SKU's ingredient
  unfoldable pub price_ingredient :
      Option String → Option (Value Num) → ReplayState Num → ReplayState Num
  price_ingredient none price s = s
  price_ingredient (some i) none s = s
  price_ingredient (some i) (some v) s = record s {
    ingredients =
        change_at (some i) new_ingredient (λ r. record r { current_price = some v }) s.ingredients;
  }

  unfoldable pub replay_supplier_price :
      ℕ → List SupplierSku → Event Num → Option String → ReplayState Num → ReplayState Num
  replay_supplier_price t skus e none s = s
  replay_supplier_price t skus e (some k) s =
      price_ingredient (sku_to_ingredient t k skus) (entry "new_price" e.payload) (record s {
        supplier_prices =
            change_at (some k) (record { price = null; effective_at = 0 })
              (λ r. record { price = get "new_price" e.payload; effective_at = e.timestamp })
              s.supplier_prices;
      })

  unfoldable pub replay_supplier_switch :
      Event Num → Option String → ReplayState Num → ReplayState Num
  replay_supplier_switch e none s = s
  replay_supplier_switch e (some i) s = record s {
    ingredients =
        change_at (some i) new_ingredient
          (λ r. record r {
            supplier_id = keep_or (entry "new_supplier_id" e.payload) r.supplier_id;
          })
          s.ingredients;
  }

  unfoldable pub replay_menu : EventType → Payload Num → MenuItemState Num → MenuItemState Num
  replay_menu menu_price_change p r = record r {
    current_price = keep_or (entry "new_price" p) r.current_price;
  }
  replay_menu menu_item_removed p r = record r { active = some false }
  replay_menu menu_item_added p r = record r {
    active = some true;
    name = keep_or (entry "name" p) r.name;
    current_price = keep_or (entry "current_price" p) (keep_or (entry "price" p) r.current_price);
  }
  replay_menu k p r = r

  unfoldable pub replay_item : Event Num → Option String → ReplayState Num → ReplayState Num
  replay_item e none s = s
  replay_item e (some i) s = record s {
    menu_items = change_at (some i) new_menu_item (replay_menu e.event_type e.payload) s.menu_items;
  }

  abbrev replay_order : Event Num → ReplayState Num → ReplayState Num
  replay_order e s = record s {
    orders =
        s.orders
        ++ record {
          order_id = get "order_id" e.payload;
          ordered_at = e.timestamp;
          lines = get_list "lines" e.payload;
        }
          ∷ [];
  }

  abbrev replay_invoice : Event Num → ReplayState Num → ReplayState Num
  replay_invoice e s = record s {
    invoices =
        s.invoices
        ++ record {
          invoice_id = get "invoice_id" e.payload;
          supplier_id = get "supplier_id" e.payload;
          invoice_number = get "invoice_number" e.payload;
          total_amount = get "total_amount" e.payload;
          lines = get_list "lines" e.payload;
          invoice_date = e.timestamp;
        }
          ∷ [];
  }

  abbrev replay_demand : Event Num → ReplayState Num → ReplayState Num
  replay_demand e s = record s {
    informational_events = s.informational_events ++ (e.timestamp, e.payload) ∷ [];
  }

  -- the tenant's events up to a time, in order
  unfoldable pub events_until : ℕ → ℕ → Tables Num → List (Event Num)
  events_until t at s =
      sort_events (filter_rows (λ e. e.tenant_id == t && leb e.timestamp at) s.events)

module _ (N : Numbers) where
  open N use {Num, hundredths, add, sub, str_of, to_float}

  -- the key `f"{role}:{day}"`, if neither is None
  unfoldable pub replay_staffing :
      Value Num → Value Num → Event Num → ReplayState Num → ReplayState Num
  replay_staffing null day e s = s
  replay_staffing role null e s = s
  replay_staffing role day e s = record s {
    staffing =
        change_at (some (append_text (str_of role) (append_text ":" (str_of day))))
          (record { role = role; day_of_week = day; headcount = null })
          (λ r. record { role = role; day_of_week = day; headcount = get "headcount" e.payload })
          s.staffing;
  }

  -- the level of an ingredient after an event, from the one before it
  unfoldable pub next_level : EventType → Payload Num → Num → Result Num
  next_level stockout p q = ok (hundredths 0)
  next_level restock p q = elim (entry "new_stock_level" p) [
    | none ↦ ok q
    | some v ↦ to_decimal N v
  ]
  next_level inventory_adjustment p q = elim (entry "new_stock_level" p) [
    | some v ↦ to_decimal N v
    | none ↦ elim (entry "stock_delta" p) [
      | none ↦ ok q
      | some v ↦ do x ← to_decimal N v; or_raise (add q x) invalid_operation
    ]
  ]
  next_level waste_recorded p q = do
    x ← elim (entry "quantity" p) [ none ↦ ok (hundredths 0) | some v ↦ to_decimal N v ]
    or_raise (sub q x) invalid_operation
  next_level k p q = ok q

  -- `state["inventory"].setdefault(i, Decimal("0"))`
  abbrev level_before : String → ReplayState Num → Num
  level_before i s = elim (look_up (some i) s.inventory) [ none ↦ hundredths 0 | some q ↦ q ]

  -- `state["waste"].append(...)`
  unfoldable pub replay_waste : Event Num → String → ReplayState Num → ReplayState Num
  replay_waste e i s = elim e.event_type [
    | waste_recorded ↦ record s {
      waste =
          s.waste
          ++ record {
            ingredient_id = i;
            quantity = get "quantity" e.payload;
            reason = get "reason" e.payload;
            timestamp = e.timestamp;
          }
            ∷ [];
    }
    | _ ↦ s
  ]

  -- what stands behind the `if`: the level is written under the key, whatever key that is
  unfoldable pub write_level : Option String → Num → ReplayState Num → ReplayState Num
  write_level k q s = record s {
    inventory = change_at k q (λ _. q) s.inventory;
    ingredients =
        change_at k new_ingredient (λ r. record r { stock_level = some (to_float q) })
          s.ingredients;
    last_inventory = some q;
  }

  unfoldable pub replay_inventory :
      Event Num → Option String → ReplayState Num → Result (ReplayState Num)
  replay_inventory e none s = elim s.last_inventory [
    | none ↦ err unbound_local
    | some q ↦ ok (write_level none q s)
  ]
  replay_inventory e (some i) s = do
    q ← next_level e.event_type e.payload (level_before i s)
    ok (write_level (some i) q (replay_waste e i s))

  -- the branch of an event
  unfoldable pub replay_as :
      EventType → ℕ → List SupplierSku → Event Num → ReplayState Num → Result (ReplayState Num)
  replay_as supplier_price_change t skus e s = do
    k ← key_of (get "supplier_sku_id" e.payload)
    ok (replay_supplier_price t skus e k s)
  replay_as supplier_switch_event t skus e s = do
    k ← key_of (get "ingredient_id" e.payload)
    ok (replay_supplier_switch e k s)
  replay_as menu_price_change t skus e s = do
    k ← key_of (get "menu_item_id" e.payload)
    ok (replay_item e k s)
  replay_as menu_item_added t skus e s = do
    k ← key_of (get "menu_item_id" e.payload)
    ok (replay_item e k s)
  replay_as menu_item_removed t skus e s = do
    k ← key_of (get "menu_item_id" e.payload)
    ok (replay_item e k s)
  replay_as order_recorded t skus e s = ok (replay_order e s)
  replay_as invoice_recorded t skus e s = ok (replay_invoice e s)
  replay_as staffing_change_event t skus e s =
      ok (replay_staffing (get "role" e.payload) (get "day_of_week" e.payload) e s)
  replay_as demand_spike t skus e s = ok (replay_demand e s)
  replay_as _ t skus e s = do k ← key_of (get "ingredient_id" e.payload); replay_inventory e k s

  -- the loop
  unfoldable pub replay_all :
      ℕ → List SupplierSku → List (Event Num) → ReplayState Num → Result (ReplayState Num)
  replay_all t skus [] s = ok s
  replay_all t skus (e ∷ es) s = do
    next ← replay_as e.event_type t skus e s
    replay_all t skus es next

  -- `reconstruct_state_at`: the state, and the number of events replayed
  unfoldable pub reconstruct_state_at : ℕ → ℕ → Tables Num → Result (ReplayState Num × ℕ)
  reconstruct_state_at t at s = do
    state ← replay_all t s.skus (events_until t at s) empty_state
    ok (state, length (events_until t at s))
