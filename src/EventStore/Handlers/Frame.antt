-- ===== src/EventStore/Handlers/Frame.antt =====
-- The projection handlers of Component_1/event_store.py, the event log and the menu.
use restaurant_ops_copilot.Prelude.{
  String, Bool, true, false, ◌≡◌, refl, ap, arith, bind-frame, List,
}
use restaurant_ops_copilot.Values.{
  Numbers, Items, nil, cons, Value, EventType, supplier_price_change, supplier_switch_event,
  stockout, restock, inventory_adjustment, waste_recorded, demand_spike, order_recorded,
  menu_item_added, menu_item_removed, menu_price_change, staffing_change_event, invoice_recorded,
}
use restaurant_ops_copilot.EventStore.Tables.{Tables, Event, MenuItem}
use restaurant_ops_copilot.EventStore.Handlers.Inventory.{
  apply_stockout, apply_restock, apply_inventory_adjustment, apply_waste,
}
use restaurant_ops_copilot.EventStore.Handlers.Menu.{
  apply_menu_price_change, apply_menu_item_added, apply_menu_item_removed, put_item,
}
use restaurant_ops_copilot.EventStore.Handlers.Supply.{
  apply_supplier_price_change, apply_supplier_switch,
}
use restaurant_ops_copilot.EventStore.Handlers.Orders.{
  apply_order_recorded, apply_invoice_recorded, order_line, order_lines, invoice_entry,
  invoice_lines, order_header, invoice_header,
}
use restaurant_ops_copilot.EventStore.Handlers.Staffing.{apply_staffing_change}
use restaurant_ops_copilot.EventStore.Handlers.{handler_for, apply_to_current_state}

abbrev pub is_menu_event : EventType → Bool
is_menu_event menu_price_change = true
is_menu_event menu_item_added = true
is_menu_event menu_item_removed = true
is_menu_event _ = false

module _ (N : Numbers) where
  open N use {Num}

  -- the log and the menu
  abbrev pub kept : Tables Num → List (Event Num) × List (MenuItem Num)
  kept s = (s.events, s.menu_items)

  stockout-kept : (e : Event Num) (s : Tables Num) → kept (apply_stockout N e s).1 ≡ kept s
  unfolding apply_stockout
  stockout-kept e s = ground arith

  restock-kept : (e : Event Num) (s : Tables Num) → kept (apply_restock N e s).1 ≡ kept s
  unfolding apply_restock
  restock-kept e s = ground arith

  adjustment-kept :
      (e : Event Num) (s : Tables Num) → kept (apply_inventory_adjustment N e s).1 ≡ kept s
  unfolding apply_inventory_adjustment
  adjustment-kept e s = ground arith

  waste-kept : (e : Event Num) (s : Tables Num) → kept (apply_waste N e s).1 ≡ kept s
  unfolding apply_waste
  waste-kept e s = ground arith

  supplier_price-kept :
      (e : Event Num) (s : Tables Num) → kept (apply_supplier_price_change N e s).1 ≡ kept s
  unfolding apply_supplier_price_change
  supplier_price-kept e s = ground arith

  switch-kept : (e : Event Num) (s : Tables Num) → kept (apply_supplier_switch N e s).1 ≡ kept s
  unfolding apply_supplier_switch
  switch-kept e s = ground arith

  staffing-kept : (e : Event Num) (s : Tables Num) → kept (apply_staffing_change N e s).1 ≡ kept s
  unfolding apply_staffing_change
  staffing-kept e s = ground arith

  order_line-kept :
      (e : Event Num) (line : Value Num) (s : Tables Num) → kept (order_line N e line s).1 ≡ kept s
  unfolding order_line
  order_line-kept e line s = ground arith

  order_lines-kept :
      (e : Event Num) (lines : Items Num) (s : Tables Num)
      → kept (order_lines N e lines s).1 ≡ kept s
  unfolding order_lines
  order_lines-kept e nil s = refl
  order_lines-kept e (cons line lines) s =
      bind-frame kept (order_line N e line) (λ _. order_lines N e lines) (order_line-kept e line)
        (λ _. order_lines-kept e lines) s

  order_header-kept : (e : Event Num) (s : Tables Num) → kept (order_header N e s).1 ≡ kept s
  unfolding order_header
  order_header-kept e s = ground arith

  order-kept : (e : Event Num) (s : Tables Num) → kept (apply_order_recorded N e s).1 ≡ kept s
  unfolding apply_order_recorded
  order-kept e =
      bind-frame kept (order_header N e) (order_lines N e) (order_header-kept e)
        (order_lines-kept e)

  invoice_entry-kept :
      (e : Event Num) (k : String) (line : Value Num) (s : Tables Num)
      → kept (invoice_entry N e k line s).1 ≡ kept s
  unfolding invoice_entry
  invoice_entry-kept e k line s = ground arith

  invoice_lines-kept :
      (e : Event Num) (k : String) (lines : Items Num) (s : Tables Num)
      → kept (invoice_lines N e k lines s).1 ≡ kept s
  unfolding invoice_lines
  invoice_lines-kept e k nil s = refl
  invoice_lines-kept e k (cons line lines) s =
      bind-frame kept (invoice_entry N e k line) (λ _. invoice_lines N e k lines)
        (invoice_entry-kept e k line) (λ _. invoice_lines-kept e k lines) s

  invoice_header-kept : (e : Event Num) (s : Tables Num) → kept (invoice_header N e s).1 ≡ kept s
  unfolding invoice_header
  invoice_header-kept e s = ground arith

  invoice-kept : (e : Event Num) (s : Tables Num) → kept (apply_invoice_recorded N e s).1 ≡ kept s
  unfolding apply_invoice_recorded
  invoice-kept e =
      bind-frame kept (invoice_header N e) (λ h. invoice_lines N e h.0 h.1) (invoice_header-kept e)
        (λ h. invoice_lines-kept e h.0 h.1)

  price-events :
      (e : Event Num) (s : Tables Num) → (apply_menu_price_change N e s).1.events ≡ s.events
  unfolding apply_menu_price_change
  price-events e s = ground arith

  added-events :
      (e : Event Num) (s : Tables Num) → (apply_menu_item_added N e s).1.events ≡ s.events
  unfolding apply_menu_item_added put_item
  added-events e s = ground arith

  removed-events :
      (e : Event Num) (s : Tables Num) → (apply_menu_item_removed N e s).1.events ≡ s.events
  unfolding apply_menu_item_removed
  removed-events e s = ground arith

  handler_for-kept :
      (k : EventType) (e : Event Num) (s : Tables Num)
      → is_menu_event k ≡ false
      → kept (handler_for N k e s).1 ≡ kept s
  unfolding handler_for
  handler_for-kept supplier_price_change e s h = supplier_price-kept e s
  handler_for-kept supplier_switch_event e s h = switch-kept e s
  handler_for-kept stockout e s h = stockout-kept e s
  handler_for-kept restock e s h = restock-kept e s
  handler_for-kept inventory_adjustment e s h = adjustment-kept e s
  handler_for-kept waste_recorded e s h = waste-kept e s
  handler_for-kept order_recorded e s h = order-kept e s
  handler_for-kept invoice_recorded e s h = invoice-kept e s
  handler_for-kept staffing_change_event e s h = staffing-kept e s
  handler_for-kept demand_spike e s h = refl
  handler_for-kept menu_price_change e s h = absurd (ground arith)
  handler_for-kept menu_item_added e s h = absurd (ground arith)
  handler_for-kept menu_item_removed e s h = absurd (ground arith)

  handler_for-events :
      (k : EventType) (e : Event Num) (s : Tables Num) → (handler_for N k e s).1.events ≡ s.events
  unfolding handler_for
  handler_for-events menu_item_added e s = added-events e s
  handler_for-events menu_item_removed e s = removed-events e s
  handler_for-events menu_price_change e s = price-events e s
  handler_for-events k e s = ap (λ x. x.0) (handler_for-kept k e s refl)

  -- No event changes the log through its projections.
  pub apply_to_current_state-events :
      (e : Event Num) (s : Tables Num) → (apply_to_current_state N e s).1.events ≡ s.events
  unfolding apply_to_current_state
  apply_to_current_state-events e s = handler_for-events e.event_type e s

  -- Only the events of the menu change the menu.
  pub apply_to_current_state-menu_items :
      (e : Event Num) (s : Tables Num)
      → is_menu_event e.event_type ≡ false
      → (apply_to_current_state N e s).1.menu_items ≡ s.menu_items
  unfolding apply_to_current_state
  apply_to_current_state-menu_items e s h = ap (λ x. x.1) (handler_for-kept e.event_type e s h)
