-- ===== src/EventStore/Handlers.antt =====
-- The projection handlers of Component_1/event_store.py. Each runs inside the transaction of
-- `append_event`, so a raise undoes what it wrote. Unique keys of the history tables are the
-- database's and are not modelled.
pub mod Inventory
pub mod MenuFields
pub mod Menu
pub mod Supply
pub mod Orders
pub mod Staffing
pub mod Frame
use Inventory.{apply_stockout, apply_restock, apply_inventory_adjustment, apply_waste}
use Menu.{apply_menu_price_change, apply_menu_item_added, apply_menu_item_removed}
use Supply.{apply_supplier_price_change, apply_supplier_switch}
use Orders.{apply_order_recorded, apply_invoice_recorded}
use Staffing.{apply_staffing_change}
use restaurant_ops_copilot.Prelude.{Exec, pure}
use restaurant_ops_copilot.Values.{
  Numbers, EventType, supplier_price_change, supplier_switch_event, stockout, restock,
  inventory_adjustment, waste_recorded, demand_spike, order_recorded, menu_item_added,
  menu_item_removed, menu_price_change, staffing_change_event, invoice_recorded,
}
use restaurant_ops_copilot.EventStore.Tables.{Tables, Event}

module _ (N : Numbers) where
  -- the `handlers` table
  handler_for : EventType → Event N.Num → Exec (Tables N.Num) (Unit {0})
  handler_for supplier_price_change = apply_supplier_price_change N
  handler_for supplier_switch_event = apply_supplier_switch N
  handler_for stockout = apply_stockout N
  handler_for restock = apply_restock N
  handler_for inventory_adjustment = apply_inventory_adjustment N
  handler_for waste_recorded = apply_waste N
  handler_for menu_item_added = apply_menu_item_added N
  handler_for menu_item_removed = apply_menu_item_removed N
  handler_for menu_price_change = apply_menu_price_change N
  handler_for order_recorded = apply_order_recorded N
  handler_for invoice_recorded = apply_invoice_recorded N
  handler_for staffing_change_event = apply_staffing_change N
  handler_for demand_spike = λ e. pure tt

  -- `_apply_to_current_state`
  unfoldable pub apply_to_current_state : Event N.Num → Exec (Tables N.Num) (Unit {0})
  unfolding handler_for
  apply_to_current_state e = handler_for e.event_type e
