-- ===== src/EventStore/Stream.antt =====
-- `get_tenant_events` of Component_1/event_store.py.
use restaurant_ops_copilot.Prelude.{
  ℕ, zero, suc, ◌≤◌, ◌≡◌, refl, ap, String, Bool, true, false, Option, none, some, List, [], ◌∷◌,
  Result, ok, err, arith, filter_rows, length, take, str_eq, ◌==◌, ◌&&◌, if◌then◌else◌, value_error,
}
use restaurant_ops_copilot.Values.{
  EventType, supplier_price_change, supplier_switch_event, stockout, restock, inventory_adjustment,
  waste_recorded, demand_spike, order_recorded, menu_item_added, menu_item_removed,
  menu_price_change, staffing_change_event, invoice_recorded,
}
use restaurant_ops_copilot.EventStore.Tables.{Tables, Event}
use restaurant_ops_copilot.EventStore.Append.{sort_events, tenant_events}

-- `EventType.value`
abbrev pub event_value : EventType → String
event_value supplier_price_change = "supplier_price_change"
event_value supplier_switch_event = "supplier_switch"
event_value stockout = "stockout"
event_value restock = "restock"
event_value inventory_adjustment = "inventory_adjustment"
event_value waste_recorded = "waste_recorded"
event_value demand_spike = "demand_spike"
event_value order_recorded = "order_recorded"
event_value menu_item_added = "menu_item_added"
event_value menu_item_removed = "menu_item_removed"
event_value menu_price_change = "menu_price_change"
event_value staffing_change_event = "staffing_change"
event_value invoice_recorded = "invoice_recorded"

module _ {Num : Type 0} where
  abbrev pub of_kind : Option EventType → Event Num → Bool
  of_kind none e = true
  of_kind (some k) e = str_eq (event_value e.event_type) (event_value k)

  unfoldable pub get_tenant_events :
      ℕ → ℕ → Option EventType → Tables Num → Result (List (Event Num))
  get_tenant_events t limit kind s =
      if limit == 0
      then err value_error
      else ok (
          take limit (sort_events (filter_rows (λ e. e.tenant_id == t && of_kind kind e) s.events)))

  filter_rows-all_kinds :
      (t : ℕ) (es : List (Event Num))
      → filter_rows (λ e. e.tenant_id == t && of_kind none e) es
        ≡ filter_rows (λ e. e.tenant_id == t) es
  filter_rows-all_kinds t [] = refl
  filter_rows-all_kinds t (e ∷ es) = ground (arith, filter_rows-all_kinds t es)

  take-whole : (n : ℕ) (es : List (Event Num)) → length es ≤ n → take n es ≡ es
  take-whole zero [] h = refl
  take-whole zero (e ∷ es) h = absurd (omega arith)
  take-whole (suc n) [] h = refl
  take-whole (suc n) (e ∷ es) h = ap (λ l. e ∷ l) (take-whole n es (omega arith))

  -- With a positive limit that is at least the number of the tenant's events and no kind, the stream is
  -- the whole chain that append_event extends and verify_chain_integrity walks.
  stream_is_chain :
      (t limit : ℕ) (s : Tables Num)
      → 1 ≤ limit
      → length (tenant_events t s) ≤ limit
      → get_tenant_events t limit none s ≡ ok (tenant_events t s)
  unfolding get_tenant_events tenant_events
  stream_is_chain t limit s positive fits =
      let given : (limit == 0) ≡ false = ground arith in
      rw given
        (rw (filter_rows-all_kinds t s.events) (ap ok (take-whole limit (tenant_events t s) fits)))
