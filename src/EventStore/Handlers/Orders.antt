-- ===== src/EventStore/Handlers/Orders.antt =====
-- Orders and invoices, header and lines.
use restaurant_ops_copilot.Prelude.{
  String, Option, none, some, Result, ok, err, ◌∷◌, [], ◌++◌, Exec, pure, lift, modify, or_raise,
  raise_if, ◌>>=◌, ◌>>◌, invalid_event, type_error, value_error, str_eq, not,
}
use restaurant_ops_copilot.Values.{
  Numbers, Value, text, arr, obj, Items, nil, cons, Fields, end, field, Payload, entry, get,
}
use restaurant_ops_copilot.EventStore.Tables.{
  Tables, Event, History, sales_order, sales_order_line, order_volume, invoice, invoice_line,
  require_payload_field, get_menu_item, get_supplier, get_supplier_sku, to_decimal, reject_negative,
  reject_not_positive,
}

module _ (N : Numbers) where
  open N use {Num, hundredths, le, int_of, str_of, parse, cents, ten_thousandths}

  pairs : Fields Num → Payload Num
  pairs end = []
  pairs (field k v fs) = (k, v) ∷ pairs fs

  -- `line.get(...)`: only a dictionary has it
  line_fields : Value Num → Result (Payload Num)
  unfolding pairs
  line_fields (obj fs) = ok (pairs fs)
  line_fields _ = err type_error

  abbrev note : History Num → Exec (Tables Num) (Unit {0})
  note h = modify (λ s. record s { history = s.history ++ h ∷ [] })

  -- one turn of the loop of `_apply_order_recorded`
  unfoldable pub order_line : Event Num → Value Num → Exec (Tables Num) (Unit {0})
  unfolding line_fields require_payload_field to_decimal reject_negative get_menu_item
  order_line e line = do
    p ← lift (line_fields line)
    i ← lift (require_payload_field p "menu_item_id")
    n ← lift (require_payload_field p "quantity")
    quantity ← lift (or_raise (int_of n) value_error)
    v ← lift (require_payload_field p "unit_price")
    price ← lift (to_decimal N v)
    raise_if (le quantity (hundredths 0)) invalid_event
    lift (reject_negative N price)
    item ← get_menu_item e.tenant_id i
    note (sales_order_line e.tenant_id (get "order_id" e.payload) item.id quantity (cents price))
    note (order_volume e.tenant_id item.id e.timestamp quantity)

  unfoldable pub order_lines : Event Num → Items Num → Exec (Tables Num) (Unit {0})
  order_lines e nil = pure tt
  order_lines e (cons line lines) = do order_line e line; order_lines e lines

  -- `lines` has to be a non-empty list
  order_items : Value Num → Result (Items Num)
  order_items (arr (cons line lines)) = ok (cons line lines)
  order_items _ = err invalid_event

  unfoldable pub order_header : Event Num → Exec (Tables Num) (Items Num)
  unfolding order_items
  order_header e = do
    lines ← lift (order_items (get "lines" e.payload))
    note (sales_order e.tenant_id (get "order_id" e.payload) e.timestamp)
    pure lines

  -- `_apply_order_recorded`
  unfoldable pub apply_order_recorded : Event Num → Exec (Tables Num) (Unit {0})
  apply_order_recorded e = do lines ← order_header e; order_lines e lines

  -- one turn of the loop of `_apply_invoice_recorded`
  unfoldable pub invoice_entry : Event Num → String → Value Num → Exec (Tables Num) (Unit {0})
  unfolding line_fields require_payload_field to_decimal reject_negative reject_not_positive
      get_supplier_sku
  invoice_entry e supplier line = do
    p ← lift (line_fields line)
    k ← lift (require_payload_field p "supplier_sku_id")
    n ← lift (require_payload_field p "quantity")
    quantity ← lift (to_decimal N n)
    v ← lift (require_payload_field p "unit_price")
    price ← lift (to_decimal N v)
    lift (reject_not_positive N quantity)
    lift (reject_negative N price)
    sku ← get_supplier_sku e.tenant_id k
    raise_if (not (str_eq sku.supplier_id supplier)) invalid_event
    note (
        invoice_line e.tenant_id (get "invoice_id" e.payload) sku.id (ten_thousandths quantity)
          (cents price))

  unfoldable pub invoice_lines : Event Num → String → Items Num → Exec (Tables Num) (Unit {0})
  invoice_lines e supplier nil = pure tt
  invoice_lines e supplier (cons line lines) = do
    invoice_entry e supplier line
    invoice_lines e supplier lines

  -- `payload.get("lines", [])`, which has to be a list
  lines_field : Option (Value Num) → Result (Items Num)
  lines_field none = ok nil
  lines_field (some (arr xs)) = ok xs
  lines_field (some _) = err invalid_event

  -- `payload.get("total_amount", "0")`
  total_field : Option (Value Num) → Value Num
  total_field none = text "0"
  total_field (some v) = v

  unfoldable pub invoice_header : Event Num → Exec (Tables Num) (String × Items Num)
  unfolding require_payload_field to_decimal reject_negative get_supplier lines_field total_field
  invoice_header e = do
    k ← lift (require_payload_field e.payload "supplier_id")
    number ← lift (require_payload_field e.payload "invoice_number")
    supplier ← get_supplier e.tenant_id k
    total ← lift (to_decimal N (total_field (entry "total_amount" e.payload)))
    lift (reject_negative N total)
    note (
        invoice e.tenant_id (get "invoice_id" e.payload) supplier.id (str_of number) e.timestamp
          (cents total))
    lines ← lift (lines_field (entry "lines" e.payload))
    pure (supplier.id, lines)

  -- `_apply_invoice_recorded`
  unfoldable pub apply_invoice_recorded : Event Num → Exec (Tables Num) (Unit {0})
  apply_invoice_recorded e = do h ← invoice_header e; invoice_lines e h.0 h.1
