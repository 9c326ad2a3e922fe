-- ===== src/Examples/Events.antt =====
-- The event log, with one change of a price.
use restaurant_ops_copilot.Prelude.{
  ◌≡◌, ◌≢◌, refl, arith, eq_iff, some, [], ◌∷◌, find, map, false, String, true, List, ok, err,
  chain_corrupted,
}
use restaurant_ops_copilot.Text.{strip, is_blank}
use restaurant_ops_copilot.Values.{Value, Payload, entry, text, num, menu_price_change}
use restaurant_ops_copilot.EventStore.Tables.{Tables, Event, is_menu_item}
use restaurant_ops_copilot.EventStore.Append.{
  append_event, verify_chain_integrity, tenant_events, head_hash, genesis_hash,
}
use restaurant_ops_copilot.EventStore.Append.Tamper.{verified_tamper_evident, SameLog}
use restaurant_ops_copilot.EventStore.Append.Isolation.{append_keeps_other_chains}
use restaurant_ops_copilot.EventStore.Append.Repriced.{Repriced, price_event_reprices}
use restaurant_ops_copilot.EventStore.Append.Chain.{append-verifies, append_padded_corrupts}
use restaurant_ops_copilot.EventStore.Handlers.{apply_to_current_state}
use restaurant_ops_copilot.EventStore.Handlers.Menu.{apply_menu_price_change}
use restaurant_ops_copilot.Examples.Data.{plus, Fixed, fixed, copying, menu, raise_price}

abbrev repriced : String → Tables Fixed
repriced source = (append_event fixed copying 7 100 1 menu_price_change raise_price source menu).1

append-verifies_example : verify_chain_integrity fixed copying 1 (repriced "owner") ≡ ok true
unfolding verify_chain_integrity append_event apply_to_current_state apply_menu_price_change strip
append-verifies_example =
    append-verifies fixed copying 7 100 1 menu_price_change raise_price "owner" menu
      (repriced "owner") tt refl refl refl

padded_apart : (prev : String) → ◌≢◌ {A = String} "owner " "owner"
padded_apart prev e = let same : false ≡ true = (eq_iff _ _).1 e in ground arith

append_padded_corrupts_example :
    verify_chain_integrity fixed copying 1 (repriced "owner ") ≡ err chain_corrupted
unfolding verify_chain_integrity append_event apply_to_current_state apply_menu_price_change strip
append_padded_corrupts_example =
    append_padded_corrupts fixed copying 7 100 1 menu_price_change raise_price "owner " menu
      (repriced "owner ") tt padded_apart refl refl

abbrev logged : List (Event Fixed)
logged = tenant_events 1 (repriced "owner")

-- the same events as rows of another database
abbrev restored : List (Event Fixed)
restored = map {A = Event Fixed} (λ e. record e { id = 70; tenant_id = 3 }) logged

no_genesis : ◌≡◌ {A = String} "owner" genesis_hash → ⊥
no_genesis e = let same : false ≡ true = (eq_iff _ _).1 e in ground arith

verified_tamper_evident_example : SameLog fixed copying logged restored
unfolding verify_chain_integrity append_event apply_to_current_state apply_menu_price_change
    tenant_events strip head_hash
verified_tamper_evident_example =
    verified_tamper_evident fixed copying logged restored refl refl
      (((λ e. (refl, refl, refl, refl, refl)), tt), tt) (no_genesis, tt) (no_genesis, tt) refl

append_keeps_other_chains_example :
    (tenant_events 2 (repriced "owner ") ≡ tenant_events 2 menu)
    × (verify_chain_integrity fixed copying 2 (repriced "owner ")
        ≡ verify_chain_integrity fixed copying 2 menu)
append_keeps_other_chains_example =
    append_keeps_other_chains fixed copying 7 100 1 2 menu_price_change raise_price "owner " menu
      refl

-- 10.505 is stored as 10.51, in a payload with a further field in front.
abbrev odd_price : Payload Fixed
odd_price =
    ("note", text "season") ∷ ("new_price", num (plus 105050)) ∷ ("menu_item_id", text "soup") ∷ []

abbrev oddly : Tables Fixed
oddly = (append_event fixed copying 7 100 1 menu_price_change odd_price "owner" menu).1

rounded_row :
    find (is_menu_item 1 "soup") oddly.menu_items
    ≡ some (record {
      tenant_id = 1;
      id = "soup";
      name = "Soup";
      current_price = plus 105100;
      active = true;
    })
unfolding append_event apply_to_current_state apply_menu_price_change is_blank
rounded_row = refl

price_event_reprices_example :
    (item : Value Fixed) × (price : Value Fixed) × (entry "menu_item_id" odd_price ≡ some item)
    × (entry "new_price" odd_price ≡ some price)
    × Repriced fixed 1 item price menu.menu_items oddly.menu_items
unfolding append_event apply_to_current_state apply_menu_price_change is_blank
price_event_reprices_example =
    price_event_reprices fixed copying 7 100 1 odd_price "owner" menu oddly _ refl
