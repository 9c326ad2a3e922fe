-- ===== src/Examples/Replays.antt =====
-- The log of one dish whose price has changed, replayed.
use restaurant_ops_copilot.Prelude.{refl, none, some, [], ◌∷◌, Result, arith}
use restaurant_ops_copilot.Values.{num, menu_price_change}
use restaurant_ops_copilot.Text.{is_blank}
use restaurant_ops_copilot.EventStore.Tables.{Tables, Event}
use restaurant_ops_copilot.EventStore.Handlers.{apply_to_current_state}
use restaurant_ops_copilot.EventStore.Handlers.Menu.{apply_menu_price_change}
use restaurant_ops_copilot.EventStore.Append.{
  append_event, new_event, genesis_hash, tenant_events, head_hash, sort_events,
}
use restaurant_ops_copilot.EventStore.Replay.{change_at, ReplayState, empty_state}
use restaurant_ops_copilot.EventStore.Replay.Step.{
  replay_menu, replay_item, replay_as, replay_all, events_until, reconstruct_state_at,
}
use restaurant_ops_copilot.EventStore.Replay.Menu.Refines.{Priced}
use restaurant_ops_copilot.EventStore.Replay.Menu.Reachable.{
  start, appended, projection_refines_replay,
}
use restaurant_ops_copilot.Examples.Data.{Fixed, plus, fixed, copying, menu, raise_price}

abbrev repricing : Result (Event Fixed) × Tables Fixed
repricing = append_event fixed copying 7 100 1 menu_price_change raise_price "agent" menu

abbrev price_event : Event Fixed
price_event = new_event fixed copying 7 100 1 menu_price_change raise_price "agent" genesis_hash

abbrev replayed : ReplayState Fixed
replayed = record empty_state {
  menu_items =
      (some "soup", record { current_price = some (num (plus 105000)); active = none; name = none })
      ∷ [];
}

projection_refines_replay_example : Priced fixed 1 repricing.1.menu_items replayed.menu_items
unfolding append_event apply_to_current_state apply_menu_price_change is_blank tenant_events
    head_hash sort_events reconstruct_state_at events_until replay_all replay_as replay_item
    replay_menu change_at
projection_refines_replay_example =
    projection_refines_replay fixed copying repricing.1 1 200 1 replayed
      (appended menu repricing.1 7 100 1 menu_price_change raise_price "agent" price_event
        (start menu refl) tt refl)
      (ground arith, tt) refl
