-- ===== src/EventStore/Replay/Menu/Reachable.antt =====
-- Every menu that appends can lead to agrees with its replay (Component_1/event_store.py).
use mathlib.Core.Path.{subst, sym}
use restaurant_ops_copilot.Prelude.{
  ℕ, ◌≤◌, ◌≡◌, refl, ap, ◌∙◌, String, some, List, [], ◌∷◌, ◌++◌, ok, arith, inl, inr, Result-cases,
  Bool-cases, All, filter_rows, leb, ◌==◌, ◌&&◌,
}
use restaurant_ops_copilot.Values.{Numbers, Payload, EventType}
use restaurant_ops_copilot.EventStore.Tables.{Tables, Event}
use restaurant_ops_copilot.EventStore.Handlers.{apply_to_current_state}
use restaurant_ops_copilot.EventStore.Append.{
  Digest, sort_events, new_event, head_hash, tenant_events, append_event,
}
use restaurant_ops_copilot.EventStore.Append.Chain.{
  IsLatest, before-new, tenant_events-append, append-events,
}
use restaurant_ops_copilot.EventStore.Append.Isolation.{append-other_events}
use restaurant_ops_copilot.EventStore.Replay.{look_up, MenuItemState, ReplayState, empty_state}
use restaurant_ops_copilot.EventStore.Replay.Step.{replay_all, events_until, reconstruct_state_at}
use restaurant_ops_copilot.EventStore.Replay.Menu.{
  menu_step, menu_after, menu_after-append, replay_all-menu_items,
}
use restaurant_ops_copilot.EventStore.Replay.Menu.Refines.{Priced, applied-Priced}

-- The tables that successful appends lead to from an empty log, by any tenants, each later than the
-- ones before it.
pub data Reachable (N : Numbers) (digest : Digest N.Num) : Tables N.Num → Type 0 where
  start : (s : Tables N.Num) → s.events ≡ [] → Reachable N digest s
  appended :
      (s s' : Tables N.Num) (id now t : ℕ) (k : EventType) (p : Payload N.Num) (source : String)
      (ev : Event N.Num)
      → Reachable N digest s
      → IsLatest N digest now s
      → append_event N digest id now t k p source s ≡ (ok ev, s')
      → Reachable N digest s'

module _ (N : Numbers) (digest : Digest N.Num) where
  open N use {Num, decimal}

  append-applied :
      (id now t : ℕ) (k : EventType) (p : Payload Num) (source : String) (s s' : Tables Num)
      {ev : Event Num}
      → append_event N digest id now t k p source s ≡ (ok ev, s')
      → let e = new_event N digest id now t k p source (head_hash (tenant_events t s)) in
        let s1 : Tables Num = record s { events = s.events ++ e ∷ [] } in
        ((apply_to_current_state N e s1).0 ≡ ok tt)
        × (s'.menu_items ≡ (apply_to_current_state N e s1).1.menu_items)
  unfolding append_event
  append-applied id now t k p source s s' h =
      let e : Event Num = new_event N digest id now t k p source (head_hash (tenant_events t s)) in
      let s1 : Tables Num = record s { events = s.events ++ e ∷ [] } in
      elim (Result-cases (apply_to_current_state N e s1).0) [
        | inr (x, refused) ↦ absurd (ground arith)
        | inl (tt, ran) ↦ (ran, ground arith)
      ]

  append-Priced :
      (id now u t : ℕ) (k : EventType) (p : Payload Num) (source : String) (s s' : Tables Num)
      {ev : Event Num}
      → IsLatest N digest now s
      → append_event N digest id now u k p source s ≡ (ok ev, s')
      → Priced N t s.menu_items (menu_after (tenant_events t s) [])
      → Priced N t s'.menu_items (menu_after (tenant_events t s') [])
  append-Priced id now u t k p source s s' latest done priced =
      let prev : String = head_hash (tenant_events u s) in
      let e : Event Num = new_event N digest id now u k p source prev in
      let s1 : Tables Num = record s { events = s.events ++ e ∷ [] } in
      let (ran, rows) = append-applied id now u k p source s s' done in
      let (own, foreign) = applied-Priced N t e (menu_after (tenant_events t s) []) s1 ran priced in
      elim (Bool-cases (u == t)) [
        | inl same ↦
            let is_own : u ≡ t = ground arith in
            let log =
              tenant_events-append N digest t e s s' is_own
                (before-new N digest id now u k p source prev s.events latest)
                (append-events N digest id now u k p source s s' done) in
            let menu : menu_after (tenant_events t s') []
                ≡ menu_step e (menu_after (tenant_events t s) []) =
              ap (λ l. menu_after l []) log ∙ menu_after-append (tenant_events t s) e [] in
            subst (Priced N t s'.menu_items) (sym menu) (
              subst (λ r. Priced N t r (menu_step e (menu_after (tenant_events t s) []))) (sym rows)
                (own is_own))
        | inr other ↦
            let log : tenant_events t s' ≡ tenant_events t s =
              ap (λ r. tenant_events t r.1) (sym done)
              ∙ append-other_events N digest id now u t k p source s other in
            subst (λ l. Priced N t s'.menu_items (menu_after l [])) (sym log)
              (subst (λ r. Priced N t r (menu_after (tenant_events t s) [])) (sym rows)
                (foreign other))
      ]

  empty_log : (t : ℕ) (s : Tables Num) → s.events ≡ [] → tenant_events t s ≡ []
  unfolding tenant_events sort_events
  empty_log t s h = rw h refl

  nothing_found : (i : String) (m : MenuItemState Num) → look_up (some i) [] ≡ some m → ⊥
  unfolding look_up
  nothing_found i m h = ground arith

  -- the test on times drops nothing where no event is later
  events_until-present :
      (t at : ℕ) (es : List (Event Num))
      → All (λ e. e.timestamp ≤ at) es
      → filter_rows (λ e. e.tenant_id == t && leb e.timestamp at) es
        ≡ filter_rows (λ e. e.tenant_id == t) es
  events_until-present t at [] h = refl
  events_until-present t at (e ∷ es) h = ground (arith, h.0, events_until-present t at es h.1)

  reachable-Priced :
      (s : Tables Num)
      → Reachable N digest s
      → (t : ℕ) → Priced N t s.menu_items (menu_after (tenant_events t s) [])
  reachable-Priced s (start _ empty) t =
      let log : tenant_events t s ≡ [] = empty_log t s empty in
      subst (λ l. Priced N t s.menu_items (menu_after l [])) (sym log)
        (λ i m found v g. absurd (nothing_found i m found))
  reachable-Priced s' (appended s _ id now u k p source ev before latest done) t =
      append-Priced id now u t k p source s s' latest done (reachable-Priced s before t)

  reconstruct-menu_items :
      (t at n : ℕ) (s : Tables Num) (state : ReplayState Num)
      → reconstruct_state_at N t at s ≡ ok (state, n)
      → state.menu_items ≡ menu_after (events_until t at s) []
  unfolding reconstruct_state_at
  reconstruct-menu_items t at n s state h =
      elim (Result-cases (replay_all N t s.skus (events_until t at s) empty_state)) [
        | inr (x, failed) ↦ absurd (ground arith)
        | inl (final, replayed) ↦
            let same : final ≡ state = ground arith in
            sym (ap (λ x. x.menu_items) same)
            ∙ replay_all-menu_items N t s.skus (events_until t at s) empty_state final replayed
      ]

  -- In every state that successful appends of any tenants lead to, each later than those before it,
  -- what the replay of a tenant's log up to the present finds as an item's price, rounded to cents as
  -- the row's column rounds it, is the price of the tenant's menu row: the projections implement the
  -- log.
  pub projection_refines_replay :
      (s : Tables Num) (t at n : ℕ) (state : ReplayState Num)
      → Reachable N digest s
      → All (λ e. e.timestamp ≤ at) s.events
      → reconstruct_state_at N t at s ≡ ok (state, n)
      → Priced N t s.menu_items state.menu_items
  unfolding events_until tenant_events
  projection_refines_replay s t at n state reached past h =
      let all : events_until t at s ≡ tenant_events t s =
        ap sort_events (events_until-present t at s.events past) in
      let menu : state.menu_items ≡ menu_after (tenant_events t s) [] =
        reconstruct-menu_items t at n s state h ∙ ap (λ l. menu_after l []) all in
      subst (Priced N t s.menu_items) (sym menu) (reachable-Priced s reached t)
