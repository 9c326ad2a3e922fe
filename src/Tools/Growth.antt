-- ===== src/Tools/Growth.antt =====
-- How many events one call of Component_4/tool_framework.py can append.
use restaurant_ops_copilot.Prelude.{
  ℕ, suc, ◌≤◌, ◌≡◌, String, [], ◌∷◌, arith, ◌⊎◌, Result-cases, Bool-cases, Option-cases, inl, inr,
  length, length-append,
}
use restaurant_ops_copilot.Values.{Numbers, Payload, ActionType, menu_price_change}
use restaurant_ops_copilot.EventStore.Append.{Digest, new_event, head_hash, tenant_events}
use restaurant_ops_copilot.EventStore.Append.Chain.{append-events}
use restaurant_ops_copilot.Idempotency.{claim}
use restaurant_ops_copilot.Tools.{Store, Surroundings}
use restaurant_ops_copilot.Tools.Calls.{
  execute_tool_call, answer_of, attempt, execute_tool_call_idempotent,
}
use restaurant_ops_copilot.Tools.Gates.{has_executed, unexecuted_keeps_world}
use restaurant_ops_copilot.Tools.Executed.{executed_through_gates}

module _ (N : Numbers) (digest : Digest N.Num) where
  open N use {Num}

  abbrev pub event_count : Store Num → ℕ
  event_count s = length s.world.events

  execute_tool_call-event_count :
      (w : Surroundings Num) (t : ℕ) (a : ActionType) (p : Payload Num) (s : Store Num)
      → event_count (execute_tool_call N digest w t a p s).1 ≤ suc (event_count s)
  execute_tool_call-event_count w t a p s =
      let r = execute_tool_call N digest w t a p s in
      elim (Bool-cases (has_executed r.0)) [
        | inr refused ↦ rw (unexecuted_keeps_world N digest w t a p s refused) (ground arith)
        | inl done ↦
            let c = executed_through_gates N digest w t a p s done in
            let q = (("menu_item_id", c.written.item) ∷ ("new_price", c.written.price) ∷ []) in
            let grown =
              append-events N digest w.event_id w.now t menu_price_change q "agent_action" s.world
                r.1.world c.written.appended in
            rw grown (
              ground (
                arith,
                length-append s.world.events (
                    new_event N digest w.event_id w.now t menu_price_change q "agent_action"
                      (head_hash (tenant_events t s.world))
                    ∷ []),
              ))
      ]

  attempt-world :
      (w : Surroundings Num) (t : ℕ) (key : String) (a : ActionType) (p : Payload Num)
      (s : Store Num)
      → (attempt N digest w t key a p s).1.world ≡ (execute_tool_call N digest w t a p s).1.world
  unfolding attempt
  attempt-world w t key a p s = ground arith

  -- A call leaves the restaurant's state alone, or attempts the action.
  idempotent-world :
      (fingerprint : ActionType → Payload Num → String) (w : Surroundings Num) (t : ℕ)
      (key : String) (a : ActionType) (p : Payload Num) (s : Store Num)
      → let after = execute_tool_call_idempotent N digest fingerprint w t key a p s in
        let claimed : Store Num = record s {
          keys = (claim t key (fingerprint a p) w.now s.keys).1;
        } in
        (after.1.world ≡ s.world) ⊎ (after.1.world ≡ (attempt N digest w t key a p claimed).1.world)
  unfolding execute_tool_call_idempotent
  idempotent-world fingerprint w t key a p s =
      elim (Result-cases (claim t key (fingerprint a p) w.now s.keys).0) [
        | inr (e, refused) ↦ inl (ground arith)
        | inl (held, claimed) ↦ elim (Result-cases (answer_of N digest held)) [
          | inr (e, odd) ↦ inl (ground arith)
          | inl (x, answered) ↦ elim (Option-cases x) [
            | inl mine ↦ inr (ground arith)
            | inr (r, known) ↦ inl (ground arith)
          ]
        ]
      ]

  -- A call adds at most one event.
  pub idempotent-event_count :
      (fingerprint : ActionType → Payload Num → String) (w : Surroundings Num) (t : ℕ)
      (key : String) (a : ActionType) (p : Payload Num) (s : Store Num)
      → event_count (execute_tool_call_idempotent N digest fingerprint w t key a p s).1
        ≤ suc (event_count s)
  idempotent-event_count fingerprint w t key a p s =
      let claimed : Store Num = record s {
        keys = (claim t key (fingerprint a p) w.now s.keys).1;
      } in
      elim (idempotent-world fingerprint w t key a p s) [
        | inl same ↦ rw same (ground arith)
        | inr tried ↦
            rw tried (
              rw (attempt-world w t key a p claimed)
                (execute_tool_call-event_count w t a p claimed))
      ]
