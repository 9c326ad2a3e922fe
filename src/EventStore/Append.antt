-- ===== src/EventStore/Append.antt =====
-- The hash chain: `append_event` and `verify_chain_integrity`.
-- A timestamp is a number of microseconds, an event's id its UUID.
pub mod Chain
pub mod Tamper
pub mod Isolation
pub mod Repriced
use restaurant_ops_copilot.Prelude.{
  ℕ, String, Bool, true, false, Option, none, some, List, [], ◌∷◌, ◌++◌, Result, ok, err, Exec,
  raise_if, gets, lift, modify, pure, or_raise, transaction, ◌>>=◌, ◌>>◌, tenant_isolation,
  invalid_event, chain_corrupted, find, filter_rows, str_eq, ltb, ◌==◌, ◌&&◌, ◌||◌, not,
  if◌then◌else◌,
}
use restaurant_ops_copilot.Text.{is_blank, strip}
use restaurant_ops_copilot.Values.{Numbers, Payload, EventType}
use restaurant_ops_copilot.EventStore.Tables.{Tables, Event}
use restaurant_ops_copilot.EventStore.Handlers.{apply_to_current_state}

-- `hashlib.sha256` of the joined text, with the parts as `json.dumps`, `isoformat` and
-- `EventType.value` write them.
pub record Digest (Num : Type 0) : Type 0 where
  pub compute_sha256_hash : String → EventType → Payload Num → ℕ → String → String

-- `GENESIS_HASH`
abbrev pub genesis_hash : String
genesis_hash = "0000000000000000000000000000000000000000000000000000000000000000"

module _ {Num : Type 0} where
  -- the order `timestamp, id`
  unfoldable pub before : Event Num → Event Num → Bool
  before a b = ltb a.timestamp b.timestamp || a.timestamp == b.timestamp && ltb a.id b.id

  unfoldable pub insert_event : Event Num → List (Event Num) → List (Event Num)
  unfolding before
  insert_event e [] = e ∷ []
  insert_event e (x ∷ xs) = if before x e then x ∷ insert_event e xs else e ∷ x ∷ xs

  -- `ORDER BY timestamp, id`
  unfoldable pub sort_events : List (Event Num) → List (Event Num)
  unfolding insert_event
  sort_events [] = []
  sort_events (e ∷ es) = insert_event e (sort_events es)

  unfoldable pub last_event : List (Event Num) → Option (Event Num)
  last_event [] = none
  last_event (e ∷ []) = some e
  last_event (e ∷ es) = last_event es

  -- the events of one tenant, in order
  unfoldable pub tenant_events : ℕ → Tables Num → List (Event Num)
  unfolding sort_events
  tenant_events t s = sort_events (filter_rows (λ e. e.tenant_id == t) s.events)

  -- the hash that the next event points to
  unfoldable pub head_hash : List (Event Num) → String
  unfolding last_event
  head_hash es = elim (last_event es) [ none ↦ genesis_hash | some e ↦ e.hash ]

module _ (N : Numbers) (d : Digest N.Num) where
  open N use {Num}
  open d use {compute_sha256_hash}

  abbrev pub new_event : ℕ → ℕ → ℕ → EventType → Payload Num → String → String → Event Num
  new_event id now t kind payload source prev = record {
    id = id;
    tenant_id = t;
    event_type = kind;
    payload = payload;
    source = strip source;
    hash = compute_sha256_hash prev kind payload now source;
    previous_hash = prev;
    timestamp = now;
  }

  -- the transaction of `append_event`; `id` and `now` are what `uuid4` and the clock give
  append_in_transaction :
      ℕ → ℕ → ℕ → EventType → Payload Num → String → Exec (Tables Num) (Event Num)
  append_in_transaction id now t kind payload source = do
    known ← gets (λ s. find (λ x. x == t) s.tenants)
    lift (or_raise known tenant_isolation)
    prev ← gets (λ s. head_hash (tenant_events t s))
    modify (λ s. record s { events = s.events ++ new_event id now t kind payload source prev ∷ [] })
    apply_to_current_state N (new_event id now t kind payload source prev)
    pure (new_event id now t kind payload source prev)

  unfoldable pub append_event :
      ℕ → ℕ → ℕ → EventType → Payload Num → String → Exec (Tables Num) (Event Num)
  unfolding append_in_transaction
  append_event id now t kind payload source = do
    raise_if (is_blank source) invalid_event
    transaction (append_in_transaction id now t kind payload source)

  -- the loop of `verify_chain_integrity`
  unfoldable pub verify_from : String → List (Event Num) → Result Bool
  verify_from prev [] = ok true
  verify_from prev (e ∷ es) =
      let rest = verify_from e.hash es in
      if not (str_eq e.previous_hash prev)
      then err chain_corrupted
      else if not (
          str_eq e.hash
            (compute_sha256_hash e.previous_hash e.event_type e.payload e.timestamp e.source))
      then err chain_corrupted
      else rest

  unfoldable pub verify_chain_integrity : ℕ → Tables Num → Result Bool
  unfolding verify_from tenant_events
  verify_chain_integrity t s = verify_from genesis_hash (tenant_events t s)
