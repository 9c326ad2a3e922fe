-- ===== src/Lib.antt =====
-- Restaurant Ops Copilot: the path of an action from a request to the restaurant's tables.
--
-- The parts of the program and how they interact.
--   api/main.py stores a work request and publishes a message. worker/handler.py takes the message
--   and calls Component_4/tool_framework.py, the one door to the restaurant's state. That proposes
--   and simulates a decision (Component_2/decision_engine.py), asks the critic
--   (Component_4/critic.py) and the risk classifier (Component_6/risk_classifier.py), may leave the
--   decision to a human (Component_6/approval_workflow.py), executes and evaluates it, and appends
--   an event (Component_1/event_store.py), whose handler writes the current state in the same
--   transaction. orchestrator.py runs cycles through the same door: it takes opportunities, has
--   Component_3 propose candidates, scores them and hands the best one over. Component_7 records
--   and measures what happened. Component_4/idempotency.py keeps a request from running twice.
--
-- Which file models which part.
--   Prelude        tests, tables as lists of rows (find, update), results, and Exec: code that reads
--                  and writes a state and may raise. `transaction` is get_db_context: it rolls back
--                  on an error. Traces: sequences of calls, and "at most one call wins".
--   Values         JSON values, payloads, enumerations of Component_1/models.py, and Numbers.
--   Text           Python's str.strip and the tests on blank texts.
--   Policy         Critic: critique of Component_4/critic.py. Risk: classify_risk of
--                  Component_6/risk_classifier.py.
--   EventStore     Tables: the rows. Handlers: one function per _apply_... of
--                  Component_1/event_store.py, and apply_to_current_state. Append: append_event,
--                  verify_chain_integrity. Stream: get_tenant_events. Replay:
--                  reconstruct_state_at.
--   Approval       ApprovalWorkflow: request, get_request, resolve.
--   Idempotency    IdempotencyRegistry: claim, complete, fail.
--   Decisions      propose_and_simulate, and execute_and_observe as its two transactions
--                  claim_decision and persist_evaluation with the observation between them.
--                  Calibration: Component_2/calibration.py.
--   ToolResult     the result dictionaries, one constructor for each returned dictionary.
--   Tools          Component_4/tool_framework.py. Resolve: the critic's current value and the
--                  completion of payloads. Apply and Calls: _apply_state_change,
--                  execute_tool_call (with its branches decline, hold, busy, block, ask_human and
--                  execute_now), execute_approved_tool_call, execute_tool_call_idempotent.
--                  History: get_action_log.
--   Work           api/main.py (Submit) and worker/handler.py (Process).
--   Proposals      Component_3: Validator (candidate_validator.py), Merger (candidate_merger.py),
--                  Deterministic (the rules of reasoning.py), Reasoning (llm_reasoner.py and
--                  reason_about_opportunity), Batch (reason_about_opportunities).
--   Cycle          orchestrator.py: Selection (cooldown and ranking), Handle (_handle), Run
--                  (run_cycle), Review (resolve_approval).
--   Ledger         Component_7: the evaluation ledger (Listing, Isolation) and its Metrics.
--   Examples       one concrete restaurant, and each theorem applied to it.
--
-- How state corresponds. Store holds the tables that the tool framework touches, Office those and
--   the work requests and the queue. A row is a record, a table a list of rows in the order of
--   insertion, a query a Boolean test. Every call takes what comes from outside as an argument:
--   fresh ids, the clock, the simulator's answer, the ground truth, how the wait for the advisory
--   lock ends, how SQS answers, the SHA-256 digests and request_fingerprint. Concurrent workers are
--   sequences of committed transactions.
--
-- Numbers. Numbers is the interface of int, float and Decimal as the code uses them; no law is
--   assumed of it except where an entry below says so, so the theorems hold of every rounding,
--   overflow and NaN. A constant of the source is given in hundredths. What a Numeric column of scale
--   2 or 4 gives back is a function of Numbers (cents, ten_thousandths), which the handlers of the
--   event store apply where they write. Ids are numbers where they are UUIDs that the program makes,
--   and texts where payloads name them. The lists are finite and every function is a structural
--   recursion: there is no fuel.
--
-- Not modelled. Type guards that typed arguments make void (isinstance, UUID syntax), logging,
--   row level security and roles (Component_5), SQLAlchemy's validators and CHECK constraints but
--   those of the action log and the evaluation records, unique keys of the history tables, an
--   OverflowError of int(), failures of the database other than those written out (so neither a
--   value that does not fit its column nor a log row that fails after the event has been
--   committed), two deliveries of one message at the same time, authentication. A payload's
--   fingerprint and the digest are taken as functions. The opportunity detector, the language model
--   with its client and prompts, and the Monte Carlo of Component_2/simulator.py are arguments. Component_3's records are typed, so
--   their __post_init__ checks have no counterpart, and an Overflow of Decimal is not told from an
--   InvalidOperation. A cycle's observers, its probe of the language model and its snapshot of the
--   calibration are left out.
pub mod Prelude
pub mod Values
pub mod Text
pub mod Policy
pub mod EventStore
pub mod Approval
pub mod ToolResult
pub mod Idempotency
pub mod Decisions
pub mod Tools
pub mod Work
pub mod Proposals
pub mod Cycle
pub mod Ledger
pub mod Examples
