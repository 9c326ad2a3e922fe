-- ===== src/EventStore/Handlers/Staffing.antt =====
-- Staff shifts.
use restaurant_ops_copilot.Prelude.{
  ℕ, String, Bool, false, Option, none, some, Result, ok, err, ◌∷◌, [], ◌++◌, Exec, or_raise,
  invalid_event, event_store, find, update, str_eq, ◌==◌, ◌&&◌, if◌then◌else◌,
}
use restaurant_ops_copilot.Prelude.Fallible.{◌>>=◌}
use restaurant_ops_copilot.Values.{Numbers, Value, null, bool, num, Payload, get}
use restaurant_ops_copilot.EventStore.Tables.{
  Tables, Event, StaffShift, id_of, require_payload_field,
}

module _ (N : Numbers) where
  open N use {Num, hundredths, le, lt, eq, int_of, str_of}

  -- the row's id against `staff_shift_id`
  has_id : Option String → String → Bool
  has_id none i = false
  has_id (some j) i = str_eq j i

  -- the shift that a change addresses: by its id if one is given, else by role and day
  selects : ℕ → Option String → String → Num → StaffShift Num → Bool
  unfolding has_id
  selects t (some i) role day r = r.tenant_id == t && has_id r.id i
  selects t none role day r = r.tenant_id == t && str_eq r.role role && eq r.day_of_week day

  -- `if staff_shift_id`: an absent or empty id is no id
  given_id : Value Num → Result (Option String)
  given_id null = ok none
  given_id (bool false) = ok none
  given_id (num x) = if eq x (hundredths 0) then ok none else err event_store
  given_id v = elim (id_of v) [ err x ↦ err x | ok i ↦ ok (if str_eq i "" then none else some i) ]

  -- the validated fields: id, role, day and headcount
  staffing_fields : Payload Num → Result (Option String × String × Num × Num)
  unfolding require_payload_field given_id
  staffing_fields p = do
    role ← require_payload_field p "role"
    d ← require_payload_field p "day_of_week"
    h ← require_payload_field p "headcount"
    day ← or_raise (int_of d) invalid_event
    n ← or_raise (int_of h) invalid_event
    checked_day ←
        if le (hundredths 0) day && le day (hundredths 600) then ok day else err invalid_event
    checked_n ← if lt n (hundredths 0) then err invalid_event else ok n
    i ← given_id (get "staff_shift_id" p)
    ok (i, str_of role, checked_day, checked_n)

  abbrev write_shift : ℕ → Option String → String → Num → Num → Tables Num → Tables Num
  write_shift t i role day n s = elim (find (selects t i role day) s.shifts) [
    | none ↦ record s {
      shifts =
          s.shifts
          ++ record { tenant_id = t; id = i; role = role; day_of_week = day; headcount = n } ∷ [];
    }
    | some r ↦ record s {
      shifts =
          update (selects t i role day)
            (λ r. record r { role = role; day_of_week = day; headcount = n }) s.shifts;
    }
  ]

  -- `_apply_staffing_change`
  unfoldable pub apply_staffing_change : Event Num → Exec (Tables Num) (Unit {0})
  unfolding staffing_fields selects
  apply_staffing_change e s = elim (staffing_fields e.payload) [
    | err x ↦ (err x, s)
    | ok f ↦ (ok tt, write_shift e.tenant_id f.0 f.1 f.2 f.3 s)
  ]
