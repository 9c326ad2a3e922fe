-- ===== src/EventStore/Replay/Menu/Added.antt =====
-- A new menu item of Component_1/event_store.py, inserted or written over.
use mathlib.Core.Path.{sym}
use restaurant_ops_copilot.Prelude.{
  ℕ, ◌≡◌, refl, ap, ◌∙◌, String, Bool, false, none, some, [], ◌∷◌, ◌++◌, ok, arith, inl, inr,
  Result-cases, Option-cases, eq_iff, find, find-append, find-append_none, update,
}
use restaurant_ops_copilot.Values.{
  Numbers, Value, null, bool, num, text, arr, obj, Payload, entry, get, menu_item_added,
}
use restaurant_ops_copilot.EventStore.Tables.{
  Tables, Event, MenuItem, is_menu_item, require_payload_field, id_of, to_decimal,
}
use restaurant_ops_copilot.EventStore.Handlers.Menu.{apply_menu_item_added, put_item}
use restaurant_ops_copilot.EventStore.Handlers.MenuFields.{item_fields}
use restaurant_ops_copilot.EventStore.Replay.Menu.Rows.{Rewritten, other_row, own_row}
use restaurant_ops_copilot.EventStore.Replay.Step.{replay_menu}

module _ (N : Numbers) where
  open N use {Num, decimal, cents}

  required-entry :
      (p : Payload Num) (k : String) (v : Value Num)
      → require_payload_field p k ≡ ok v
      → (entry k p ≡ some v) × (get k p ≡ v)
  unfolding require_payload_field
  required-entry p k v h = ground arith

  id_of-text : (v : Value Num) (i : String) → id_of v ≡ ok i → v ≡ text i
  id_of-text (text j) i h = ground arith
  id_of-text null i h = absurd (ground arith)
  id_of-text (bool b) i h = absurd (ground arith)
  id_of-text (num x) i h = absurd (ground arith)
  id_of-text (arr xs) i h = absurd (ground arith)
  id_of-text (obj fs) i h = absurd (ground arith)

  to_decimal-decimal : (v : Value Num) (x : Num) → to_decimal N v ≡ ok x → decimal v ≡ some x
  unfolding to_decimal
  to_decimal-decimal v x h = ground arith

  -- What the fields of a new item say of its payload.
  item_fields-read :
      (p : Payload Num) (i name : String) (x : Num) (b : Bool)
      → item_fields N p ≡ ok (i, name, x, b)
      → (v : Value Num) × (w : Value Num) × (require_payload_field p "menu_item_id" ≡ ok v)
        × (require_payload_field p "current_price" ≡ ok w)
        × (to_decimal N w ≡ ok x)
        × (id_of v ≡ ok i)
  unfolding item_fields
  item_fields-read p i name x b h = elim (Result-cases (require_payload_field p "menu_item_id")) [
    | inr (e, bad) ↦ absurd (ground arith)
    | inl (v, item) ↦ elim (Result-cases (require_payload_field p "name")) [
      | inr (e, bad) ↦ absurd (ground arith)
      | inl (n, named) ↦ elim (Result-cases (require_payload_field p "current_price")) [
        | inr (e, bad) ↦ absurd (ground arith)
        | inl (w, priced) ↦ elim (Result-cases (to_decimal N w)) [
          | inr (e, bad) ↦ absurd (ground arith)
          | inl (y, amount) ↦ elim (Result-cases (id_of v)) [
            | inr (e, bad) ↦ absurd (ground arith)
            | inl (j, known) ↦
                let same : y ≡ x = ground arith in
                let own : j ≡ i = ground arith in
                (v, w, item, priced, amount ∙ ap ok same, known ∙ ap ok own)
          ]
        ]
      ]
    ]
  ]

  item_fields-inverts :
      (p : Payload Num) (i name : String) (x : Num) (b : Bool)
      → item_fields N p ≡ ok (i, name, x, b)
      → (get "menu_item_id" p ≡ text i)
        × ((v : Value Num) × (entry "current_price" p ≡ some v) × (decimal v ≡ some x))
  item_fields-inverts p i name x b h =
      let (v, w, item, priced, amount, known) = item_fields-read p i name x b h in
      (
        (required-entry p "menu_item_id" v item).1 ∙ id_of-text v i known,
        (w, (required-entry p "current_price" w priced).0, to_decimal-decimal w x amount),
      )

  added-inverts :
      (e : Event Num) (s : Tables Num)
      → (apply_menu_item_added N e s).0 ≡ ok tt
      → (i : String) × (name : String) × (x : Num) × (b : Bool) × (item_fields N e.payload
          ≡ ok (i, name, x, b))
        × ((apply_menu_item_added N e s).1 ≡ (put_item N e.tenant_id (i, name, x, b) s).1)
  unfolding apply_menu_item_added
  added-inverts e s h = elim (Result-cases (item_fields N e.payload)) [
    | inr (x, refused) ↦ absurd (ground arith)
    | inl (f, valid) ↦ (f.0, f.1, f.2, f.3, valid, ground arith)
  ]

  module _ (t : ℕ) (i name : String) (x : Num) (b : Bool) (s : Tables Num) where
    abbrev item_row : MenuItem Num
    item_row = record { tenant_id = t; id = i; name = name; current_price = cents x; active = b }

    abbrev rewrite : MenuItem Num → MenuItem Num
    rewrite r = record r { name = name; current_price = cents x; active = b }

    put_item-some :
        (r : MenuItem Num)
        → find (is_menu_item t i) s.menu_items ≡ some r
        → (put_item N t (i, name, x, b) s).1.menu_items
          ≡ update (is_menu_item t i) rewrite s.menu_items
    unfolding put_item
    put_item-some r h = ground arith

    put_item-none :
        find (is_menu_item t i) s.menu_items ≡ none
        → (put_item N t (i, name, x, b) s).0 ≡ ok tt
        → (put_item N t (i, name, x, b) s).1.menu_items ≡ s.menu_items ++ item_row ∷ []
    unfolding put_item
    put_item-none h k = ground arith

    put_item-own :
        (put_item N t (i, name, x, b) s).0 ≡ ok tt
        → (r : MenuItem Num) × (find
              (is_menu_item t i)
              (put_item N t (i, name, x, b) s).1.menu_items
            ≡ some r)
          × (r.current_price ≡ cents x)
    put_item-own k = elim (Option-cases (find (is_menu_item t i) s.menu_items)) [
      | inr (r, found) ↦ (
        rewrite r,
        rw (put_item-some r found) (own_row N t i rewrite s.menu_items r (λ q. refl) found),
        refl,
      )
      | inl missing ↦ (
        item_row,
        rw (put_item-none missing k) (
            find-append_none (is_menu_item t i) s.menu_items (item_row ∷ []) missing
            ∙ ground (arith, eq_iff i i)),
        refl,
      )
    ]

    put_item-others :
        (put_item N t (i, name, x, b) s).0 ≡ ok tt
        → (u : ℕ) (j : String) (r : MenuItem Num) → find (is_menu_item u j) s.menu_items ≡ some r
        → is_menu_item t i r ≡ false
        → find (is_menu_item u j) (put_item N t (i, name, x, b) s).1.menu_items ≡ some r
    put_item-others k u j r h differs = elim (Option-cases (find (is_menu_item t i) s.menu_items)) [
      | inr (q, found) ↦
          rw (put_item-some q found)
            (other_row N t i u j rewrite s.menu_items r (λ q. refl) h differs)
      | inl missing ↦
          rw (put_item-none missing k)
            (find-append (is_menu_item u j) s.menu_items (item_row ∷ []) r h)
    ]

  added-put :
      (e : Event Num) (s : Tables Num) (i name : String) (x : Num) (b : Bool)
      → item_fields N e.payload ≡ ok (i, name, x, b)
      → apply_menu_item_added N e s ≡ put_item N e.tenant_id (i, name, x, b) s
  unfolding apply_menu_item_added
  added-put e s i name x b h = rw h refl

  pub added-Rewritten :
      (e : Event Num) (s : Tables Num)
      → e.event_type ≡ menu_item_added
      → (apply_menu_item_added N e s).0 ≡ ok tt
      → Rewritten N e s.menu_items (apply_menu_item_added N e s).1.menu_items
  unfolding replay_menu
  added-Rewritten e s k h =
      let (i, name, x, b, valid, after) = added-inverts e s h in
      let put = added-put e s i name x b valid in
      let (item_is, (v, price_is, amount_is)) = item_fields-inverts e.payload i name x b valid in
      let stored : (put_item N e.tenant_id (i, name, x, b) s).0 ≡ ok tt =
        sym (ap (λ r. r.0) put) ∙ h in
      let (r, row_is, own) = put_item-own e.tenant_id i name x b s stored in
      record {
        id = i;
        row = r;
        id_is = item_is;
        row_is = rw put row_is;
        others = λ u j q found differs.
            rw put (put_item-others e.tenant_id i name x b s stored u j q found differs);
        price = λ m w g. inl (ground (arith, price_is, amount_is, k, own));
      }
