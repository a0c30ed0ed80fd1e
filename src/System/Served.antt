-- ===== src/System/Served.antt =====
-- An open order can always be brought to its end by hand.
use restaurant_qr_ordering_s.Base.{
  ℕ, ◌≡◌, refl, subst, sym, true, false, Option, none, some, List, [], ◌∷◌, arith, find_by,
  find_by-update_where,
}
use restaurant_qr_ordering_s.Status.{
  OrderStatus, needs_approval, awaiting_advance_payment, pending, confirmed, preparing, ready,
  served, cancelled, status_eq, can_transition, is_open,
}
use restaurant_qr_ordering_s.Store.{Db, Order, has_id, find_order, update_order}
use restaurant_qr_ordering_s.Orders.Change.{changed, apply_status_change, update_status}
use restaurant_qr_ordering_s.System.{Outside, Call, perform, run}
use restaurant_qr_ordering_s.System.Moves.{release_table-orders}

-- The statuses that lead an open order to the table, one by one.
abbrev pub way_to_table : OrderStatus → List OrderStatus
way_to_table needs_approval = pending ∷ confirmed ∷ preparing ∷ ready ∷ served ∷ []
way_to_table awaiting_advance_payment = pending ∷ confirmed ∷ preparing ∷ ready ∷ served ∷ []
way_to_table pending = confirmed ∷ preparing ∷ ready ∷ served ∷ []
way_to_table confirmed = preparing ∷ ready ∷ served ∷ []
way_to_table preparing = ready ∷ served ∷ []
way_to_table ready = served ∷ []
way_to_table served = []
way_to_table cancelled = []

-- The calls that set them.
abbrev pub by_hand : ℕ → ℕ → Option ℕ → List OrderStatus → List Call
by_hand now id actor [] = []
by_hand now id actor (s ∷ ss) = Call.update_status now id s actor ∷ by_hand now id actor ss

abbrev IsWay : OrderStatus → List OrderStatus → Type 0
IsWay s [] = s ≡ served
IsWay s (t ∷ ts) = (can_transition s t ≡ true) × IsWay t ts

way_to_table-IsWay : (s : OrderStatus) → is_open s ≡ true → IsWay s (way_to_table s)
unfolding can_transition
way_to_table-IsWay needs_approval h = (refl, (refl, (refl, (refl, (refl, refl)))))
way_to_table-IsWay awaiting_advance_payment h = (refl, (refl, (refl, (refl, (refl, refl)))))
way_to_table-IsWay pending h = (refl, (refl, (refl, (refl, refl))))
way_to_table-IsWay confirmed h = (refl, (refl, (refl, refl)))
way_to_table-IsWay preparing h = (refl, (refl, refl))
way_to_table-IsWay ready h = (refl, refl)
way_to_table-IsWay served h = cc
way_to_table-IsWay cancelled h = cc

moves_on : (s t : OrderStatus) → can_transition s t ≡ true → status_eq s t ≡ false
unfolding can_transition
moves_on s t h = ground arith

abbrev Stands : ℕ → OrderStatus → Db → Type 0
Stands id s db = (o : Order) × (find_order id db ≡ some o) × (o.status ≡ s)

-- Every one of the calls is answered without an error.
abbrev pub AllAccepted : Outside → List Call → Db → Type 0
AllAccepted w [] db = Unit
AllAccepted w (call ∷ calls) db =
    ((perform w call db).0 ≡ none) × AllAccepted w calls (perform w call db).1

module _ (w : Outside) (now id : ℕ) (actor : Option ℕ) where
  set_by_hand :
      (s t : OrderStatus) (db : Db)
      → can_transition s t ≡ true
      → Stands id s db
      → ((perform w (Call.update_status now id t actor) db).0 ≡ none)
        × Stands id t (perform w (Call.update_status now id t actor) db).1
  unfolding update_status apply_status_change
  set_by_hand s t db legal (o, at, is_s) =
      let step : can_transition o.status t ≡ true =
        subst (λ x. can_transition x t ≡ true) (sym is_s) legal in
      let written = update_order id (changed now t actor none) db in
      rw (at, moves_on o.status t step, step)
        (
          refl,
          (
            changed now t actor none o,
            subst (λ os. find_by (has_id id) os ≡ some (changed now t actor none o))
                (sym (release_table-orders o.table_id t written))
                (find_by-update_where (has_id id) (changed now t actor none) db.orders o (λ x. refl)
                  at),
            refl,
          ),
        )

  follow :
      (s : OrderStatus) (ts : List OrderStatus) (db : Db)
      → IsWay s ts
      → Stands id s db
      → AllAccepted w (by_hand now id actor ts) db
        × Stands id served (run w (by_hand now id actor ts) db)
  follow s [] db done stands = (tt, subst (λ x. Stands id x db) done stands)
  follow s (t ∷ ts) db (legal, rest) stands =
      let (accepted, there) = set_by_hand s t db legal stands in
      let (more, last) =
        follow t ts (perform w (Call.update_status now id t actor) db).1 rest there in
      ((accepted, more), last)

  -- No order gets stuck: from every open status, held ones included, the calls of `updateStatus` along
  -- `way_to_table` are all answered without an error and leave the order served.
  pub run-served :
      (db : Db) (o : Order)
      → find_order id db ≡ some o
      → is_open o.status ≡ true
      → let calls = by_hand now id actor (way_to_table o.status) in
        AllAccepted w calls db
        × ((p : Order) × (find_order id (run w calls db) ≡ some p) × (p.status ≡ served))
  run-served db o at unfinished =
      follow o.status (way_to_table o.status) db (way_to_table-IsWay o.status unfinished)
        (o, at, refl)
