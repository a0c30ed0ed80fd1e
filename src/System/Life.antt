-- ===== src/System/Life.antt =====
-- The life of every order under any calls, in any order: its status after each of them.
use restaurant_qr_ordering_s.Base.{
  ℕ, ◌≡◌, refl, sym, ap, subst, ◌∙◌, inl, inr, Bool-cases, true, false, Option, none, some,
  some-injective, List, [], ◌∷◌, ◌++◌,
}
use restaurant_qr_ordering_s.Status.{OrderStatus, is_open, is_held, pending}
use restaurant_qr_ordering_s.Status.Workflow.{
  closed_stays, is_accepted, accepted_from, held_not_accepted,
}
use restaurant_qr_ordering_s.Store.{Db, Order, find_order}
use restaurant_qr_ordering_s.System.{Outside, Call, perform, run}
use restaurant_qr_ordering_s.System.Advances.{Steps}
use restaurant_qr_ordering_s.System.Steps.{perform-Advances}

-- The status of the order, if it is on file.
abbrev pub status_at : ℕ → Db → Option OrderStatus
status_at id db = elim (find_order id db) [ none ↦ none | some o ↦ some o.status ]

status_at-some :
    (id : ℕ) (db : Db) (o : Order) → find_order id db ≡ some o → status_at id db ≡ some o.status
status_at-some id db o e = ap (λ r. elim r [ none ↦ none | some x ↦ some x.status ]) e

-- The statuses of an order of the table of transitions, one after the other, from `s` on: each is the one
-- before it, or one transition further. An order that is not on file has none.
abbrev pub IsTrace : OrderStatus → List (Option OrderStatus) → Type 0
IsTrace s [] = Unit
IsTrace s (none ∷ ts) = ⊥
IsTrace s (some t ∷ ts) = Steps s t × IsTrace t ts

module _ (w : Outside) where
  -- The status of an order after each of the calls.
  abbrev pub log : ℕ → List Call → Db → List (Option OrderStatus)
  log id [] db = []
  log id (call ∷ calls) db = status_at id (perform w call db).1 ∷ log id calls (perform w call db).1

  -- The services on orders and payments refine the table of transitions: whatever calls they answer, in
  -- whatever order, the order stays on file, and after every single call its status is the one it
  -- had before the call, or one transition of the table further.
  pub log-IsTrace :
      (calls : List Call) (db : Db) (id : ℕ) (o : Order)
      → find_order id db ≡ some o
      → IsTrace o.status (log id calls db)
  log-IsTrace [] db id o at = tt
  log-IsTrace (call ∷ calls) db id o at =
      let (p, there, moved) = perform-Advances w call db id o at in
      subst (λ s. IsTrace o.status (s ∷ log id calls (perform w call db).1))
        (sym (status_at-some id (perform w call db).1 p there))
        (moved, log-IsTrace calls (perform w call db).1 id p there)

  -- An order that is served or cancelled has that status after any calls whatsoever.
  run_closed :
      (calls : List Call) (db : Db) (id : ℕ) (o : Order)
      → find_order id db ≡ some o
      → is_open o.status ≡ false
      → (p : Order) × (find_order id (run w calls db) ≡ some p) × (p.status ≡ o.status)
  run_closed [] db id o at closed = (o, at, refl)
  run_closed (call ∷ calls) db id o at closed =
      let (p, there, moved) = perform-Advances w call db id o at in
      let same : p.status ≡ o.status = elim moved [
        | inl e ↦ e
        | inr e ↦ cc (closed_stays o.status p.status closed)
      ] in
      let (q, then_there, e) =
        run_closed calls (perform w call db).1 id p there
          (subst (λ s. is_open s ≡ false) (sym same) closed) in
      (q, then_there, e ∙ same)

  -- After some of the calls, the first ones, the order was `PENDING`.
  abbrev pub WasPending : ℕ → List Call → Db → Type 0
  WasPending id calls db =
      (first : List Call) × (rest : List Call) × (first ++ rest ≡ calls)
      × (status_at id (run w first db) ≡ some pending)

  accepted-WasPending :
      (calls : List Call) (db : Db) (id : ℕ) (o p : Order)
      → find_order id db ≡ some o
      → is_accepted o.status ≡ false
      → find_order id (run w calls db) ≡ some p
      → is_accepted p.status ≡ true
      → WasPending id calls db
  accepted-WasPending [] db id o p at not_yet now_at accepted =
      let same : o ≡ p = some-injective _ _ (sym at ∙ now_at) in
      cc (subst (λ x. is_accepted x.status ≡ true) (sym same) accepted)
  accepted-WasPending (call ∷ calls) db id o p at not_yet now_at accepted =
      let (q, there, moved) = perform-Advances w call db id o at in
      elim (Bool-cases (is_accepted q.status)) [
        | inr still_not ↦
            let (first, rest, all, was) =
              accepted-WasPending calls (perform w call db).1 id q p there still_not now_at
                accepted in
            (call ∷ first, rest, ap (λ cs. call ∷ cs) all, was)
        | inl accepted_now ↦ elim moved [
          | inl same ↦ cc (subst (λ s. is_accepted s ≡ true) same accepted_now)
          | inr step ↦ elim (accepted_from o.status q.status step accepted_now) [
            | inl is_pending ↦
                ([], call ∷ calls, refl, status_at-some id db o at ∙ ap (λ s. some s) is_pending)
            | inr already ↦ cc
          ]
        ]
      ]

  -- The kitchen never gets a held order past its gate: if an order is held, and the kitchen has accepted
  -- it after some calls, then the order was `PENDING` after the first few of these calls.
  pub run-WasPending :
      (calls : List Call) (db : Db) (id : ℕ) (o p : Order)
      → find_order id db ≡ some o
      → is_held o.status ≡ true
      → find_order id (run w calls db) ≡ some p
      → is_accepted p.status ≡ true
      → WasPending id calls db
  run-WasPending calls db id o p at held =
      accepted-WasPending calls db id o p at (held_not_accepted o.status held)
