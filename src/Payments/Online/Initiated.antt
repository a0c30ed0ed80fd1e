-- ===== src/Payments/Online/Initiated.antt =====
-- What `initiateOnlinePayment` charges, and whom.
use Prim.Native.String.{String}
use restaurant_qr_ordering_s.Base.{
  ℕ, ◌+◌, ◌-◌, ◌≡◌, refl, ◌⊎◌, inl, inr, Bool, true, false, not, ◌&&◌, Option, some, List, [], ◌∷◌,
  ◌++◌, arith, leb, ltb, Bool-cases, sum_of-select-append,
}
use restaurant_qr_ordering_s.Errors.{Result, ok, err, Result-cases}
use restaurant_qr_ordering_s.Status.{needs_approval, cancelled, status_eq}
use restaurant_qr_ordering_s.Store.{
  Db, Order, Payment, TxnStatus, find_by_token, collected, is_settled,
}
use restaurant_qr_ordering_s.Orders.Gates.{is_paid}
use restaurant_qr_ordering_s.Payments.Provider.{Provider, create_intent}
use restaurant_qr_ordering_s.Payments.Online.{target_of, pending_row, initiate_online_payment}

-- Whether an order may be paid online, given what it has paid.
abbrev pub is_payable : Order → ℕ → Bool
is_payable o captured =
    not (is_paid o.payment_status)
    && not (status_eq o.status cancelled)
    && not (status_eq o.status needs_approval)
    && ltb captured (target_of o)

abbrev pub Charges : Order → Db → Result String → Result (Payment × Db) → Type 0
Charges o db intent (err e) = (is_payable o (collected o.id db.payments) ≡ false) ⊎ (intent ≡ err e)
Charges o db intent (ok (p, after)) =
    (is_payable o (collected o.id db.payments) ≡ true)
    × ((ref : String) × (intent ≡ ok ref) × (p.provider_ref ≡ some ref))
    × (p.order_id ≡ o.id)
    × (p.status ≡ TxnStatus.pending)
    × (collected o.id db.payments + p.amount ≡ target_of o)
    × (collected o.id after.payments ≡ collected o.id db.payments)
    × (after.orders ≡ db.orders)

pending_adds_nothing :
    (id : ℕ) (p : Payment) (payments : List Payment)
    → is_settled id p ≡ false
    → collected id (payments ++ (p ∷ [])) ≡ collected id payments
pending_adds_nothing id p payments h =
    ground (arith, sum_of-select-append (λ x. x.amount) (is_settled id) payments p)

missing_part :
    (target captured : ℕ) → leb target captured ≡ false → captured + (target - captured) ≡ target
missing_part target captured h = ground arith

-- A guest's order can be paid online exactly if it is not PAID, not cancelled, not waiting for an
-- approval, and less than its target has been collected: the required advance while it waits for
-- that, its bill otherwise. The charge is what is missing to the target, it is written as pending
-- under the reference of the gateway, and until it is confirmed nothing counts as collected and no
-- order changes. Only the gateway can refuse such a payment.
pub initiate_online_payment-Charges :
    (now : ℕ) (provider : Provider) (minted : String) (reply : Option String) (token : ℕ) (db : Db)
    (o : Order)
    → find_by_token token db ≡ some o
    → Charges o db
        (create_intent provider minted reply)
        (initiate_online_payment now provider minted reply token db)
unfolding initiate_online_payment
initiate_online_payment-Charges now provider minted reply token db o e =
    rw e (elim (Bool-cases (is_paid o.payment_status)) [
      | inl a ↦ rw a (inl (ground arith))
      | inr a ↦ elim (Bool-cases (status_eq o.status cancelled)) [
        | inl b ↦ rw (a, b) (inl (ground arith))
        | inr b ↦ elim (Bool-cases (status_eq o.status needs_approval)) [
          | inl c ↦ rw (a, b, c) (inl (ground arith))
          | inr c ↦ elim (Bool-cases (leb (target_of o) (collected o.id db.payments))) [
            | inl g ↦ rw (a, b, c, g) (inl (ground arith))
            | inr g ↦ elim (Result-cases (create_intent provider minted reply)) [
              | inl (x, k) ↦ rw (a, b, c, g, k) (inr refl)
              | inr (ref, k) ↦
                  rw (a, b, c, g, k)
                    (
                      ground arith,
                      (ref, refl, refl),
                      refl,
                      refl,
                      missing_part (target_of o) (collected o.id db.payments) g,
                      pending_adds_nothing o.id
                          (pending_row now provider ref o.id
                            (target_of o - collected o.id db.payments) db)
                          db.payments (ground arith),
                      refl,
                    )
            ]
          ]
        ]
      ]
    ])
