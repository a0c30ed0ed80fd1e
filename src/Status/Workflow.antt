-- ===== src/Status/Workflow.antt =====
-- What the table of transitions allows over a whole life of an order.
use restaurant_qr_ordering_s.Base.{ℕ, zero, suc, ◌+◌, ◌≤◌, ◌≡◌, refl, ◌⊎◌, Bool, true, false, arith}
use restaurant_qr_ordering_s.Status.{
  OrderStatus, needs_approval, awaiting_advance_payment, pending, confirmed, preparing, ready,
  served, cancelled, is_held, can_transition, is_open,
}

-- `n` transitions, one after the other, from the status `s`.
pub data Life (s : OrderStatus) : ℕ → OrderStatus → Type 0 where
  here : Life s zero s
  next : {n : ℕ} {t u : OrderStatus} → Life s n t → can_transition t u ≡ true → Life s (suc n) u

abbrev progress : OrderStatus → ℕ
progress needs_approval = 0
progress awaiting_advance_payment = 1
progress pending = 2
progress confirmed = 3
progress preparing = 4
progress ready = 5
progress served = 6
progress cancelled = 6

progress_grows : (t u : OrderStatus) → can_transition t u ≡ true → suc (progress t) ≤ progress u
unfolding can_transition
progress_grows t u h = ground arith

Life-progress : {s t : OrderStatus} {n : ℕ} → Life s n t → n + progress s ≤ progress t
Life-progress here = omega arith
Life-progress {n = suc n} (next {t = t} {u = u} l h) =
    omega (arith, Life-progress l, progress_grows t u h)

progress-le : (t : OrderStatus) → progress t ≤ 6
progress-le t = ground arith

-- Every life of an order ends: from any status, at most six transitions can follow one another.
pub Life-bounded : {s t : OrderStatus} {n : ℕ} → Life s n t → n ≤ 6
Life-bounded {t = t} l = omega (arith, Life-progress l, progress-le t)

pub closed_stays : (t u : OrderStatus) → is_open t ≡ false → can_transition t u ≡ false
unfolding can_transition
closed_stays t u h = ground arith

-- A served or cancelled order never moves again: whatever follows, it has the status it had.
Life-closed : {s t : OrderStatus} {n : ℕ} → is_open s ≡ false → Life s n t → t ≡ s
Life-closed h here = refl
Life-closed h (next {t = t} {u = u} l e) =
    let same = Life-closed h l in cc (closed_stays t u (rw same h))

-- The statuses of an order that the kitchen has accepted.
abbrev pub is_accepted : OrderStatus → Bool
is_accepted confirmed = true
is_accepted preparing = true
is_accepted ready = true
is_accepted served = true
is_accepted _ = false

pub accepted_from :
    (t u : OrderStatus)
    → can_transition t u ≡ true
    → is_accepted u ≡ true
    → (t ≡ pending) ⊎ (is_accepted t ≡ true)
unfolding can_transition
accepted_from t u h a = ground arith

pub held_not_accepted : (s : OrderStatus) → is_held s ≡ true → is_accepted s ≡ false
unfolding is_held
held_not_accepted s h = ground arith
