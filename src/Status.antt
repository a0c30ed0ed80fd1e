-- ===== src/Status.antt =====
-- The workflow of an order: the status table at the head of server/src/services/order.service.ts,
-- with the enums of server/prisma/schema.prisma and server/src/validations/order.validation.ts.
pub mod Workflow
use restaurant_qr_ordering_s.Base.{Bool, true, false, ◌||◌, List, [], ◌∷◌}

pub data OrderStatus : Type 0 where
  needs_approval awaiting_advance_payment pending confirmed preparing ready served cancelled :
      OrderStatus

abbrev pub status_eq : OrderStatus → OrderStatus → Bool
status_eq needs_approval needs_approval = true
status_eq awaiting_advance_payment awaiting_advance_payment = true
status_eq pending pending = true
status_eq confirmed confirmed = true
status_eq preparing preparing = true
status_eq ready ready = true
status_eq served served = true
status_eq cancelled cancelled = true
status_eq _ _ = false

-- `list.includes(status)`
abbrev pub includes : List OrderStatus → OrderStatus → Bool
includes [] s = false
includes (x ∷ xs) s = status_eq x s || includes xs s

abbrev pub allowed_transitions : OrderStatus → List OrderStatus
allowed_transitions needs_approval = awaiting_advance_payment ∷ pending ∷ cancelled ∷ []
allowed_transitions awaiting_advance_payment = pending ∷ cancelled ∷ []
allowed_transitions pending = confirmed ∷ cancelled ∷ []
allowed_transitions confirmed = preparing ∷ cancelled ∷ []
allowed_transitions preparing = ready ∷ cancelled ∷ []
allowed_transitions ready = served ∷ cancelled ∷ []
allowed_transitions served = []
allowed_transitions cancelled = []

abbrev pub held_statuses : List OrderStatus
held_statuses = needs_approval ∷ awaiting_advance_payment ∷ []

unfoldable pub is_held : OrderStatus → Bool
is_held = includes held_statuses

abbrev pub editable_statuses : List OrderStatus
editable_statuses = pending ∷ confirmed ∷ []

unfoldable pub can_transition : OrderStatus → OrderStatus → Bool
can_transition from to = includes (allowed_transitions from) to

-- The statuses that `order:updateStatus` may set by hand.
abbrev pub settable_statuses : List OrderStatus
settable_statuses = pending ∷ confirmed ∷ preparing ∷ ready ∷ served ∷ cancelled ∷ []

-- Neither `SERVED` nor `CANCELLED`: the order still keeps its table.
abbrev pub is_open : OrderStatus → Bool
is_open served = false
is_open cancelled = false
is_open _ = true
