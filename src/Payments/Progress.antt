-- ===== src/Payments/Progress.antt =====
-- Every sequence of steps of api/src/subscriptions/payments moves each payment along its state machine.
use royalvibe_cosmetic.Common.{◌≡◌, String, some, List}
use royalvibe_cosmetic.Payments.Model.{SubscriptionPayment}
use royalvibe_cosmetic.Payments.Registry.{find_payment}
use royalvibe_cosmetic.Payments.Machine.{Moves}

-- The payment is still there, further along its machine.
abbrev pub MovedIn : List SubscriptionPayment → String → SubscriptionPayment → Type 0
MovedIn ps id p = (q : SubscriptionPayment) × (find_payment id ps ≡ some q) × Moves p q
