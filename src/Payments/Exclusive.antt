-- ===== src/Payments/Exclusive.antt =====
-- While an initiation may have reached the payer, no second one is made: `createPayment` of
-- api/src/subscriptions/payments/subscription-payments.service.ts, called twice.
use royalvibe_cosmetic.Common.{Bool, true, false, not}
use royalvibe_cosmetic.Payments.Model.{Initiation, rejected, unreachable, Result, ok, err}
use royalvibe_cosmetic.Payments.Initiation.{Created}

-- The provider certainly has no collection.
abbrev pub is_negative : Initiation → Bool
is_negative rejected = true
is_negative unreachable = true
is_negative _ = false

-- A payment was initiated, and not only answered again.
abbrev pub is_new : Result Created → Bool
is_new (ok created) = not created.replayed
is_new (err e) = false
