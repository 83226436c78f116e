-- ===== src/Examples/Deliveries.antt =====
-- A step whose call is lost once, not delivered once, and answered then.
use kinby.Common.{true, none, some, List, [], ◌∷◌, ◌≡◌, refl}
use kinby.Runs.Row.{attempts_at, without_open}
use kinby.Runs.Deliver.{Round, answered, undelivered, lost, Delivery, deliver}
use kinby.Runs.Deliver.Laws.{IsDelivery, deliver-IsDelivery}
use kinby.Examples.Data.{factory, start_row, planned}

abbrev rounds : List Round
rounds =
    (record { now = 10; answer = lost; is_active = true })
    ∷ (record { now = 20; answer = undelivered; is_active = true })
    ∷ (record { now = 40; answer = answered planned; is_active = true })
    ∷ []

abbrev plan_delivery : Delivery
plan_delivery = deliver (some factory) "plan" rounds 0 none start_row

plan_calls : plan_delivery.calls ≡ 1 ∷ 1 ∷ 1 ∷ []
unfolding deliver attempts_at without_open
plan_calls = refl

plan_waits : plan_delivery.waits ≡ 5 ∷ 10 ∷ []
unfolding deliver
plan_waits = refl

deliver-IsDelivery_example : IsDelivery (some factory) "plan" start_row tt plan_delivery
deliver-IsDelivery_example = deliver-IsDelivery (some factory) "plan" start_row tt rounds
