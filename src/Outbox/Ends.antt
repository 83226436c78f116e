-- ===== src/Outbox/Ends.antt =====
-- hub/outbox.py: the delivery loop ends, and what its delivery then is.
use kinby.Common.{ℕ, suc, ◌+◌, ◌≤◌, Bool, true, not, ◌||◌, none, some, ◌≡◌, ◌⊎◌, all, nat_eq}
use kinby.Outbox.Store.{Store, Delivery, is_pending, is_delivery, channel}
use kinby.Outbox.Deliver.{PendingDelivery, Try, deliver, backoff}

-- The row of a delivery, if there is one, is not pending.
abbrev is_settled : ℕ → ℕ → Delivery → Bool
is_settled notification_id channel_id row =
    not (is_delivery notification_id channel_id row) || not (is_pending row.status)

abbrev pub Closed : PendingDelivery → Store → Type 0
Closed delivery store =
    (channel delivery.channel_id store ≡ none)
    ⊎ (all (is_settled delivery.notification.notification_id delivery.channel_id) store.deliveries
        ≡ true)

module _ (tries : ℕ → Try) (between : ℕ → Store → Store) (delivery : PendingDelivery)
    (raised_before : delivery.raised_at ≤ (tries 0).now)
    (sleeps : (n : ℕ) → (tries n).now + backoff (suc n) ≤ (tries (suc n)).now) where
  abbrev Ends : ℕ → ℕ → Store → Type 0
  Ends fuel n store =
      (later : Store) × (deliver fuel tries between delivery n n store ≡ some later)
      × Closed delivery later
