-- ===== src/Outbox/Deliver.antt =====
-- hub/outbox.py: the loop that sends one notification through one channel.
use Prim.Native.String.{String}
use kinby.Common.{
  ℕ, zero, suc, min, ◌+◌, ◌-◌, ◌*◌, not, Option, none, some, [], ◌∷◌, ◌++◌, if◌then◌else◌, leb,
}
use kinby.Common.Slices.{take_text, chars, append}
use kinby.Outbox.Store.{
  Store, Channel, ChannelNotification, channel, delivery_failed, delivery_sent, delivery_retried,
  channel_sent, channel_failed,
}

-- GIVE_UP_AFTER, BACKOFF_SECONDS and BACKOFF_CAP_SECONDS, in seconds
abbrev pub give_up_after : ℕ
give_up_after = 86400

-- 2 ** n
abbrev pub power_of_two : ℕ → ℕ
power_of_two zero = 1
power_of_two (suc n) = 2 * power_of_two n

-- `min(BACKOFF_SECONDS * 2 ** (attempts - 1), BACKOFF_CAP_SECONDS)`
unfoldable pub backoff : ℕ → ℕ
backoff attempts = min (5 * power_of_two (attempts - 1)) 300

-- `_cut`
unfoldable pub cut : String → ℕ → String
unfolding take_text
cut text limit = if leb (chars text) limit then text else append (take_text (limit - 1) text) "…"

-- `replace(notification, text=..., options=...)`
unfoldable pub outgoing : ℕ → ChannelNotification → ChannelNotification
unfolding cut
outgoing limit notification = record notification {
  text = cut notification.text limit;
  options = notification.options ++ "Mute this instance" ∷ [];
}

-- What a sender does: it gives a reference to what it sent, or raises an error.
pub data Sent : Type 0 where
  accepted : String → Sent
  refused : String → Sent

-- One round: the limit of the channel, its sender, and the time that the clock tells after it.
-- A limit that raises is a sender that refuses.
pub record Try : Type 0 where
  pub limit : ℕ
  pub send : ChannelNotification → Sent
  pub now : ℕ

-- What the loop knows from the start.
pub record PendingDelivery : Type 0 where
  pub notification : ChannelNotification
  pub channel_id : ℕ
  pub raised_at : ℕ

abbrev pub after_failure : PendingDelivery → ℕ → Try → String → Store → Store × Option ℕ
after_failure delivery attempts try error store =
    let id = delivery.notification.notification_id in
    let wait = backoff attempts in
    if leb give_up_after (try.now - delivery.raised_at)
    then (delivery_failed id delivery.channel_id error store, none)
    else (delivery_retried id delivery.channel_id error (try.now + wait) store, some wait)

abbrev pub after_send : PendingDelivery → ℕ → Try → Sent → Store → Store × Option ℕ
after_send delivery attempts try (accepted ref) store =
    let id = delivery.notification.notification_id in
    (
      channel_sent delivery.channel_id try.now (delivery_sent id delivery.channel_id ref store),
      none,
    )
after_send delivery attempts try (refused error) store =
    after_failure delivery (suc attempts) try error
      (channel_failed delivery.channel_id error try.now store)

-- One round with the channel that the registry finds.
abbrev pub try_channel : PendingDelivery → ℕ → Try → Store → Option Channel → Store × Option ℕ
try_channel delivery attempts try store none = (store, none)
try_channel delivery attempts try store (some found) =
    let id = delivery.notification.notification_id in
    if not found.sends
    then (delivery_failed id delivery.channel_id "The channel was disabled." store, none)
    else after_send delivery attempts try (try.send (outgoing try.limit delivery.notification))
        store

-- The body of the loop: the seconds to wait before the next round, none when the loop returns.
unfoldable pub try_once : PendingDelivery → ℕ → Try → Store → Store × Option ℕ
unfolding channel delivery_failed delivery_sent delivery_retried channel_sent channel_failed backoff
    outgoing
try_once delivery attempts try store =
    try_channel delivery attempts try store (channel delivery.channel_id store)

-- The loop. While it waits before round `n`, the other tasks change the store by `between n`. none
-- is a loop that is still running after so many rounds.
unfoldable pub deliver :
    ℕ → (ℕ → Try) → (ℕ → Store → Store) → PendingDelivery → ℕ → ℕ → Store → Option Store
unfolding try_once
deliver zero tries between delivery attempts n store = none
deliver (suc fuel) tries between delivery attempts n store =
    let (later, again) = try_once delivery attempts (tries n) (between n store) in
    elim again [
      | none ↦ some later
      | some wait ↦ deliver fuel tries between delivery (suc attempts) (suc n) later
    ]
