-- ===== src/Outbox/Store.antt =====
-- hub/registry.py: the tables notifications, notification_deliveries, channels and instances, as
-- far as the outbox reads and writes them. A UUID and a time in seconds are numbers.
use kinby.Common.{
  ℕ, ◌+◌, Bool, true, false, ◌&&◌, Option, none, some, List, [], ◌∷◌, ◌++◌, map, String, ◌==◌,
  nat_eq, string_eq, if◌then◌else◌, leb, find, keep, length,
}

pub data DeliveryStatus : Type 0 where
  pending sent failed muted : DeliveryStatus

abbrev pub is_pending : DeliveryStatus → Bool
is_pending pending = true
is_pending _ = false

-- An approval a turn parked on; its request is a text here.
pub record WaitingApproval : Type 0 where
  pub turn_id : ℕ
  pub request : String

pub record RunStopRef : Type 0 where
  pub run_id : ℕ
  pub generation : ℕ

pub record ChannelNotification : Type 0 where
  pub notification_id : ℕ
  pub header : String
  pub title : String
  pub text : String
  pub link : Option String
  pub options : List String

-- A row of notifications.
pub record Notification : Type 0 where
  pub instance_id : ℕ
  pub source_key : String
  pub thread_id : Option ℕ
  pub content : ChannelNotification
  pub approval : Option WaitingApproval
  pub stop : Option RunStopRef
  pub raised_at : ℕ

-- A row of notification_deliveries.
pub record Delivery : Type 0 where
  pub notification_id : ℕ
  pub channel_id : ℕ
  pub status : DeliveryStatus
  pub attempts : ℕ
  pub next_attempt : ℕ
  pub sent_ref : Option String
  pub last_error : Option String

pub record Channel : Type 0 where
  pub channel_id : ℕ
  pub sends : Bool
  pub mutes : List ℕ
  pub last_sent_at : Option ℕ
  pub last_error : Option (String × ℕ)

pub record ManagedInstance : Type 0 where
  pub instance_id : ℕ
  pub persona_name : Option String
  pub manifest_id : String

pub record Store : Type 0 where
  pub instances : List ManagedInstance
  pub channels : List Channel
  pub notifications : List Notification
  pub deliveries : List Delivery

abbrev pub is_instance : ℕ → ManagedInstance → Bool
is_instance instance_id managed = managed.instance_id == instance_id

unfoldable pub instance_of : ℕ → Store → Option ManagedInstance
instance_of instance_id store = find (is_instance instance_id) store.instances

abbrev pub is_channel : ℕ → Channel → Bool
is_channel channel_id channel = channel.channel_id == channel_id

unfoldable pub channel : ℕ → Store → Option Channel
channel channel_id store = find (is_channel channel_id) store.channels

-- WHERE instance_id = ? AND source_key = ?
abbrev pub under_key : ℕ → String → Notification → Bool
under_key instance_id key row = row.instance_id == instance_id && row.source_key == key

abbrev pub row_id : Option Notification → Option ℕ
row_id none = none
row_id (some row) = some row.content.notification_id

unfoldable pub notification_id : ℕ → String → Store → Option ℕ
notification_id instance_id key store =
    row_id (find (under_key instance_id key) store.notifications)

abbrev pub is_none {ℓ} : {A : Type ℓ} → Option A → Bool
is_none none = true
is_none (some _) = false

-- WHERE instance_id = ? AND raised_at >= ? AND approval IS NULL
abbrev pub counts_since : ℕ → ℕ → Notification → Bool
counts_since instance_id since row =
    row.instance_id == instance_id && leb since row.raised_at && is_none row.approval

unfoldable pub notifications_raised : ℕ → ℕ → Store → ℕ
notifications_raised instance_id since store =
    length (keep (counts_since instance_id since) store.notifications)

abbrev new_delivery : ℕ → ℕ → ℕ × DeliveryStatus → Delivery
new_delivery notification_id raised_at (channel_id, status) = record {
  notification_id = notification_id;
  channel_id = channel_id;
  status = status;
  attempts = 0;
  next_attempt = raised_at;
  sent_ref = none;
  last_error = none;
}

-- `HubRegistry.raise_notification` with the row that has the key.
abbrev pub insert_beside :
    Notification → List (ℕ × DeliveryStatus) → Store → Option Notification → Store × ℕ
insert_beside row new store (some old) = (store, old.content.notification_id)
insert_beside row new store none = (
  record store {
    notifications = store.notifications ++ row ∷ [];
    deliveries =
        store.deliveries ++ map (new_delivery row.content.notification_id row.raised_at) new;
  },
  row.content.notification_id,
)

-- `HubRegistry.raise_notification`: a row that has the key stays, and its id is the result.
unfoldable pub insert_notification : Notification → List (ℕ × DeliveryStatus) → Store → Store × ℕ
insert_notification row new store =
    insert_beside row new store
      (find (under_key row.instance_id row.source_key) store.notifications)

-- The deliveries of one notification that are still to send.
abbrev pub is_due : ℕ → Delivery → Bool
is_due notification_id delivery =
    is_pending delivery.status && delivery.notification_id == notification_id

unfoldable pub pending_deliveries : ℕ → Store → List Delivery
pending_deliveries notification_id store = keep (is_due notification_id) store.deliveries

-- WHERE notification_id = ? AND channel_id = ?
abbrev pub is_delivery : ℕ → ℕ → Delivery → Bool
is_delivery notification_id channel_id delivery =
    delivery.notification_id == notification_id && delivery.channel_id == channel_id

abbrev pub change {ℓ} : {A : Type ℓ} → (A → Bool) → (A → A) → A → A
change p f x = if p x then f x else x

abbrev pub change_delivery : ℕ → ℕ → (Delivery → Delivery) → Store → Store
change_delivery notification_id channel_id f store = record store {
  deliveries = map (change (is_delivery notification_id channel_id) f) store.deliveries;
}

-- COALESCE(new, old)
abbrev pub or_old : Option String → Option String → Option String
or_old none old = old
or_old (some new) old = some new

unfoldable pub end_delivery : ℕ → ℕ → DeliveryStatus → Option String → Option String → Store → Store
end_delivery notification_id channel_id status sent_ref error =
    change_delivery notification_id channel_id (λ row. record row {
      status = status;
      sent_ref = sent_ref;
      last_error = or_old error row.last_error;
    })

unfoldable pub delivery_sent : ℕ → ℕ → String → Store → Store
unfolding end_delivery
delivery_sent notification_id channel_id ref =
    end_delivery notification_id channel_id sent (some ref) none

unfoldable pub delivery_failed : ℕ → ℕ → String → Store → Store
unfolding end_delivery
delivery_failed notification_id channel_id error =
    end_delivery notification_id channel_id failed none (some error)

unfoldable pub delivery_retried : ℕ → ℕ → String → ℕ → Store → Store
delivery_retried notification_id channel_id error next_attempt =
    change_delivery notification_id channel_id (λ row. record row {
      attempts = row.attempts + 1;
      last_error = some error;
      next_attempt = next_attempt;
    })

unfoldable pub channel_sent : ℕ → ℕ → Store → Store
channel_sent channel_id at store = record store {
  channels =
      map (change (is_channel channel_id) (λ row. record row { last_sent_at = some at }))
        store.channels;
}

unfoldable pub channel_failed : ℕ → String → ℕ → Store → Store
channel_failed channel_id error at store = record store {
  channels =
      map (change (is_channel channel_id) (λ row. record row { last_error = some (error, at) }))
        store.channels;
}
