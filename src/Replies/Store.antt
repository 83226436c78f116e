-- ===== src/Replies/Store.antt =====
-- hub/registry.py: the table of the replies, keyed by the reply's id, beside the tables of the
-- notifications, and the statements that hub/replies.py runs on them.
use kinby.Common.{
  ℕ, Bool, true, false, not, ◌&&◌, Option, none, some, [], ◌∷◌, ◌++◌, map, String, ◌==◌, nat_eq,
  string_eq, if◌then◌else◌, find, keep, any,
}
use kinby.Common.Keyed.{Dict, get, put}
use kinby.Outbox.Store.{
  Store, Notification, ChannelNotification, WaitingApproval, RunStopRef, Channel, Delivery,
  is_channel, is_delivery, change,
}

pub data ReplyStatus : Type 0 where
  received applied stale failed : ReplyStatus

-- A row of replies, less its id.
pub record Reply : Type 0 where
  pub notification_id : ℕ
  pub channel_id : Option ℕ
  pub option : Option String
  pub received_at : ℕ
  pub status : ReplyStatus
  pub outcome : Option String
  pub calling : Bool

pub record Hub : Type 0 where
  pub store : Store
  pub replies : Dict ℕ Reply

pub record ReceivedReply : Type 0 where
  pub reply_id : ℕ
  pub notification : ChannelNotification
  pub instance_id : ℕ
  pub thread_id : Option ℕ
  pub option : Option String
  pub received_at : ℕ
  pub channel_id : Option ℕ
  pub message : Option String
  pub calling : Bool
  pub approval : Option WaitingApproval
  pub stop : Option RunStopRef

abbrev pub is_notification : ℕ → Notification → Bool
is_notification notification_id row = row.content.notification_id == notification_id

abbrev pub is_received : ReplyStatus → Bool
is_received received = true
is_received _ = false

abbrev pub is_applied : ReplyStatus → Bool
is_applied applied = true
is_applied _ = false

abbrev pub is_some {ℓ} : {A : Type ℓ} → Option A → Bool
is_some none = false
is_some (some _) = true

-- The `sent_ref` of the delivery that the LEFT JOIN finds.
abbrev ref_of : Option Delivery → Option String
ref_of none = none
ref_of (some delivery) = delivery.sent_ref

abbrev sent_ref : ℕ → Option ℕ → Store → Option String
sent_ref notification_id none store = none
sent_ref notification_id (some channel_id) store =
    ref_of (find (is_delivery notification_id channel_id) store.deliveries)

abbrev pub joined : Store → ℕ → Reply → Option Notification → Option ReceivedReply
joined store reply_id row none = none
joined store reply_id row (some notification) = some (record {
  reply_id = reply_id;
  notification = notification.content;
  instance_id = notification.instance_id;
  thread_id = notification.thread_id;
  option = row.option;
  received_at = row.received_at;
  channel_id = row.channel_id;
  message = sent_ref row.notification_id row.channel_id store;
  calling = row.calling;
  approval = notification.approval;
  stop = notification.stop;
})

-- One row of the query: none where it is not received or its notification is not there.
unfoldable pub received_reply : Store → ℕ → Reply → Option ReceivedReply
received_reply store reply_id row =
    if is_received row.status
    then joined store reply_id row (find (is_notification row.notification_id) store.notifications)
    else none

-- `received_replies`, by the reply's id.
unfoldable pub received_replies : Store → Dict ℕ Reply → Dict ℕ ReceivedReply
received_replies store [] = []
received_replies store ((reply_id, row) ∷ replies) =
    let rest = received_replies store replies in
    elim (received_reply store reply_id row) [ none ↦ rest | some reply ↦ (reply_id, reply) ∷ rest ]

-- INSERT INTO replies
unfoldable pub record_reply : ℕ → ℕ → Option ℕ → Option String → ℕ → Hub → Hub
record_reply reply_id notification_id channel_id option received_at hub = record hub {
  replies =
      put reply_id
        (record {
          notification_id = notification_id;
          channel_id = channel_id;
          option = option;
          received_at = received_at;
          status = received;
          outcome = none;
          calling = false;
        })
        hub.replies;
}

-- notification_id = ? AND status = ? AND option IS NOT NULL
abbrev pub answers : ℕ → Reply → Bool
answers notification_id row =
    row.notification_id == notification_id && is_applied row.status && is_some row.option

unfoldable pub answered : ℕ → Dict ℕ Reply → Bool
answered notification_id replies = any (λ (_, row). answers notification_id row) replies

-- UPDATE replies SET ... WHERE id = ?
abbrev pub change_row : ℕ → (Reply → Reply) → Dict ℕ Reply → Option Reply → Dict ℕ Reply
change_row reply_id f replies none = replies
change_row reply_id f replies (some row) = put reply_id (f row) replies

unfoldable pub change_reply : ℕ → (Reply → Reply) → Hub → Hub
change_reply reply_id f hub = record hub {
  replies = change_row reply_id f hub.replies (get reply_id hub.replies);
}

unfoldable pub reply_calling : ℕ → Bool → Hub → Hub
unfolding change_reply
reply_calling reply_id calling = change_reply reply_id (λ row. record row { calling = calling })

unfoldable pub settle_reply : ℕ → ReplyStatus → String → Hub → Hub
unfolding change_reply
settle_reply reply_id status outcome =
    change_reply reply_id (λ row. record row { status = status; outcome = some outcome })

-- INSERT OR IGNORE INTO channel_mutes
abbrev mute_channel : ℕ → Channel → Channel
mute_channel instance_id channel =
    if any (λ id. id == instance_id) channel.mutes
    then channel
    else record channel { mutes = channel.mutes ++ instance_id ∷ [] }

unfoldable pub mute : ℕ → ℕ → Hub → Hub
mute channel_id instance_id hub = record hub {
  store = record hub.store {
    channels = map (change (is_channel channel_id) (mute_channel instance_id)) hub.store.channels;
  };
}

-- ON DELETE SET NULL
abbrev pub forget_channel : ℕ → Option ℕ → Option ℕ
forget_channel channel_id none = none
forget_channel channel_id (some id) = if id == channel_id then none else some id

abbrev pub without_channel : ℕ → Dict ℕ Reply → Dict ℕ Reply
without_channel channel_id [] = []
without_channel channel_id ((reply_id, row) ∷ replies) =
    (reply_id, record row { channel_id = forget_channel channel_id row.channel_id })
    ∷ without_channel channel_id replies

-- The channel goes, and its mutes and deliveries with it.
unfoldable pub delete_channel : ℕ → Hub → Hub
delete_channel channel_id hub = record {
  store = record hub.store {
    channels = keep (λ channel. not (is_channel channel_id channel)) hub.store.channels;
    deliveries = keep (λ row. not (row.channel_id == channel_id)) hub.store.deliveries;
  };
  replies = without_channel channel_id hub.replies;
}

-- channel_id = ? AND sent_ref = ?
abbrev is_sent_as : ℕ → String → Delivery → Bool
is_sent_as channel_id message row =
    row.channel_id == channel_id && elim row.sent_ref [ none ↦ false | some ref ↦ ref == message ]

abbrev notification_of : Store → Option Delivery → Option Notification
notification_of store none = none
notification_of store (some row) = find (is_notification row.notification_id) store.notifications

unfoldable pub sent_notification : ℕ → String → Store → Option Notification
sent_notification channel_id message store =
    notification_of store (find (is_sent_as channel_id message) store.deliveries)
