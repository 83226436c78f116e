-- ===== src/Replies/Tasks.antt =====
-- hub/replies.py: the tasks that apply replies, one at a time, while other replies arrive, channels
-- are deleted and the hub starts again.
use kinby.Common.{
  ℕ, Bool, Option, none, some, List, [], ◌∷◌, ◌++◌, String, ◌==◌, nat_eq, if◌then◌else◌, find, suc,
  any, string_eq, zero,
}
use kinby.Common.Int.{ℤ, pos, negsuc}
use kinby.Common.Keyed.{Dict, get, put, remove}
use kinby.Outbox.Store.{Store, Notification}
use kinby.Replies.Store.{
  Hub, Reply, ReceivedReply, received_reply, received_replies, record_reply, delete_channel,
  sent_notification, is_notification,
}
use kinby.Replies.Apply.{
  Question, Begun, ended, asks, asks_stop, Applied, Called, returned, lost, refused, Moved, begin,
  end_call, end_stop, settled,
}

-- What the task that holds the lock waits for.
pub data Waiting : Type 0 where
  on_instance : Question → Waiting
  on_stop : Waiting

-- How a call of an instance ended: `unanswered` is one whose answer was lost, or that a restart
-- broke off.
pub data Ending : Type 0 where
  took : Bool → Ending
  unanswered : Ending
  rejected : Ending

-- A call of an instance that has ended.
pub record Call : Type 0 where
  pub reply_id : ℕ
  pub notification_id : ℕ
  pub question : Question
  pub ending : Ending

-- `tasks` are those of this process, each with the reply it was started with; `calls` are all that
-- were made of the instances.
pub record Replies : Type 0 where
  pub hub : Hub
  pub tasks : Dict ℕ ReceivedReply
  pub applying : Option (ReceivedReply × Waiting)
  pub calls : List Call

abbrev pub start_task : ℕ → Replies → Option ReceivedReply → Replies
start_task reply_id s none = s
start_task reply_id s (some reply) = record s { tasks = put reply_id reply s.tasks }

abbrev pub received_by : ℕ → Hub → Option Reply → Option ReceivedReply
received_by reply_id hub none = none
received_by reply_id hub (some row) = received_reply hub.store reply_id row

-- `_record`. An id that a reply has already is refused by the table's key.
abbrev pub record_new : ℕ → ℕ → Option ℕ → Option String → ℕ → Replies → Option Reply → Replies
record_new reply_id notification_id channel_id option now s (some row) = s
record_new reply_id notification_id channel_id option now s none =
    let hub = record_reply reply_id notification_id channel_id option now s.hub in
    start_task reply_id (record s { hub = hub })
      (received_by reply_id hub (get reply_id hub.replies))

unfoldable pub record_ : ℕ → ℕ → Option ℕ → Option String → ℕ → Replies → Replies
unfolding record_reply received_reply
record_ reply_id notification_id channel_id option now s =
    record_new reply_id notification_id channel_id option now s (get reply_id s.hub.replies)

-- The options that the channel sent: the notification's, and "Mute this instance" after them. none
-- is an option that it did not send.
abbrev pub option_at : List String → ℤ → Option (Option String)
option_at options (negsuc n) = none
option_at [] (pos n) = if n == 0 then some none else none
option_at (option ∷ options) (pos zero) = some (some option)
option_at (option ∷ options) (pos (suc n)) = option_at options (pos n)

abbrev pub take_for : ℕ → ℕ → ℤ → ℕ → Replies → Option Notification → Replies
take_for reply_id channel_id index now s none = s
take_for reply_id channel_id index now s (some row) = elim (option_at row.content.options index) [
  | none ↦ s
  | some option ↦ record_ reply_id row.content.notification_id (some channel_id) option now s
]

-- `_take`
unfoldable pub take_reply : ℕ → ℕ → String → ℤ → ℕ → Replies → Replies
unfolding record_ sent_notification
take_reply reply_id channel_id message index now s =
    take_for reply_id channel_id index now s (sent_notification channel_id message s.hub.store)

-- The task ends with an outcome, and else sleeps to try again.
abbrev pub end_task : ReceivedReply → Replies → Hub × Option String → Replies
end_task reply s (hub, none) = record s { hub = hub; applying = none }
end_task reply s (hub, some outcome) = record s {
  hub = hub;
  tasks = remove reply.reply_id s.tasks;
  applying = none;
}

abbrev pub settle_with : ℕ → ReceivedReply → Replies → Hub × Applied → Replies
settle_with now reply s (hub, result) = end_task reply s (settled now reply result hub)

abbrev pub begun : ℕ → ReceivedReply → Replies → Hub × Begun → Replies
begun now reply s (hub, ended result) = settle_with now reply s (hub, result)
begun now reply s (hub, asks question) = record s {
  hub = hub;
  applying = some (reply, on_instance question);
}
begun now reply s (hub, asks_stop ref option) = record s {
  hub = hub;
  applying = some (reply, on_stop);
}

abbrev pub call_of : ReceivedReply → Question → Ending → Call
call_of reply question ending = record {
  reply_id = reply.reply_id;
  notification_id = reply.notification.notification_id;
  question = question;
  ending = ending;
}

abbrev pub ending_of : Called → Ending
ending_of (returned waits) = took waits
ending_of lost = unanswered
ending_of (refused retryable error) = rejected

-- What may happen next.
pub data Event : Type 0 where
  takes : ℕ → ℕ → String → ℤ → ℕ → Event
  replies : ℕ → ℕ → String → ℕ → Event
  begins : ℕ → ℕ → Event
  answers_call : Called → ℕ → Event
  answers_stop : Moved → ℕ → Event
  deletes : ℕ → Event
  changes : (Store → Store) → Event
  restarts : Event

-- `reply`: an option that the notification does not offer raises.
abbrev pub reply_to : ℕ → ℕ → String → ℕ → Replies → Option Notification → Replies
reply_to reply_id notification_id option now s none = s
reply_to reply_id notification_id option now s (some row) =
    if any (λ offered. offered == option) row.content.options
    then record_ reply_id notification_id none (some option) now s
    else s

abbrev pub restart : Replies → List Call → Replies
restart s broken = record s {
  tasks = received_replies s.hub.store s.hub.replies;
  applying = none;
  calls = s.calls ++ broken;
}

-- The call that a restart breaks off, if an instance was being called.
abbrev pub broken_off : Option (ReceivedReply × Waiting) → List Call
broken_off none = []
broken_off (some (reply, on_stop)) = []
broken_off (some (reply, on_instance question)) = call_of reply question unanswered ∷ []

abbrev pub answer_call : Called → ℕ → Replies → Option (ReceivedReply × Waiting) → Replies
answer_call called now s none = s
answer_call called now s (some (reply, on_stop)) = s
answer_call called now s (some (reply, on_instance question)) =
    settle_with now reply
      (record s { calls = s.calls ++ call_of reply question (ending_of called) ∷ [] })
      (end_call reply question called s.hub)

abbrev pub answer_stop : Moved → ℕ → Replies → Option (ReceivedReply × Waiting) → Replies
answer_stop result now s none = s
answer_stop result now s (some (reply, on_instance question)) = s
answer_stop result now s (some (reply, on_stop)) = settle_with now reply s (s.hub, end_stop result)

module _ (missing : String → String) where
  -- A task takes the lock, which is free.
  abbrev pub begin_task :
      ℕ → Replies → Option (ReceivedReply × Waiting) → Option ReceivedReply → Replies
  begin_task now s none (some reply) = begun now reply s (begin missing reply s.hub)
  begin_task now s none none = s
  begin_task now s (some holder) task = s

  -- An event that cannot happen in a state leaves it as it is.
  unfoldable pub step : Event → Replies → Replies
  unfolding take_reply record_ begin end_call end_stop settled delete_channel received_replies
  step (takes reply_id channel_id message index now) s =
      take_reply reply_id channel_id message index now s
  step (replies reply_id notification_id option now) s =
      reply_to reply_id notification_id option now s
        (find (is_notification notification_id) s.hub.store.notifications)
  step (begins reply_id now) s = begin_task now s s.applying (get reply_id s.tasks)
  step (answers_call called now) s = answer_call called now s s.applying
  step (answers_stop result now) s = answer_stop result now s s.applying
  step (deletes channel_id) s = record s { hub = delete_channel channel_id s.hub }
  step (changes f) s = record s { hub = record s.hub { store = f s.hub.store } }
  step restarts s = restart s (broken_off s.applying)

  unfoldable pub run : List Event → Replies → Replies
  unfolding step
  run [] s = s
  run (event ∷ events) s = run events (step event s)
