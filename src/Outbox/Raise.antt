-- ===== src/Outbox/Raise.antt =====
-- hub/outbox.py: raising a notification, once per key and at most so many a day.
use kinby.Common.{
  ℕ, Bool, ◌&&◌, Option, none, some, List, [], ◌∷◌, map, String, ◌==◌, nat_eq, string_eq,
  if◌then◌else◌, leb, any, keep,
}
use kinby.Common.Text.{text, decimal}
use kinby.Outbox.Store.{
  Store, Channel, ManagedInstance, Notification, Delivery, DeliveryStatus, pending, muted,
  WaitingApproval, RunStopRef, instance_of, notification_id, notifications_raised,
  insert_notification, pending_deliveries, is_none,
}

-- What the outbox takes from outside: the date of a time as `{now.date()}` writes it, and the
-- midnight that starts its day, of the clock's time zone.
pub record Calendar : Type 0 where
  pub date : ℕ → String
  pub midnight : ℕ → ℕ

abbrev pub daily_cap : ℕ
daily_cap = 20

pub record NotificationRaiseCommand : Type 0 where
  pub key : String
  pub source : String
  pub title : String
  pub body : String
  pub options : List String
  pub thread_id : ℕ
  pub approval : Option WaitingApproval

-- What raising answers: an id, `ManagedInstanceNotFound`, or `NotificationCapReached`.
pub data RaiseAnswer : Type 0 where
  raised : ℕ → RaiseAnswer
  not_found : RaiseAnswer
  cap_reached : RaiseAnswer

-- The store afterwards, the answer, and the deliveries whose tasks were started.
pub record RaiseOutcome : Type 0 where
  pub store : Store
  pub answer : RaiseAnswer
  pub started : List Delivery

-- `record.persona_name or record.manifest_id`
abbrev name : ManagedInstance → String
name managed = elim managed.persona_name [
  | none ↦ managed.manifest_id
  | some persona ↦ if persona == "" then managed.manifest_id else persona
]

abbrev link_to : Option String → String → Option String
link_to none page = none
link_to (some public_url) page = some (text (public_url ∷ page ∷ []))

abbrev delivery_to : ℕ → Channel → ℕ × DeliveryStatus
delivery_to instance_id channel = (
  channel.channel_id,
  if any (λ muted_id. muted_id == instance_id) channel.mutes then muted else pending,
)

-- What `notify` is told besides the instance and the key.
pub record Message : Type 0 where
  pub source : String
  pub title : String
  pub body : String
  pub page : String
  pub options : List String
  pub thread_id : Option ℕ
  pub approval : Option WaitingApproval
  pub stop : Option RunStopRef

-- The row that `notify` asks the registry to insert.
unfoldable pub notification_row :
    Option String → ManagedInstance → ℕ → String → Message → ℕ → ℕ → Notification
unfolding text
notification_row public_url managed instance_id key message now fresh = record {
  instance_id = instance_id;
  source_key = key;
  thread_id = message.thread_id;
  content = record {
    notification_id = fresh;
    header = text (name managed ∷ " · " ∷ message.source ∷ []);
    title = message.title;
    text = message.body;
    link = link_to public_url message.page;
    options = message.options;
  };
  approval = message.approval;
  stop = message.stop;
  raised_at = now;
}

abbrev pub deliveries_for : ℕ → Store → List (ℕ × DeliveryStatus)
deliveries_for instance_id store =
    map (delivery_to instance_id) (keep (λ channel. channel.sends) store.channels)

-- `if raised == notification.notification_id: self._deliver_all(...)`, and the id
abbrev pub announce : ℕ → Store × ℕ → RaiseOutcome
announce fresh (store, raised_id) = record {
  store = store;
  answer = raised raised_id;
  started = if raised_id == fresh then pending_deliveries raised_id store else [];
}

-- `Outbox.notify` for the instance that the registry finds, where `uuid4()` gives `fresh`.
abbrev pub notify_for :
    Option String → ℕ → String → Message → ℕ → ℕ → Store → Option ManagedInstance → RaiseOutcome
notify_for public_url instance_id key message now fresh store none = record {
  store = store;
  answer = not_found;
  started = [];
}
notify_for public_url instance_id key message now fresh store (some managed) = announce fresh (
    insert_notification (notification_row public_url managed instance_id key message now fresh)
      (deliveries_for instance_id store) store)

unfoldable pub notify : Option String → ℕ → String → Message → ℕ → ℕ → Store → RaiseOutcome
unfolding instance_of notification_row insert_notification pending_deliveries
notify public_url instance_id key message now fresh store =
    notify_for public_url instance_id key message now fresh store (instance_of instance_id store)

abbrev page_of : ℕ → ℕ → String
page_of instance_id thread_id =
    text ("/instances/" ∷ decimal instance_id ∷ "/threads/" ∷ decimal thread_id ∷ [])

abbrev pub cap_key : Calendar → ℕ → String
cap_key calendar now = text ("cap:" ∷ calendar.date now ∷ [])

abbrev pub cap_message : ManagedInstance → ℕ → NotificationRaiseCommand → Message
cap_message managed instance_id command = record {
  source = command.source;
  title = "Daily notification cap reached";
  body = text (
      name managed
      ∷ " raised "
      ∷ decimal daily_cap
      ∷ " notifications today. "
      ∷ "kinby sends no more of them until tomorrow, but approvals still reach you."
      ∷ []);
  page = page_of instance_id command.thread_id;
  options = [];
  thread_id = some command.thread_id;
  approval = none;
  stop = none;
}

abbrev pub message_of : ℕ → NotificationRaiseCommand → Message
message_of instance_id command = record {
  source = command.source;
  title = command.title;
  body = command.body;
  page = page_of instance_id command.thread_id;
  options = command.options;
  thread_id = some command.thread_id;
  approval = command.approval;
  stop = none;
}

abbrev pub is_capped : Calendar → ℕ → NotificationRaiseCommand → ℕ → Store → Bool
is_capped calendar instance_id command now store =
    is_none command.approval
    && leb daily_cap (notifications_raised instance_id (calendar.midnight now) store)

-- What follows the lookup of the key: a refusal keeps what the notice about the cap recorded.
abbrev pub raise_new :
    Calendar
    → Option String
    → ManagedInstance
    → ℕ
    → NotificationRaiseCommand
    → ℕ
    → ℕ
    → Store
    → RaiseOutcome
raise_new calendar public_url managed instance_id command now fresh store =
    let notice =
      notify public_url instance_id (cap_key calendar now) (cap_message managed instance_id command)
        now fresh store in
    if is_capped calendar instance_id command now store
    then record notice { answer = cap_reached }
    else notify public_url instance_id command.key (message_of instance_id command) now fresh store

abbrev pub raise_for :
    Calendar
    → Option String
    → ℕ
    → NotificationRaiseCommand
    → ℕ
    → ℕ
    → Store
    → Option ManagedInstance
    → Option ℕ
    → RaiseOutcome
raise_for calendar public_url instance_id command now fresh store none known = record {
  store = store;
  answer = not_found;
  started = [];
}
raise_for calendar public_url instance_id command now fresh store (some managed) (some known) =
    record { store = store; answer = raised known; started = [] }
raise_for calendar public_url instance_id command now fresh store (some managed) none =
    raise_new calendar public_url managed instance_id command now fresh store

-- `Outbox.raise_notification`
unfoldable pub raise_notification :
    Calendar → Option String → ℕ → NotificationRaiseCommand → ℕ → ℕ → Store → RaiseOutcome
unfolding instance_of notification_id notifications_raised notify text decimal
raise_notification calendar public_url instance_id command now fresh store =
    raise_for calendar public_url instance_id command now fresh store
      (instance_of instance_id store) (notification_id instance_id command.key store)
