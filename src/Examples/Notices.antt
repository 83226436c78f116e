-- ===== src/Examples/Notices.antt =====
-- Notifications of one instance, raised and delivered.
use kinby.Common.{ℕ, ◌*◌, ◌≤◌, true, none, some, List, [], ◌∷◌, ◌≡◌, refl, arith, String}
use kinby.Common.Text.{text, decimal}
use kinby.Outbox.Store.{Store, Channel, ManagedInstance, instance_of}
use kinby.Outbox.Raise.{Calendar, NotificationRaiseCommand, raised, raise_notification, daily_cap}
use kinby.Outbox.Deliver.{PendingDelivery, Try, refused}
use kinby.Outbox.Again.{Raise, raise_all, raise_notification-again}
use kinby.Outbox.Cap.{agent_count, raise_all-capped}

abbrev calendar : Calendar
calendar = record { date = decimal; midnight = λ now. 0 }

abbrev coder : ManagedInstance
coder = record { instance_id = 1; persona_name = some "Ada"; manifest_id = "coder" }

abbrev phone : Channel
phone = record { channel_id = 7; sends = true; mutes = []; last_sent_at = none; last_error = none }

abbrev hub : Store
hub = record { instances = coder ∷ []; channels = phone ∷ []; notifications = []; deliveries = [] }

abbrev asks : String → NotificationRaiseCommand
asks key = record {
  key = key;
  source = "nightly";
  title = "Done";
  body = "The nightly run is done.";
  options = [];
  thread_id = 3;
  approval = none;
}

first_answer : (raise_notification calendar none 1 (asks "a") 5 90 hub).answer ≡ raised 90
unfolding raise_notification
first_answer = refl

coder_found : instance_of 1 hub ≡ some coder
unfolding instance_of
coder_found = refl

abbrev others : List Raise
others = (record { instance_id = 1; command = asks "b"; now = 6; fresh = 91 }) ∷ []

abbrev once : Store
once = (raise_notification calendar none 1 (asks "a") 5 90 hub).store

raise_notification-again_example :
    raise_notification calendar none 1 (asks "a") 9 92 (raise_all calendar none others once)
    ≡ record { store = raise_all calendar none others once; answer = raised 90; started = [] }
raise_notification-again_example =
    raise_notification-again calendar none 1 (asks "a") (asks "a") 5 90 9 92 90 hub coder others
      coder_found first_answer refl

raise_all-capped_example :
    agent_count 1 0 "cap:6" ((raise_all calendar none others hub).notifications) ≤ daily_cap
unfolding text decimal
raise_all-capped_example = raise_all-capped 1 0 "cap:6" calendar none others hub refl (omega arith)

abbrev sending : PendingDelivery
sending = record {
  notification = record {
    notification_id = 90;
    header = "Ada · nightly";
    title = "Done";
    text = "The nightly run is done.";
    link = none;
    options = [];
  };
  channel_id = 7;
  raised_at = 0;
}

abbrev down : ℕ → Try
down n = record { limit = 100; send = λ notification. refused "no route"; now = 300 * n }
