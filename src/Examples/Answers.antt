-- ===== src/Examples/Answers.antt =====
-- Replies to one notification, applied by the hub.
use kinby.Common.Keyed.{get, put}
use kinby.Outbox.Deliver.{backoff}
use kinby.Common.{
  ℕ, suc, ◌+◌, ◌*◌, ◌≤◌, true, false, none, some, List, [], ◌∷◌, ◌≡◌, refl, arith, String, map,
  nat_eq,
}
use kinby.Common.Int.{pos}
use kinby.Outbox.Store.{Store, Channel, Notification, sent}
use kinby.Outbox.Backoff.{backoff-bounds}
use kinby.Replies.Store.{Hub, ReceivedReply, failed}
use kinby.Replies.Apply.{Round, apply, refused, moved}
use kinby.Replies.Tasks.{Event, takes, begins, answers_call, restarts, run, rejected, unanswered}
use kinby.Replies.View.{asked}
use kinby.Replies.Asked.{fresh_replies, run-asked}
use kinby.Replies.Ends.{is_settled, apply-is_settled}

abbrev question : Notification
question = record {
  instance_id = 1;
  source_key = "a";
  thread_id = some 3;
  content = record {
    notification_id = 90;
    header = "Ada";
    title = "Ship it?";
    text = "The release is ready.";
    link = none;
    options = "Yes" ∷ "No" ∷ [];
  };
  approval = none;
  stop = none;
  raised_at = 0;
}

abbrev phone : Channel
phone = record { channel_id = 7; sends = true; mutes = []; last_sent_at = none; last_error = none }

abbrev store : Store
store = record {
  instances = [];
  channels = phone ∷ [];
  notifications = question ∷ [];
  deliveries =
      record {
        notification_id = 90;
        channel_id = 7;
        status = sent;
        attempts = 0;
        next_attempt = 0;
        sent_ref = some "m1";
        last_error = none;
      }
      ∷ [];
}

-- The answer is refused, tried again, broken off by a restart, and then not asked again.
abbrev afternoon : List Event
afternoon =
    takes 1 7 "m1" (pos 0) 10
    ∷ begins 1 11
    ∷ answers_call (refused true "asleep") 12
    ∷ begins 1 17
    ∷ restarts
    ∷ begins 1 30
    ∷ []

abbrev key_error : String → String
key_error option = option

afternoon_calls :
    map (λ call. call.ending) ((run key_error afternoon (fresh_replies store)).calls)
    ≡ rejected ∷ unanswered ∷ []
unfolding run get put
afternoon_calls = refl

afternoon_row :
    map (λ (id, row). row.status) ((run key_error afternoon (fresh_replies store)).hub.replies)
    ≡ failed ∷ []
unfolding run get put
afternoon_row = refl

run-asked_example : asked 1 (run key_error afternoon (fresh_replies store)).calls ≤ 1
run-asked_example = run-asked 1 key_error afternoon store

abbrev yes_reply : ReceivedReply
yes_reply = record {
  reply_id = 1;
  notification = question.content;
  instance_id = 1;
  thread_id = some 3;
  option = some "Yes";
  received_at = 10;
  channel_id = some 7;
  message = some "m1";
  calling = false;
  approval = none;
  stop = none;
}

abbrev asleep : ℕ → Round
asleep n = record {
  called = refused true "asleep";
  stopped = moved none;
  meanwhile = λ hub. hub;
  now = 10 + 300 * n;
}

sleeps : (n : ℕ) → 10 + 300 * n + backoff (suc n) ≤ 10 + 300 * suc n
sleeps n = omega (arith, backoff-bounds (suc n))

apply-is_settled_example :
    (after : Hub) × (apply key_error 294 asleep
        (λ n hub. hub)
        yes_reply
        0
        (run key_error (takes 1 7 "m1" (pos 0) 10 ∷ []) (fresh_replies store)).hub
      ≡ some after)
    × (is_settled (get 1 after.replies) ≡ true)
apply-is_settled_example =
    apply-is_settled key_error asleep (λ n hub. hub) yes_reply (omega arith) sleeps _
