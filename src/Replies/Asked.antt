-- ===== src/Replies/Asked.antt =====
-- hub/replies.py: through whatever events, a reply asks its instance once.
use kinby.Replies.Calls.{answer_call-Once}
use kinby.Replies.Arrivals.{deletes-Once, record_-Once, restarts-Once}
use kinby.Common.Int.{ℤ}
use kinby.Replies.Begins.{begin-Begins, end_stop-settles}
use kinby.Outbox.Store.{Store, Notification}
use kinby.Replies.Once.{settle_with-Once, begun-Once}
use kinby.Common.Keyed.{get}
use kinby.Replies.Apply.{Called, end_stop, Moved}
use kinby.Replies.Store.{ReceivedReply}
use kinby.Replies.View.{Once, asked, free-View}
use kinby.Replies.Tasks.{
  Replies, on_instance, takes, replies, begins, answers_call, answers_stop, deletes, changes,
  restarts, step, Waiting, Event, on_stop, take_reply, answer_call, reply_to, begin_task, run,
  answer_stop, take_for, option_at,
}
use kinby.Common.{
  ℕ, ◌≡◌, List, ◌∷◌, [], some, arith, ◌==◌, Bool-cases, nat_eq, inl, inr, none, String, Option,
  refl, Option-cases, any, ◌≤◌, string_eq,
}

module _ (r : ℕ) (s : Replies) (o : Once r s) where
  take_for-Once :
      (id c : ℕ) (index : ℤ) (now : ℕ) (found : Option Notification)
      → Once r (take_for id c index now s found)
  take_for-Once id c index now none = o
  take_for-Once id c index now (some row) =
      elim (Option-cases (option_at row.content.options index)) [
        | inl unsent ↦ rw (unsent, take_for) o
        | inr (option, sent) ↦
            rw (sent, take_for)
              (record_-Once r s o id row.content.notification_id (some c) option now)
      ]

  reply_to-Once :
      (id n : ℕ) (option : String) (now : ℕ) (found : Option Notification)
      → Once r (reply_to id n option now s found)
  reply_to-Once id n option now none = o
  reply_to-Once id n option now (some row) =
      elim (Bool-cases (any (λ offered. offered == option) row.content.options)) [
        | inl offered ↦ rw offered (record_-Once r s o id n none (some option) now)
        | inr other ↦ rw other o
      ]

  released-Once : Once r (record s { applying = none })
  released-Once = record { table = o.table; own = o.own; view = free-View o.view }

  begin_task-Once :
      (missing : String → String) (k now : ℕ) (holder : Option (ReceivedReply × Waiting))
      (task : Option ReceivedReply)
      → get k s.tasks ≡ task
      → Once r (begin_task missing now s holder task)
  begin_task-Once missing k now none (some reply) e =
      begun-Once r k reply s e released-Once now _ (begin-Begins missing reply s.hub)
  begin_task-Once missing k now none none e = o
  begin_task-Once missing k now (some holder) task e = o

  answer_call_for-Once :
      (called : Called) (now : ℕ) (holder : Option (ReceivedReply × Waiting))
      → s.applying ≡ holder
      → Once r (answer_call called now s holder)
  answer_call_for-Once called now none e = o
  answer_call_for-Once called now (some (reply, on_stop)) e = o
  answer_call_for-Once called now (some (reply, on_instance question)) e =
      answer_call-Once r now s o reply question e called

  answer_stop_for-Once :
      (result : Moved) (now : ℕ) (holder : Option (ReceivedReply × Waiting))
      → Once r (answer_stop result now s holder)
  answer_stop_for-Once result now none = o
  answer_stop_for-Once result now (some (reply, on_instance question)) = o
  answer_stop_for-Once result now (some (reply, on_stop)) =
      settle_with-Once r now reply s (end_stop result) (end_stop-settles result) released-Once

  -- An event keeps what is known of a reply.
  step-Once : (missing : String → String) (event : Event) → Once r (step missing event s)
  unfolding step take_reply
  step-Once missing (takes id c message index now) = take_for-Once id c index now _
  step-Once missing (replies id n option now) = reply_to-Once id n option now _
  step-Once missing (begins k now) = begin_task-Once missing k now s.applying (get k s.tasks) refl
  step-Once missing (answers_call called now) = answer_call_for-Once called now s.applying refl
  step-Once missing (answers_stop result now) = answer_stop_for-Once result now s.applying
  step-Once missing (deletes c) = deletes-Once r s o c
  step-Once missing (changes f) = record { table = o.table; own = o.own; view = o.view }
  step-Once missing restarts = restarts-Once r s o

run-Once :
    (r : ℕ) (missing : String → String) (events : List Event) (s : Replies)
    → Once r s
    → Once r (run missing events s)
unfolding run
run-Once r missing [] s o = o
run-Once r missing (event ∷ events) s o =
    run-Once r missing events (step missing event s) (step-Once r s o missing event)

-- The hub as it starts for the first time, with no reply.
abbrev pub fresh_replies : Store → Replies
fresh_replies store = record {
  hub = record { store = store; replies = [] };
  tasks = [];
  applying = none;
  calls = [];
}

fresh-Once : (r : ℕ) (store : Store) → Once r (fresh_replies store)
unfolding get
fresh-Once r store = record {
  table = tt;
  own = λ k reply e. absurd (ground (arith, e));
  view = record {
    at_most = omega arith;
    absent = λ h. (refl, refl, refl);
    marked = λ h. refl;
    told = λ h. refl;
    held = λ h. absurd (ground (arith, h));
  };
}

-- From a hub without replies, whatever happens then, in whatever order (replies arrive, tasks begin,
-- fail, are tried again and end, channels are deleted, other parts change the notifications and
-- channels, and the hub starts again at any point), at most one call of an instance for one reply
-- may have landed: every other call for that reply was answered with an error.
pub run-asked :
    (r : ℕ) (missing : String → String) (events : List Event) (store : Store)
    → asked r (run missing events (fresh_replies store)).calls ≤ 1
run-asked r missing events store =
    (run-Once r missing events (fresh_replies store) (fresh-Once r store)).view.at_most
