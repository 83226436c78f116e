-- ===== src/Replies/Once.antt =====
-- hub/replies.py: a reply asks its instance once.
use kinby.Outbox.Deliver.{give_up_after}
use mathlib.Core.Path.{subst}
use kinby.Replies.View.{
  asked, Once, Settling, View-Settling, settle_row, settle-View, own-remove, set_calling, mark-View,
  call-View, has_row,
}
use kinby.Common.{
  ℕ, ◌<◌, Bool, true, false, ◌&&◌, Option, none, some, ◌≡◌, refl, String, ◌==◌, nat_eq, inl, inr,
  Bool-cases, arith, sym, ◌∙◌, ltb, ◌-◌, suc, zero, ap, eq_of_beq,
}
use kinby.Replies.Apply.{settled, Applied, Question, Begun, came, raised}
use kinby.Replies.Begins.{settles, mark, Begins, ends, unmarks, calls, stops}
use kinby.Replies.Store.{reply_calling, failed}
use kinby.Common.Keyed.{get, remove, get-remove}
use kinby.Replies.Store.{
  Hub, Reply, ReceivedReply, is_received, settle_reply, ReplyStatus, reply_calling,
}
use kinby.Replies.Tasks.{begun, Replies, on_instance, settle_with}
use kinby.Replies.Rows.{IsTable, IsTable-change_reply, get-change_reply}

zero_unless : (n : ℕ) → (0 < n → ⊥) → n ≡ 0
zero_unless zero h = refl
zero_unless (suc n) h = absurd (h (omega arith))

module _ (r now : ℕ) (reply : ReceivedReply) (s : Replies) where
  pub settle-Once :
      (status : ReplyStatus) (outcome : String)
      → is_received status ≡ false
      → IsTable s.hub.replies
      → ((k : ℕ) (task : ReceivedReply) → get k s.tasks ≡ some task → task.reply_id ≡ k)
      → Settling r reply.reply_id (asked r s.calls) (get r s.hub.replies) (get r s.tasks)
      → Once r (record s {
        hub = settle_reply reply.reply_id status outcome s.hub;
        tasks = remove reply.reply_id s.tasks;
        applying = none;
      })
  unfolding settle_reply
  settle-Once status outcome e table own v = record {
    table = IsTable-change_reply reply.reply_id (settle_row status outcome) s.hub table;
    own = own-remove reply.reply_id s.tasks own;
    view = rw (get-change_reply reply.reply_id r (settle_row status outcome) s.hub) (
        rw (get-remove reply.reply_id r s.tasks)
          (settle-View r reply.reply_id _ _ _ status outcome e v));
  }

  -- The end of a round: the task settles its reply, or sleeps to try again.
  pub settle_with-Once :
      (result : Applied)
      → settles result ≡ true
      → Once r (record s { applying = none })
      → Once r (settle_with now reply s (s.hub, result))
  unfolding settled
  settle_with-Once (came status outcome) ok o =
      settle-Once status outcome (ground (arith, ok)) o.table o.own
        (View-Settling reply.reply_id o.view)
  settle_with-Once (raised retryable error) ok o =
      elim (Bool-cases (retryable && ltb (now - reply.received_at) give_up_after)) [
        | inl again ↦ rw again o
        | inr late ↦
            rw late (settle-Once failed _ refl o.table o.own (View-Settling reply.reply_id o.view))
      ]

module _ (r : ℕ) (s : Replies) where
  pub mark-Once :
      (reply : ReceivedReply) (b : Bool)
      → ((reply.reply_id == r) ≡ true → asked r s.calls ≡ 0)
      → Once r (record s { applying = none })
      → Once r (record s { hub = mark b reply s.hub; applying = none })
  unfolding reply_calling
  mark-Once reply b none_yet o = record {
    table = IsTable-change_reply reply.reply_id (set_calling b) s.hub o.table;
    own = o.own;
    view =
        rw (get-change_reply reply.reply_id r (set_calling b) s.hub)
          (mark-View r reply.reply_id _ _ _ b none_yet o.view);
  }

  call-Once :
      (reply : ReceivedReply) (question : Question)
      → ((reply.reply_id == r) ≡ true
          → (asked r s.calls ≡ 0) × (has_row (get r s.hub.replies) ≡ true))
      → Once r (record s { applying = none })
      → Once r
          (record s { hub = mark true reply s.hub; applying = some (reply, on_instance question) })
  unfolding reply_calling
  call-Once reply question fresh o = record {
    table = IsTable-change_reply reply.reply_id (set_calling true) s.hub o.table;
    own = o.own;
    view =
        rw (get-change_reply reply.reply_id r (set_calling true) s.hub)
          (call-View r reply.reply_id _ _ _ fresh o.view);
  }

module _ (r k : ℕ) (reply : ReceivedReply) (s : Replies) (task : get k s.tasks ≡ some reply)
    (o : Once r (record s { applying = none })) where
  -- A task that was not told of a call was not called, and its row is there.
  fresh :
      reply.calling ≡ false
      → (reply.reply_id == r) ≡ true
      → (asked r s.calls ≡ 0) × (has_row (get r s.hub.replies) ≡ true)
  fresh free same = (
    zero_unless _ (λ h. absurd (ground (arith, o.view.told h, task, mine, free))),
    here (get r s.hub.replies) refl,
  )
    where
      mine : get r s.tasks ≡ some reply
      mine =
          subst (λ i. get i s.tasks ≡ some reply)
            (sym (o.own k reply task) ∙ eq_of_beq reply.reply_id r same) task

      here : (row : Option Reply) → get r s.hub.replies ≡ row → has_row row ≡ true
      here none e = absurd (ground (arith, o.view.absent (ap has_row e), mine))
      here (some row) e = refl

  same_rows :
      (later : Hub)
      → later.replies ≡ s.hub.replies
      → Once r (record s { hub = later; applying = none })
  same_rows later e = record { table = rw e o.table; own = o.own; view = rw e o.view }

  pub begun-Once : (now : ℕ) (b : Hub × Begun) → Begins reply s.hub b → Once r (begun now reply s b)
  begun-Once now _ (ends later result e ok) =
      settle_with-Once r now reply (record s { hub = later }) result ok (same_rows later e)
  begun-Once now _ (unmarks error free) =
      settle_with-Once r now reply (record s { hub = mark false reply (mark true reply s.hub) })
        (raised false error) refl
        (mark-Once r (record s { hub = mark true reply s.hub }) reply false (λ e. (fresh free e).0)
          (mark-Once r s reply true (λ e. (fresh free e).0) o))
  begun-Once now _ (calls question free new option e) = call-Once r s reply question (fresh free) o
  begun-Once now _ (stops ref option) = record { table = o.table; own = o.own; view = o.view }
