-- ===== src/Replies/Arrivals.antt =====
-- hub/replies.py: a reply that arrives, a channel that is deleted, and a hub that starts again keep what a
-- reply sees.
use kinby.Replies.View.Events.{restart-View, forget-View, arrive-View}
use kinby.Replies.Calls.{asked-broken}
use kinby.Replies.Rows.{
  IsTable-without_channel, get-without_channel, get-received_replies, received_at_key, IsTable-put,
}
use kinby.Outbox.Store.{Store, Notification}
use kinby.Common.Keyed.{get, get-put, put}
use kinby.Replies.Store.{
  ReceivedReply, is_received, Reply, received_reply, joined, delete_channel, record_reply, Hub,
}
use kinby.Replies.View.{Once, has_row, is_marked, has_task, is_told}
use kinby.Replies.Tasks.{Replies, restart, record_, broken_off, start_task, received_by}
use mathlib.Core.Path.{subst}
use kinby.Common.{
  ℕ, ◌≡◌, some, arith, true, ◌==◌, Bool-cases, nat_eq, inl, inr, ◌∙◌, none, String, false, Option,
  refl, Option-cases, ap, sym, eq_of_beq, string_eq,
}

no_task :
    (store : Store) (k : ℕ) (row : Option Reply)
    → has_row row ≡ false
    → has_task (received_at_key store k row) ≡ false
no_task store k none h = refl
no_task store k (some row) h = absurd (ground (arith, h))

joined_told :
    (store : Store) (k : ℕ) (row : Reply) (found : Option Notification)
    → row.calling ≡ true
    → is_told (joined store k row found) ≡ true
joined_told store k row none h = refl
joined_told store k row (some n) h = h

told_task :
    (store : Store) (k : ℕ) (row : Option Reply)
    → is_marked row ≡ true
    → is_told (received_at_key store k row) ≡ true
unfolding received_reply
told_task store k none h = refl
told_task store k (some row) h = elim (Bool-cases (is_received row.status)) [
  | inl new ↦ rw new (joined_told store k row _ (ground (arith, h, new)))
  | inr old ↦ rw old refl
]

joined-id :
    (store : Store) (k : ℕ) (row : Reply) (found : Option Notification) (reply : ReceivedReply)
    → joined store k row found ≡ some reply
    → reply.reply_id ≡ k
joined-id store k row none reply e = absurd (ground (arith, e))
joined-id store k row (some n) reply e = ground (arith, e)

received_reply-id :
    (store : Store) (k : ℕ) (row : Reply) (reply : ReceivedReply)
    → received_reply store k row ≡ some reply
    → reply.reply_id ≡ k
unfolding received_reply
received_reply-id store k row reply e = elim (Bool-cases (is_received row.status)) [
  | inl new ↦ joined-id store k row _ reply (rw new at e)
  | inr old ↦ absurd (ground (arith, e, old))
]

received_by-id :
    (k : ℕ) (hub : Hub) (found : Option Reply) (reply : ReceivedReply)
    → received_by k hub found ≡ some reply
    → reply.reply_id ≡ k
received_by-id k hub none reply e = absurd (ground (arith, e))
received_by-id k hub (some row) reply e = received_reply-id hub.store k row reply e

received_at_key-id :
    (store : Store) (k : ℕ) (found : Option Reply) (reply : ReceivedReply)
    → received_at_key store k found ≡ some reply
    → reply.reply_id ≡ k
received_at_key-id store k none reply e = absurd (ground (arith, e))
received_at_key-id store k (some row) reply e = received_reply-id store k row reply e

module _ (r : ℕ) (s : Replies) (o : Once r s) where
  unknown_row :
      (id : ℕ)
      → get id s.hub.replies ≡ none
      → (id == r) ≡ true
      → has_row (get r s.hub.replies) ≡ false
  unknown_row id free same =
      ap has_row (subst (λ i. get i s.hub.replies ≡ none) (eq_of_beq id r same) free)

  own_put :
      (id : ℕ) (new : ReceivedReply)
      → new.reply_id ≡ id
      → (k : ℕ) (reply : ReceivedReply) → get k (put id new s.tasks) ≡ some reply
      → reply.reply_id ≡ k
  own_put id new named k reply e = elim (Bool-cases (id == k)) [
    | inl same ↦ ground (arith, get-put id k new s.tasks, e, same, named)
    | inr other ↦ o.own k reply (ground (arith, get-put id k new s.tasks, e, other))
  ]

  module _ (id notification : ℕ) (channel : Option ℕ) (option : Option String) (now : ℕ) where
    abbrev recorded : Hub
    recorded = record_reply id notification channel option now s.hub

    arrives-Once :
        get id s.hub.replies ≡ none
        → (new : Option ReceivedReply)
        → ((reply : ReceivedReply) → new ≡ some reply → reply.reply_id ≡ id)
        → Once r (start_task id (record s { hub = recorded }) new)
    unfolding record_reply
    arrives-Once free none named = record {
      table = IsTable-put id _ s.hub.replies o.table;
      own = o.own;
      view =
          rw (get-put id r _ s.hub.replies) (
            arrive-View r id _ _ _ (get r s.tasks) _ _ (unknown_row id free) (λ other. refl)
              o.view);
    }
    arrives-Once free (some reply) named = record {
      table = IsTable-put id _ s.hub.replies o.table;
      own = own_put id reply (named reply refl);
      view = rw (get-put id r _ s.hub.replies) (
          arrive-View r id _ _ _ (get r s.tasks) _ _ (unknown_row id free)
            (λ other. get-put id r reply s.tasks ∙ rw other refl) o.view);
    }

    pub record_-Once : Once r (record_ id notification channel option now s)
    unfolding record_
    record_-Once = elim (Option-cases (get id s.hub.replies)) [
      | inr (row, there) ↦ rw there o
      | inl free ↦
          rw free (arrives-Once free _ (received_by-id id recorded (get id recorded.replies)))
    ]

  pub deletes-Once : (c : ℕ) → Once r (record s { hub = delete_channel c s.hub })
  unfolding delete_channel
  deletes-Once c = record {
    table = IsTable-without_channel c s.hub.replies o.table;
    own = o.own;
    view = rw (get-without_channel c r s.hub.replies) (forget-View r _ _ _ _ c o.view);
  }

  pub restarts-Once : Once r (restart s (broken_off s.applying))
  restarts-Once = record {
    table = o.table;
    own = λ k reply e.
        received_at_key-id s.hub.store k (get k s.hub.replies) reply
          (sym (get-received_replies s.hub.store k s.hub.replies o.table) ∙ e);
    view = rw (get-received_replies s.hub.store r s.hub.replies o.table) (
        restart-View r _ _ _ _ _ _ (asked-broken r s.calls s.applying)
          (no_task s.hub.store r (get r s.hub.replies))
          (told_task s.hub.store r (get r s.hub.replies)) o.view);
  }
