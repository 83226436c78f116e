-- ===== src/Replies/Ends.antt =====
-- hub/replies.py: the loop that applies a reply ends, and the reply is then settled.
use kinby.Replies.View.{settle_row}
use mathlib.Core.Path.{subst}
use kinby.Replies.Rows.{map_row, get-change_reply}
use kinby.Replies.Begins.{
  settles, ends, unmarks, calls, stops, end_stop-settles, Begins, begin-Begins,
}
use kinby.Replies.Store.{Reply, settle_reply, ReplyStatus, ReceivedReply, Hub, is_received, failed}
use kinby.Replies.Apply.{
  Round, settled, Applied, apply, came, raised, Called, returned, lost, refused, Question, turn,
  answer, Begun, try_reply, end_call, applied_when,
}
use kinby.Common.{
  ℕ, zero, suc, ◌+◌, ◌-◌, ◌≤◌, Bool, true, false, ◌&&◌, Option, none, some, ◌≡◌, refl, ap, sym, ◌∙◌,
  ◌≢◌, inl, inr, arith, String, Bool-cases, ltb, not, beq_refl, nat_eq,
}
use kinby.Common.Keyed.{get}
use kinby.Outbox.Deliver.{give_up_after, backoff}
use kinby.Outbox.Backoff.{waited, waited-day}

-- The reply's row, if there is one, is no more received.
abbrev pub is_settled : Option Reply → Bool
is_settled none = true
is_settled (some row) = not (is_received row.status)

settled_row :
    (status : ReplyStatus) (outcome : String) (row : Option Reply)
    → is_received status ≡ false
    → is_settled (map_row (settle_row status outcome) row) ≡ true
settled_row status outcome none e = refl
settled_row status outcome (some row) e = ground (arith, e)

settle_reply-is_settled :
    (id : ℕ) (status : ReplyStatus) (outcome : String) (hub : Hub)
    → is_received status ≡ false
    → is_settled (get id (settle_reply id status outcome hub).replies) ≡ true
unfolding settle_reply
settle_reply-is_settled id status outcome hub e =
    rw (get-change_reply id id (settle_row status outcome) hub)
      (rw (beq_refl id) (settled_row status outcome _ e))

settled-is_settled :
    (now : ℕ) (reply : ReceivedReply) (result : Applied) (hub after : Hub) (outcome : String)
    → settles result ≡ true
    → settled now reply result hub ≡ (after, some outcome)
    → is_settled (get reply.reply_id after.replies) ≡ true
unfolding settled
settled-is_settled now reply (came status text) hub after outcome ok e =
    subst (λ h. is_settled (get reply.reply_id h.replies) ≡ true) (ap (λ p. p.0) e)
      (settle_reply-is_settled reply.reply_id status text hub (ground (arith, ok)))
settled-is_settled now reply (raised retryable error) hub after outcome ok e =
    elim (Bool-cases (retryable && ltb (now - reply.received_at) give_up_after)) [
      | inl again ↦ absurd (ground (arith, e, again))
      | inr late ↦
          subst (λ h. is_settled (get reply.reply_id h.replies) ≡ true)
            (ap (λ p. p.0) (rw late at e))
            (settle_reply-is_settled reply.reply_id failed _ hub refl)
    ]

settled-late :
    (now : ℕ) (reply : ReceivedReply) (result : Applied) (hub : Hub)
    → give_up_after ≤ now - reply.received_at
    → (settled now reply result hub).1 ≢ none
unfolding settled
settled-late now reply (came status text) hub late e = absurd (ground (arith, e))
settled-late now reply (raised retryable error) hub late e = absurd (ground (arith, e))

end_call-settles :
    (reply : ReceivedReply) (question : Question) (called : Called) (hub : Hub)
    → settles (end_call reply question called hub).1 ≡ true
unfolding end_call
end_call-settles reply (turn option) (returned waits) hub = refl
end_call-settles reply (answer approval decision) (returned true) hub = refl
end_call-settles reply (answer approval decision) (returned false) hub = refl
end_call-settles reply question lost hub = refl
end_call-settles reply question (refused retryable error) hub = refl

applied_when-settles :
    (round : Round) (reply : ReceivedReply) (hub : Hub) (b : Hub × Begun)
    → Begins reply hub b
    → settles (applied_when round reply b).1 ≡ true
applied_when-settles round reply hub _ (ends later result e ok) = ok
applied_when-settles round reply hub _ (unmarks error free) = refl
applied_when-settles round reply hub _ (calls question free new option e) =
    end_call-settles reply question round.called _
applied_when-settles round reply hub _ (stops ref option) = end_stop-settles round.stopped

module _ (missing : String → String) (reply : ReceivedReply) where
  try_reply-is_settled :
      (round : Round) (hub after : Hub) (outcome : String)
      → try_reply missing round reply hub ≡ (after, some outcome)
      → is_settled (get reply.reply_id after.replies) ≡ true
  unfolding try_reply
  try_reply-is_settled round hub after outcome e =
      settled-is_settled round.now reply _ _ after outcome
        (applied_when-settles round reply hub _ (begin-Begins missing reply hub)) e

  try_reply-late :
      (round : Round) (hub : Hub)
      → give_up_after ≤ round.now - reply.received_at
      → (try_reply missing round reply hub).1 ≢ none
  unfolding try_reply
  try_reply-late round hub late = settled-late round.now reply _ _ late

module _ (missing : String → String) (rounds : ℕ → Round) (between : ℕ → Hub → Hub)
    (reply : ReceivedReply) (received_before : reply.received_at ≤ (rounds 0).now)
    (sleeps : (n : ℕ) → (rounds n).now + backoff (suc n) ≤ (rounds (suc n)).now) where
  clock : (n : ℕ) → reply.received_at + waited n ≤ (rounds n).now
  unfolding waited
  clock zero = omega arith
  clock (suc n) = omega (arith, clock n, sleeps n)

  abbrev Ends : ℕ → ℕ → Hub → Type 0
  Ends fuel n hub =
      (after : Hub) × (apply missing fuel rounds between reply n hub ≡ some after)
      × (is_settled (get reply.reply_id after.replies) ≡ true)

  round :
      (fuel n : ℕ) (hub after : Hub) (outcome : Option String)
      → try_reply missing (rounds n) reply (between n hub) ≡ (after, outcome)
      → apply missing (suc fuel) rounds between reply n hub ≡ (elim outcome as (λ _. Option Hub) [
        | some text ↦ some after
        | none ↦ apply missing fuel rounds between reply (suc n) after
      ])
  unfolding apply
  round fuel n hub after outcome e =
      ap
        (λ r. elim (r.1) as (λ _. Option Hub) [
          | some text ↦ some (r.0)
          | none ↦ apply missing fuel rounds between reply (suc n) (r.0)
        ])
        e

  Ends-round :
      (fuel n : ℕ) (hub after : Hub) (outcome : Option String)
      → try_reply missing (rounds n) reply (between n hub) ≡ (after, outcome)
      → (outcome ≡ none → Ends fuel (suc n) after)
      → Ends (suc fuel) n hub
  Ends-round fuel n hub after (some text) e rest = (
    after,
    round fuel n hub after (some text) e,
    try_reply-is_settled missing reply (rounds n) (between n hub) after text e,
  )
  Ends-round fuel n hub after none e rest =
      let (final, ran, done) = rest refl in (final, round fuel n hub after none e ∙ ran, done)

  late_round :
      (n : ℕ) (hub : Hub) → n ≡ 293 → (try_reply missing (rounds n) reply (between n hub)).1 ≢ none
  late_round n hub e =
      try_reply-late missing reply (rounds n) (between n hub)
        (omega (arith, clock n, subst (λ k. 86400 ≤ waited k) (sym e) waited-day))

  Ends-from : (fuel n : ℕ) (hub : Hub) → fuel + n ≡ 293 → Ends (suc fuel) n hub
  Ends-from zero n hub left =
      Ends-round zero n hub _ _ refl (λ again. absurd (late_round n hub (omega arith) again))
  Ends-from (suc fuel) n hub left =
      Ends-round (suc fuel) n hub _ _ refl (λ again. Ends-from fuel (suc n) _ (omega arith))

  -- The loop that applies a reply ends within 294 rounds, whatever each round meets, and whatever the
  -- other tasks do to the hub within the rounds and between them. The reply's row, if it is there, is
  -- then applied, stale or failed and no more received. The clock never tells a time before the reply
  -- arrived, and each sleep takes the time asked for at least.
  pub apply-is_settled :
      (hub : Hub)
      → (after : Hub) × (apply missing 294 rounds between reply 0 hub ≡ some after)
        × (is_settled (get reply.reply_id after.replies) ≡ true)
  apply-is_settled hub = Ends-from 293 0 hub (omega arith)
