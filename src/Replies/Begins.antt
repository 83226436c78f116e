-- ===== src/Replies/Begins.antt =====
-- hub/replies.py: what applying a reply does to the table before it waits, and what its end does.
use kinby.Common.{
  ℕ, Bool, true, false, not, Option, none, some, ◌≡◌, refl, String, inl, inr, Bool-cases, any, ◌==◌,
  nat_eq, if◌then◌else◌,
}
use kinby.Outbox.Store.{Channel, WaitingApproval, RunStopRef, failed}
use kinby.Replies.Store.{failed, is_received, Hub, ReceivedReply, reply_calling, answered, mute}
use kinby.Replies.Apply.{
  Question, Begun, ended, asks, asks_stop, Applied, came, raised, begin, ApprovalDecision, mute_on,
  ask_instance, apply_to_instance, apply_option, apply_reply, decision_of, unknown, Moved, moved,
  broke, end_stop,
}

-- What `_applied` returns leaves the reply no more received.
abbrev pub settles : Applied → Bool
settles (came status outcome) = not (is_received status)
settles (raised retryable error) = true

abbrev pub mark : Bool → ReceivedReply → Hub → Hub
mark calling reply hub = reply_calling reply.reply_id calling hub

pub data Begins (reply : ReceivedReply) (hub : Hub) : Hub × Begun → Type 0 where
  ends :
      (later : Hub) (result : Applied)
      → later.replies ≡ hub.replies
      → settles result ≡ true
      → Begins reply hub (later, ended result)
  unmarks :
      (error : String)
      → reply.calling ≡ false
      → Begins reply hub (mark false reply (mark true reply hub), ended (raised false error))
  calls :
      (question : Question)
      → reply.calling ≡ false
      → answered reply.notification.notification_id hub.replies ≡ false
      → (option : String) → reply.option ≡ some option
      → Begins reply hub (mark true reply hub, asks question)
  stops : (ref : RunStopRef) (option : String) → Begins reply hub (hub, asks_stop ref option)

mute_on-Begins :
    (reply : ReceivedReply) (hub : Hub) (found : Option Channel)
    → Begins reply hub (mute_on reply hub found)
unfolding mute
mute_on-Begins reply hub none = ends hub _ refl refl
mute_on-Begins reply hub (some c) =
    elim (Bool-cases (any (λ id. id == reply.instance_id) c.mutes)) [
      | inl muted ↦ rw muted (ends hub _ refl refl)
      | inr heard ↦ rw heard (ends _ _ refl refl)
    ]

module _ (missing : String → String) (reply : ReceivedReply) (hub : Hub) where
  ask_instance-Begins :
      (option : String) (approval : Option WaitingApproval) (decision : Option ApprovalDecision)
      → reply.calling ≡ false
      → answered reply.notification.notification_id hub.replies ≡ false
      → reply.option ≡ some option
      → Begins reply hub (ask_instance missing reply hub option approval decision)
  ask_instance-Begins option none d free new e = calls _ free new option e
  ask_instance-Begins option (some a) (some d) free new e = calls _ free new option e
  ask_instance-Begins option (some a) none free new e = unmarks _ free

  unasked-Begins :
      (option : String)
      → reply.option ≡ some option
      → answered reply.notification.notification_id hub.replies ≡ false
      → (calling : Bool) → reply.calling ≡ calling
      → Begins reply hub (
          if calling
          then (hub, ended (came failed unknown))
          else ask_instance missing reply hub option reply.approval (decision_of option))
  unasked-Begins option e new true busy = ends hub _ refl refl
  unasked-Begins option e new false free = ask_instance-Begins option _ _ free new e

  apply_to_instance-Begins :
      (option : String) (thread : Option ℕ)
      → reply.option ≡ some option
      → Begins reply hub (apply_to_instance missing reply hub option thread)
  apply_to_instance-Begins option none e = ends hub _ refl refl
  apply_to_instance-Begins option (some t) e =
      elim (Bool-cases (answered reply.notification.notification_id hub.replies)) [
        | inl old ↦ rw old (ends hub _ refl refl)
        | inr new ↦ rw new (unasked-Begins option e new reply.calling refl)
      ]

  apply_option-Begins :
      (option : String) (stop : Option RunStopRef)
      → reply.option ≡ some option
      → Begins reply hub (apply_option missing reply hub option stop)
  apply_option-Begins option none e = apply_to_instance-Begins option reply.thread_id e
  apply_option-Begins option (some ref) e = stops ref option

  apply_reply-Begins :
      (option : Option String)
      → reply.option ≡ option
      → Begins reply hub (apply_reply missing reply hub option)
  apply_reply-Begins none e = mute_on-Begins reply hub _
  apply_reply-Begins (some option) e = apply_option-Begins option reply.stop e

  pub begin-Begins : Begins reply hub (begin missing reply hub)
  unfolding begin
  begin-Begins = apply_reply-Begins reply.option refl

pub end_stop-settles : (result : Moved) → settles (end_stop result) ≡ true
unfolding end_stop
end_stop-settles (moved none) = refl
end_stop-settles (moved (some outcome)) = refl
end_stop-settles (broke retryable error) = refl
