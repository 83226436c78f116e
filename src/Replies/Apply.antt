-- ===== src/Replies/Apply.antt =====
-- hub/replies.py: what a reply comes to, and the loop that applies it.
use kinby.Common.{
  ℕ, zero, suc, ◌-◌, Bool, true, false, ◌&&◌, Option, none, some, [], ◌∷◌, String, ◌==◌, nat_eq,
  string_eq, if◌then◌else◌, ltb, any,
}
use kinby.Common.Text.{text}
use kinby.Outbox.Store.{Store, Channel, RunStopRef, WaitingApproval, channel}
use kinby.Outbox.Deliver.{give_up_after}
use kinby.Replies.Store.{
  ReplyStatus, applied, stale, failed, Hub, ReceivedReply, answered, reply_calling, settle_reply,
  mute,
}

pub data ApprovalDecision : Type 0 where
  approve deny allow_in_routine mark_read_only : ApprovalDecision

-- APPROVAL_OPTIONS
abbrev pub decision_of : String → Option ApprovalDecision
decision_of option =
    if option == "Approve"
    then some approve
    else if option == "Always allow in this routine"
    then some allow_in_routine
    else if option == "Deny"
    then some deny
    else none

-- _DECIDED, which leaves out the decision that no option gives.
abbrev pub decided : ApprovalDecision → String
decided approve = "Approved."
decided allow_in_routine = "Always allowed in this routine."
decided deny = "Denied."
decided mark_read_only = ""

abbrev pub unknown : String
unknown = "Not known whether the instance got this answer. Answer again from the web app."

-- What an instance is asked for: to start a turn, or to answer an approval.
pub data Question : Type 0 where
  turn : String → Question
  answer : WaitingApproval → ApprovalDecision → Question

-- How `_applied` ends: it returns, or raises an error that can be tried again or not.
pub data Applied : Type 0 where
  came : ReplyStatus → String → Applied
  raised : Bool → String → Applied

-- `_applied` up to what it waits for.
pub data Begun : Type 0 where
  ended : Applied → Begun
  asks : Question → Begun
  asks_stop : RunStopRef → String → Begun

abbrev of_channel : Store → Option ℕ → Option Channel
of_channel store none = none
of_channel store (some channel_id) = channel channel_id store

abbrev pub mute_on : ReceivedReply → Hub → Option Channel → Hub × Begun
mute_on reply hub none = (hub, ended (came stale "The channel was deleted."))
mute_on reply hub (some found) =
    if any (λ id. id == reply.instance_id) found.mutes
    then (hub, ended (came stale "This instance was already muted on this channel."))
    else (
      mute found.channel_id reply.instance_id hub,
      ended (came applied "Muted this instance on this channel."),
    )

-- `missing` is the text of Python's KeyError for an option.
module _ (missing : String → String) where
  -- What is asked of the instance. An option that gives no decision raises, which takes the mark
  -- off again.
  abbrev pub ask_instance :
      ReceivedReply → Hub → String → Option WaitingApproval → Option ApprovalDecision → Hub × Begun
  ask_instance reply hub option none decision =
      (reply_calling reply.reply_id true hub, asks (turn option))
  ask_instance reply hub option (some approval) (some decision) =
      (reply_calling reply.reply_id true hub, asks (answer approval decision))
  ask_instance reply hub option (some approval) none = (
    reply_calling reply.reply_id false (reply_calling reply.reply_id true hub),
    ended (raised false (missing option)),
  )

  abbrev pub apply_to_instance : ReceivedReply → Hub → String → Option ℕ → Hub × Begun
  apply_to_instance reply hub option none = (hub, ended (came stale "No thread takes this answer."))
  apply_to_instance reply hub option (some thread_id) =
      if answered reply.notification.notification_id hub.replies
      then (hub, ended (came stale "Already answered."))
      else if reply.calling
      then (hub, ended (came failed unknown))
      else ask_instance reply hub option reply.approval (decision_of option)

  abbrev pub apply_option : ReceivedReply → Hub → String → Option RunStopRef → Hub × Begun
  apply_option reply hub option (some ref) = (hub, asks_stop ref option)
  apply_option reply hub option none = apply_to_instance reply hub option reply.thread_id

  abbrev pub apply_reply : ReceivedReply → Hub → Option String → Hub × Begun
  apply_reply reply hub none = mute_on reply hub (of_channel hub.store reply.channel_id)
  apply_reply reply hub (some option) = apply_option reply hub option reply.stop

  unfoldable pub begin : ReceivedReply → Hub → Hub × Begun
  unfolding mute reply_calling answered channel
  begin reply hub = apply_reply reply hub reply.option

-- What the instance answers: it returns, its answer is lost on the way, or it raises.
pub data Called : Type 0 where
  returned : Bool → Called
  lost : Called
  refused : Bool → String → Called

-- What became of a stop: the text of its outcome, none where the run moved since, or an error.
pub data Moved : Type 0 where
  moved : Option String → Moved
  broke : Bool → String → Moved

-- What `_applied` makes of an answer. A turn that starts returns whatever it is.
abbrev pub taken : Question → Bool → Applied
taken (turn option) waits = came applied (text ("Answered \"" ∷ option ∷ "\"." ∷ []))
taken (answer approval decision) true = came applied (decided decision)
taken (answer approval decision) false = came stale "No longer waiting."

unfoldable pub end_call : ReceivedReply → Question → Called → Hub → Hub × Applied
unfolding text reply_calling
end_call reply question (returned waits) hub = (hub, taken question waits)
end_call reply question lost hub = (hub, came failed unknown)
end_call reply question (refused retryable error) hub =
    (reply_calling reply.reply_id false hub, raised retryable error)

unfoldable pub end_stop : Moved → Applied
end_stop (moved (some outcome)) = came applied outcome
end_stop (moved none) = came stale "The run already moved."
end_stop (broke retryable error) = raised retryable error

-- `_settled` once `_applied` has ended: none is to try again.
unfoldable pub settled : ℕ → ReceivedReply → Applied → Hub → Hub × Option String
unfolding text settle_reply
settled now reply (came status outcome) hub =
    (settle_reply reply.reply_id status outcome hub, some outcome)
settled now reply (raised retryable error) hub =
    if retryable && ltb (now - reply.received_at) give_up_after
    then (hub, none)
    else let outcome = text ("Not answered: " ∷ error ∷ []) in
      (settle_reply reply.reply_id failed outcome hub, some outcome)

-- What one round meets: what the instance answers, if it is called, what becomes of the stop, if one
-- is answered, what other tasks do to the hub while `_applied` waits, and the time after it.
pub record Round : Type 0 where
  pub called : Called
  pub stopped : Moved
  pub meanwhile : Hub → Hub
  pub now : ℕ

abbrev pub applied_when : Round → ReceivedReply → Hub × Begun → Hub × Applied
applied_when round reply (hub, ended result) = (hub, result)
applied_when round reply (hub, asks question) =
    end_call reply question round.called (round.meanwhile hub)
applied_when round reply (hub, asks_stop ref option) = (round.meanwhile hub, end_stop round.stopped)

abbrev pub settled_after : Round → ReceivedReply → Hub × Applied → Hub × Option String
settled_after round reply (hub, result) = settled round.now reply result hub

module _ (missing : String → String) where
  -- `_settled`
  unfoldable pub try_reply : Round → ReceivedReply → Hub → Hub × Option String
  unfolding begin end_call end_stop settled
  try_reply round reply hub =
      settled_after round reply (applied_when round reply (begin missing reply hub))

  -- `_apply` up to the edit. While it sleeps after round `n`, for `backoff` seconds, the other tasks
  -- change the hub by `between n`. none is a loop that still runs after so many rounds.
  unfoldable pub apply : ℕ → (ℕ → Round) → (ℕ → Hub → Hub) → ReceivedReply → ℕ → Hub → Option Hub
  unfolding try_reply
  apply zero rounds between reply n hub = none
  apply (suc fuel) rounds between reply n hub =
      let (after, outcome) = try_reply (rounds n) reply (between n hub) in
      elim outcome [ some text ↦ some after | none ↦ apply fuel rounds between reply (suc n) after ]
