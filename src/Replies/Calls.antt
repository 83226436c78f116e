-- ===== src/Replies/Calls.antt =====
-- hub/replies.py: the end of a call of an instance keeps what a reply sees.
use kinby.Common.Members.{length-keep-append}
use kinby.Replies.Begins.{mark}
use kinby.Replies.Once.{settle-Once, settle_with-Once, mark-Once}
use kinby.Common.Keyed.{get}
use kinby.Replies.Apply.{
  Question, end_call, Called, taken, came, returned, unknown, refused, settled, raised, turn,
  answer, lost,
}
use kinby.Replies.Store.{ReceivedReply, failed, ReplyStatus, is_received, applied, stale}
use kinby.Replies.View.{
  Once, asked, View, may_have_landed, asks_for, Settling, is_calling, land-Settling, free-View,
}
use kinby.Replies.Tasks.{
  Replies, on_instance, Ending, rejected, Call, call_of, settle_with, took, ending_of, unanswered,
  broken_off, Waiting, on_stop,
}
use mathlib.Core.Path.{subst}
use kinby.Common.{
  ℕ, ◌≡◌, Bool, List, ◌++◌, ◌∷◌, [], ◌+◌, some, if◌then◌else◌, arith, true, ◌==◌, nat_eq, ◌∙◌, none,
  String, false, Option, refl, string_eq,
}

taken_came :
    (question : Question) (waits : Bool)
    → (status : ReplyStatus) × (outcome : String) × (taken question waits ≡ came status outcome)
      × (is_received status ≡ false)
taken_came (turn option) waits = (applied, _, refl, refl)
taken_came (answer approval decision) true = (applied, _, refl, refl)
taken_came (answer approval decision) false = (stale, _, refl, refl)

pub asked-broken :
    (r : ℕ) (log : List Call) (holder : Option (ReceivedReply × Waiting))
    → asked r (log ++ broken_off holder) ≡ asked r log + (if is_calling r holder then 1 else 0)
asked-broken r log none = length-keep-append (asks_for r) log []
asked-broken r log (some (reply, on_stop)) = length-keep-append (asks_for r) log []
asked-broken r log (some (reply, on_instance question)) =
    length-keep-append (asks_for r) log (call_of reply question unanswered ∷ []) ∙ ground arith

module _ (r now : ℕ) (s : Replies) (o : Once r s) (reply : ReceivedReply) (question : Question)
    (waits : s.applying ≡ some (reply, on_instance question)) where
  abbrev logged : Ending → List Call
  logged ending = s.calls ++ call_of reply question ending ∷ []

  asked-landed :
      (ending : Ending)
      → may_have_landed ending ≡ true
      → asked r (logged ending) ≡ asked r s.calls + (if reply.reply_id == r then 1 else 0)
  asked-landed ending landed =
      length-keep-append (asks_for r) s.calls (call_of reply question ending ∷ [])
      ∙ ground (arith, landed)

  asked-rejected : asked r (logged rejected) ≡ asked r s.calls
  asked-rejected =
      length-keep-append (asks_for r) s.calls (call_of reply question rejected ∷ []) ∙ ground arith

  here : View r (asked r s.calls) (get r s.hub.replies) (get r s.tasks) (reply.reply_id == r)
  here =
      subst
        (λ holder.
          View r (asked r s.calls) (get r s.hub.replies) (get r s.tasks) (is_calling r holder))
        waits o.view

  landed-Settling :
      (ending : Ending)
      → may_have_landed ending ≡ true
      → Settling r reply.reply_id (asked r (logged ending)) (get r s.hub.replies) (get r s.tasks)
  landed-Settling ending landed =
      land-Settling r reply.reply_id _ _ _ _ (asked-landed ending landed) here

  returned-Once :
      (ending : Ending) (status : ReplyStatus) (outcome : String)
      → may_have_landed ending ≡ true
      → is_received status ≡ false
      → Once r
          (settle_with now reply (record s { calls = logged ending }) (s.hub, came status outcome))
  unfolding settled
  returned-Once ending status outcome landed e =
      settle-Once r now reply (record s { calls = logged ending }) status outcome e o.table o.own
        (landed-Settling ending landed)

  taken-Once :
      (waits : Bool)
      → Once r (
          settle_with now reply
            (record s { calls = logged (took waits) })
            (s.hub, taken question waits))
  taken-Once waits =
      let (status, outcome, e, done) = taken_came question waits in
      rw e (returned-Once (took waits) status outcome refl done)

  quiet-Once : Once r (record s { calls = logged rejected; applying = none })
  quiet-Once = record { table = o.table; own = o.own; view = rw asked-rejected (free-View here) }

  unasked_yet : (reply.reply_id == r) ≡ true → asked r (logged rejected) ≡ 0
  unasked_yet same = asked-rejected ∙ (here.held same).0

  pub answer_call-Once :
      (called : Called)
      → Once r (
          settle_with now reply
            (record s { calls = logged (ending_of called) })
            (end_call reply question called s.hub))
  unfolding end_call
  answer_call-Once (returned waits) = taken-Once waits
  answer_call-Once lost = returned-Once unanswered failed unknown refl refl
  answer_call-Once (refused retryable error) =
      settle_with-Once r now reply
        (record s { hub = mark false reply s.hub; calls = logged rejected })
        (raised retryable error) refl
        (mark-Once r (record s { calls = logged rejected }) reply false unasked_yet quiet-Once)
