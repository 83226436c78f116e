-- ===== src/Scheduler/Failures.antt =====
-- core/scheduler.py: the failure policy.
use kinby.Common.{
  ℕ, String, Bool, false, ◌&&◌, Option, none, some, List, [], ◌∷◌, ◌++◌, ◌==◌, string_eq, nat_eq,
  pair_eq, if◌then◌else◌, leb,
}
use kinby.Common.Keyed.{Dict, get, put, remove}
use kinby.Common.Text.{text, decimal}
use kinby.Routines.{
  Key, Event, Failure, Notice, disabled, first_failure, failures_reset, History, history_of,
  routine_history, unhandled,
}
use kinby.Routines.Log.{handled_event}
use kinby.Scheduler.Files.{Routine, disable_routine}

abbrev pub disable_after : ℕ
disable_after = 10

-- `NotificationRaised`, with the turn that it is logged under.
pub record NotificationRaised : Type 0 where
  pub turn : Key
  pub source : String
  pub title : String
  pub text : String

-- What the pass over the failures changes: the routine events of the log, the routine files, the
-- routines whose grants it cleared, and the notifications it logged.
pub record Policy : Type 0 where
  pub log : List Event
  pub routines : List Routine
  pub cleared : List String
  pub notifications : List NotificationRaised

-- `RoutineFailuresReset` of a routine that the policy disabled and the user enabled again.
abbrev reset_event : ℕ → String → Notice → Event
reset_event now name notice = record {
  key = notice.turn;
  timestamp = now;
  payload = failures_reset name;
}

abbrev resets : ℕ → Routine → Option Notice → List Event
resets now routine none = []
resets now routine (some notice) =
    if routine.enabled then reset_event now routine.name notice ∷ [] else []

abbrev reset_each : ℕ → Dict String History → List Routine → List Event
reset_each now histories [] = []
reset_each now histories (routine ∷ routines) =
    resets now routine ((history_of routine.name histories).disable_notice)
    ++ reset_each now histories routines

-- `_reset_failures`: the log afterwards.
unfoldable pub reset_failures : ℕ → List Routine → List Event → List Event
unfolding routine_history
reset_failures now routines log = log ++ reset_each now (routine_history log).histories routines

-- {routine.name: routine for routine in routines}
abbrev pub by_name : List Routine → Dict String Routine → Dict String Routine
by_name [] d = d
by_name (routine ∷ routines) d = by_name routines (put routine.name routine d)

abbrev pub is_enabled : Option Routine → Bool
is_enabled none = false
is_enabled (some routine) = routine.enabled

-- The first condition of the loop.
abbrev pub is_over : Dict String Routine → Failure → Bool
is_over known failure = leb disable_after failure.count && is_enabled (get failure.name known)

abbrev pub disabled_notice : Failure → Notice
disabled_notice failure = record {
  kind = disabled;
  message = text (
      "Routine \""
      ∷ failure.name
      ∷ "\" disabled after "
      ∷ decimal failure.count
      ∷ " failed firings: "
      ∷ failure.reason
      ∷ []);
  turn = failure.key;
}

abbrev pub disabled_notification : Failure → NotificationRaised
disabled_notification failure = record {
  turn = failure.key;
  source = failure.name;
  title = text ("Routine \"" ∷ failure.name ∷ "\" disabled" ∷ []);
  text =
      text ("It failed " ∷ decimal failure.count ∷ " times in a row, so kinby turned it off." ∷ []);
}

abbrev pub first_notice : Failure → Notice
first_notice failure = record {
  kind = first_failure;
  message = text ("Routine \"" ∷ failure.name ∷ "\" failed: " ∷ failure.reason ∷ []);
  turn = failure.key;
}

abbrev pub first_notification : Failure → NotificationRaised
first_notification failure = record {
  turn = failure.key;
  source = failure.name;
  title = text ("Routine \"" ∷ failure.name ∷ "\" failed" ∷ []);
  text = text ("kinby disables it after " ∷ decimal disable_after ∷ " failures in a row." ∷ []);
}

-- The two appends that end the body: that the failure was handled, and the notification where
-- this instance raises any.
abbrev pub append_handled :
    Bool → ℕ → Failure → Option (Notice × NotificationRaised) → Policy → Policy
append_handled raises now failure none policy = record policy {
  log = policy.log ++ handled_event failure.key now failure.name none ∷ [];
}
append_handled raises now failure (some (notice, notification)) policy = record policy {
  log = policy.log ++ handled_event failure.key now failure.name (some notice) ∷ [];
  notifications =
      if raises then policy.notifications ++ notification ∷ [] else policy.notifications;
}

abbrev pub disable : Failure → Policy → Policy
disable failure policy = record policy {
  routines = disable_routine failure.name policy.routines;
  cleared = policy.cleared ++ failure.name ∷ [];
}

abbrev pub first_told : Failure → Option (Notice × NotificationRaised)
first_told failure =
    if failure.count == 1 then some (first_notice failure, first_notification failure) else none

-- The loop of `_handle_failures`, with the routines it still knows by their names.
unfoldable pub handle_each : Bool → ℕ → List (Key × Failure) → Dict String Routine → Policy → Policy
unfolding disable_routine text decimal
handle_each raises now [] known policy = policy
handle_each raises now ((key, failure) ∷ failures) known policy =
    let off = handle_each raises now failures (remove failure.name known) (
      append_handled raises now failure
        (some (disabled_notice failure, disabled_notification failure)) (disable failure policy)) in
    let on =
      handle_each raises now failures known
        (append_handled raises now failure (first_told failure) policy) in
    if is_over known failure then off else on

-- `_handle_failures`; `raises` is `raises_notifications()`.
unfoldable pub handle_failures : Bool → ℕ → Policy → Policy
unfolding reset_failures routine_history unhandled handle_each
handle_failures raises now policy =
    let log = reset_failures now policy.routines policy.log in
    handle_each raises now (unhandled (routine_history log)) (by_name policy.routines [])
      (record policy { log = log })
