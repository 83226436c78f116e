-- ===== src/Routines.antt =====
-- core/routine_history.py: the history of an instance's routines, folded from its event log.
-- A turn's `RoutineLastRun` is shared by `runs` and the history that names it last, so the history
-- here holds its key. Texts, times and ids that the fold only copies are kept as they come.
mod Data
pub mod Counts
pub mod Keys
pub mod Log
use kinby.Common.{
  ℕ, String, Bool, true, false, not, ◌&&◌, ◌||◌, Option, none, some, List, [], ◌∷◌, ◌++◌, ◌==◌, ◌+◌,
  string_eq, nat_eq, pair_eq, if◌then◌else◌, any, keep,
}
use kinby.Common.Keyed.{Dict, get, put, remove}
use kinby.Common.Line.{first_line}
use kinby.Common.Text.{text}
pub use Data.*

abbrev pub or_none : Option History → History
or_none none = no_history
or_none (some h) = h

-- `histories.setdefault(name, RoutineHistory())`, and `histories[name]` of one that is there.
abbrev pub history_of : String → Dict String History → History
history_of name histories = or_none (get name histories)

pub change_history : String → (History → History) → Fold → Fold
change_history name f s = record s {
  histories = put name (f (history_of name s.histories)) s.histories;
}

abbrev pub has_key : Key → List Key → Bool
has_key key keys = any (λ k. k == key) keys

abbrev pub named_other : String → Key × Failure → Bool
named_other name (key, f) = not (f.name == name)

-- No failure of the routine counts any more.
pub forget_failures : String → Fold → Fold
unfolding change_history
forget_failures name s =
    record (change_history name (λ h. record h { failure_count = 0; disable_notice = none }) s) {
      failures = keep (named_other name) s.failures;
    }

same_pending : Pending → Pending → Bool
same_pending a b = a.key == b.key && a.receipt_order == b.receipt_order

-- `list.remove`: the first one that is equal. The order in which the event was received tells any
-- two apart.
remove_pending : Pending → List Pending → List Pending
unfolding same_pending
remove_pending p [] = []
remove_pending p (q ∷ rest) =
    let later = remove_pending p rest in if same_pending q p then rest else q ∷ later

receive_new : ℕ → Key → Arrival → Fold → Fold
unfolding change_history
receive_new order key arrival s =
    let item : Pending = record { key = key; receipt_order = order; arrival = arrival } in
    record (change_history arrival.name (λ h. record h { pending = h.pending ++ item ∷ [] }) s) {
      pending = put key (arrival.name, item) s.pending;
    }

receive : ℕ → Key → Arrival → Fold → Fold
unfolding receive_new
receive order key arrival s = elim (get key s.pending) [
  | none ↦ receive_new order key arrival s
  | some _ ↦ s
]

noticed : Notice → History → History
noticed notice h = record h {
  notices = h.notices ++ notice ∷ [];
  disable_notice = elim notice.kind [ disabled ↦ some notice | first_failure ↦ h.disable_notice ];
}

note : Key → String → Option Notice → Fold → Fold
unfolding change_history noticed
note key name none s = s
note key name (some notice) s =
    if has_key key s.handled then s else change_history name (noticed notice) s

handle : Key → String → Option Notice → Fold → Fold
unfolding note
handle key name notice s = record (note key name notice s) { handled = key ∷ s.handled }

take_pending : Key → Fold → Fold
unfolding change_history remove_pending
take_pending key s = elim (get key s.pending) [
  | none ↦ s
  | some (name, item) ↦
      record (change_history name (λ h. record h { pending = remove_pending item h.pending }) s) {
        pending = remove key s.pending;
      }
]

start_new : Key → String → ℕ → Fold → Fold
unfolding change_history
start_new key name now s = record (change_history name (λ h. record h { last_run = some key }) s) {
  runs =
      put key (record { name = name; started_at = now; outcome = running; first_line = "" }) s.runs;
  texts = put key "" s.texts;
}

start_unknown : Key → String → ℕ → Fold → Option Run → Fold
unfolding start_new
start_unknown key name now s none = start_new key name now s
start_unknown key name now s (some _) = s

start : Key → String → ℕ → Fold → Fold
unfolding take_pending start_unknown
start key name now s =
    let taken = take_pending key s in start_unknown key name now taken (get key taken.runs)

abbrev text_at : Key → Dict Key String → String
text_at key texts = elim (get key texts) [ none ↦ "" | some t ↦ t ]

set_text : Key → String → Run → Fold → Fold
set_text key t run s = record s {
  texts = put key t s.texts;
  runs = put key (record run { first_line = first_line t }) s.runs;
}

set_outcome : Key → RunOutcome → Run → Fold → Fold
set_outcome key outcome run s = record s {
  runs = put key (record run { outcome = outcome }) s.runs;
}

close : Key → Fold → Fold
close key s = record s { closed = key ∷ s.closed }

complete : Key → Bool → Run → Fold → Fold
unfolding forget_failures set_outcome
complete key true run s = forget_failures run.name (set_outcome key work run s)
complete key false run s = set_outcome key no_work run s

pub fail : Key → String → Run → Fold → Fold
unfolding change_history set_outcome
fail key reason run s =
    let count = (history_of run.name s.histories).failure_count + 1 in
    let counted =
      change_history run.name (λ h. record h { failure_count = count; last_failure = some reason })
        (set_outcome key failed run s) in
    record counted {
      failures =
          put key (record { name = run.name; key = key; count = count; reason = reason })
            counted.failures;
    }

-- What an event says of a routine's turn that is not closed.
in_turn : Key → Payload → Run → Fold → Fold
unfolding set_text set_outcome close complete fail
in_turn key (message_delta delta) run s =
    set_text key (text (text_at key s.texts ∷ delta ∷ [])) run s
in_turn key tool_call run s = set_text key "" run s
in_turn key approval_requested run s = set_outcome key parked run s
in_turn key (turn_completed did_work) run s = close key (complete key did_work run s)
in_turn key (turn_failed reason) run s = close key (fail key reason run s)
in_turn key turn_interrupted run s = close key (set_outcome key interrupted run s)
in_turn key _ run s = s

in_run : Key → Payload → Fold → Option Run → Fold
unfolding in_turn
in_run key payload s none = s
in_run key payload s (some run) = if has_key key s.closed then s else in_turn key payload run s

fold_payload : ℕ → Key → ℕ → Fold → Payload → Fold
unfolding receive handle forget_failures start in_run
fold_payload order key now s (signal_received arrival) = receive order key arrival s
fold_payload order key now s (failure_handled name notice) = handle key name notice s
fold_payload order key now s (failures_reset name) = forget_failures name s
fold_payload order key now s (turn_started (some name)) = start key name now s
fold_payload order key now s payload = in_run key payload s (get key s.runs)

-- One round of the loop.
fold_event : ℕ → Event → Fold → Fold
unfolding fold_payload
fold_event order event s = fold_payload order event.key event.timestamp s event.payload

pub fold_from : ℕ → List Event → Fold → Fold
unfolding fold_event
fold_from order [] s = s
fold_from order (event ∷ events) s = fold_from (order + 1) events (fold_event order event s)

abbrev pub not_handled : List Key → Key × Failure → Bool
not_handled handled (key, f) = not (has_key key handled)

-- `routine_history`: the histories, the runs they name, and the failures not handled.
unfoldable pub unhandled : Fold → Dict Key Failure
unhandled s = keep (not_handled s.handled) s.failures

unfoldable pub routine_history : List Event → Fold
unfolding fold_from fold_event
routine_history events = fold_from 0 events no_events
