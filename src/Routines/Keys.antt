-- ===== src/Routines/Keys.antt =====
-- core/routine_history.py: each failure of the fold stands under the key of its own turn.
use kinby.Common.{
  ℕ, String, Bool, true, false, ◌≡◌, refl, ap, ◌∙◌, eq_of_beq, ◌+◌, Option, none, some, List, [],
  ◌∷◌, ◌==◌, string_eq, nat_eq, pair_eq, keep, all, arith, inl, inr, Bool-cases, Option-cases,
  beq_refl,
}
use kinby.Common.Keyed.{Dict, get, put}
use kinby.Routines.{
  fold_payload, has_key, Arrival, Key, Payload, signal_received, failure_handled, failures_reset,
  turn_started, message_delta, tool_call, approval_requested, turn_completed, turn_failed,
  turn_interrupted, other, Event, Run, Failure, Fold, Notice, no_events, change_history,
  named_other, forget_failures, receive_new, receive, note, handle, take_pending, start_new,
  start_unknown, start, set_text, set_outcome, close, complete, fail, in_turn, in_run, fold_event,
  fold_from, routine_history,
}

abbrev pub is_keyed : Key × Failure → Bool
is_keyed (key, f) = f.key == key

abbrev IsKeyed : Fold → Type 0
IsKeyed s = all is_keyed s.failures ≡ true

all-put :
    (key : Key) (f : Failure) (failures : Dict Key Failure)
    → is_keyed (key, f) ≡ true
    → all is_keyed failures ≡ true
    → all is_keyed (put key f failures) ≡ true
unfolding put
all-put key f [] e c = ground (arith, e)
all-put key f ((k, g) ∷ failures) e c = elim (Bool-cases (k == key)) [
  | inl same ↦
      let here : is_keyed (k, f) ≡ true = ap (λ j. f.key == j) (eq_of_beq k key same) ∙ e in
      rw same (ground (arith, here))
  | inr new ↦ rw new (ground (arith, all-put key f failures e))
]

all-keep {ℓ} :
    {A : Type ℓ} (p q : A → Bool) (xs : List A) → all p xs ≡ true → all p (keep q xs) ≡ true
all-keep p q [] c = refl
all-keep p q (x ∷ xs) c = ground (arith, all-keep p q xs)

IsKeyed-in_turn :
    (key : Key) (payload : Payload) (run : Run) (s : Fold)
    → IsKeyed s
    → IsKeyed (in_turn key payload run s)
unfolding in_turn set_text set_outcome close complete fail forget_failures change_history
IsKeyed-in_turn key (message_delta delta) run s c = c
IsKeyed-in_turn key tool_call run s c = c
IsKeyed-in_turn key approval_requested run s c = c
IsKeyed-in_turn key (turn_completed true) run s c =
    all-keep is_keyed (named_other run.name) s.failures c
IsKeyed-in_turn key (turn_completed false) run s c = c
IsKeyed-in_turn key (turn_failed reason) run s c = all-put key _ s.failures (beq_refl key) c
IsKeyed-in_turn key turn_interrupted run s c = c
IsKeyed-in_turn key (signal_received _) run s c = c
IsKeyed-in_turn key (failure_handled _ _) run s c = c
IsKeyed-in_turn key (failures_reset _) run s c = c
IsKeyed-in_turn key (turn_started _) run s c = c
IsKeyed-in_turn key other run s c = c

IsKeyed-in_run :
    (key : Key) (payload : Payload) (s : Fold) (run : Option Run)
    → IsKeyed s
    → IsKeyed (in_run key payload s run)
unfolding in_run
IsKeyed-in_run key payload s none c = c
IsKeyed-in_run key payload s (some run) c = elim (Bool-cases (has_key key s.closed)) [
  | inl over ↦ rw over c
  | inr going ↦ rw going (IsKeyed-in_turn key payload run s c)
]

IsKeyed-start :
    (key : Key) (name : String) (now : ℕ) (s : Fold) (run : Option Run)
    → IsKeyed s
    → IsKeyed (start_unknown key name now s run)
unfolding start_unknown start_new change_history
IsKeyed-start key name now s none c = c
IsKeyed-start key name now s (some _) c = c

IsKeyed-take_pending : (key : Key) (s : Fold) → IsKeyed s → IsKeyed (take_pending key s)
unfolding take_pending change_history
IsKeyed-take_pending key s c = elim (Option-cases (get key s.pending)) [
  | inl nothing ↦ rw (nothing, take_pending) c
  | inr (item, waits) ↦ rw (waits, take_pending) c
]

IsKeyed-receive :
    (order : ℕ) (key : Key) (arrival : Arrival) (s : Fold)
    → IsKeyed s
    → IsKeyed (receive order key arrival s)
unfolding receive receive_new change_history
IsKeyed-receive order key arrival s c = elim (Option-cases (get key s.pending)) [
  | inl new ↦ rw (new, receive) c
  | inr (_, known) ↦ rw (known, receive) c
]

IsKeyed-handle :
    (key : Key) (name : String) (notice : Option Notice) (s : Fold)
    → IsKeyed s
    → IsKeyed (handle key name notice s)
unfolding handle note change_history
IsKeyed-handle key name none s c = c
IsKeyed-handle key name (some notice) s c = elim (Bool-cases (has_key key s.handled)) [
  | inl seen ↦ rw seen c
  | inr new ↦ rw new c
]

IsKeyed-fold_payload :
    (order : ℕ) (key : Key) (now : ℕ) (s : Fold) (payload : Payload)
    → IsKeyed s
    → IsKeyed (fold_payload order key now s payload)
unfolding fold_payload start forget_failures change_history
IsKeyed-fold_payload order key now s (signal_received arrival) c =
    IsKeyed-receive order key arrival s c
IsKeyed-fold_payload order key now s (failure_handled name notice) c =
    IsKeyed-handle key name notice s c
IsKeyed-fold_payload order key now s (failures_reset name) c =
    all-keep is_keyed (named_other name) s.failures c
IsKeyed-fold_payload order key now s (turn_started (some name)) c =
    IsKeyed-start key name now (take_pending key s) _ (IsKeyed-take_pending key s c)
IsKeyed-fold_payload order key now s (turn_started none) c =
    IsKeyed-in_run key (turn_started none) s _ c
IsKeyed-fold_payload order key now s (message_delta delta) c =
    IsKeyed-in_run key (message_delta delta) s _ c
IsKeyed-fold_payload order key now s tool_call c = IsKeyed-in_run key tool_call s _ c
IsKeyed-fold_payload order key now s approval_requested c =
    IsKeyed-in_run key approval_requested s _ c
IsKeyed-fold_payload order key now s (turn_completed did_work) c =
    IsKeyed-in_run key (turn_completed did_work) s _ c
IsKeyed-fold_payload order key now s (turn_failed reason) c =
    IsKeyed-in_run key (turn_failed reason) s _ c
IsKeyed-fold_payload order key now s turn_interrupted c = IsKeyed-in_run key turn_interrupted s _ c
IsKeyed-fold_payload order key now s other c = IsKeyed-in_run key other s _ c

IsKeyed-fold_from :
    (order : ℕ) (events : List Event) (s : Fold) → IsKeyed s → IsKeyed (fold_from order events s)
unfolding fold_from fold_event
IsKeyed-fold_from order [] s c = c
IsKeyed-fold_from order (event ∷ events) s c =
    IsKeyed-fold_from (order + 1) events (fold_event order event s)
      (IsKeyed-fold_payload order event.key event.timestamp s event.payload c)

pub failures-IsKeyed : (events : List Event) → all is_keyed (routine_history events).failures ≡ true
unfolding routine_history
failures-IsKeyed events = IsKeyed-fold_from 0 events no_events refl
