-- ===== src/Routines/Log.antt =====
-- core/routine_history.py: the fold after one more event that a failure was handled.
use kinby.Common.{
  ℕ, String, ◌≡◌, refl, ap, ◌∙◌, ◌+◌, Option, none, some, List, [], ◌∷◌, ◌++◌, pair_eq, nat_eq,
  length, arith, inl, inr, Bool-cases,
}
use kinby.Routines.{
  has_key, Key, failure_handled, Event, Fold, Notice, no_events, change_history, note, handle,
  fold_payload, fold_event, fold_from, routine_history,
}

fold_from-append :
    (order : ℕ) (events more : List Event) (s : Fold)
    → fold_from order (events ++ more) s
      ≡ fold_from (order + length events) more (fold_from order events s)
unfolding fold_from
fold_from-append order [] more s = ap (λ k. fold_from k more s) (omega arith)
fold_from-append order (event ∷ events) more s =
    fold_from-append (order + 1) events more (fold_event order event s)
    ∙ ap (λ k. fold_from k more (fold_from (order + 1) events (fold_event order event s)))
        (omega arith)

abbrev pub handled_event : Key → ℕ → String → Option Notice → Event
handled_event key now name notice = record {
  key = key;
  timestamp = now;
  payload = failure_handled name notice;
}

routine_history-handled :
    (events : List Event) (key : Key) (now : ℕ) (name : String) (notice : Option Notice)
    → routine_history (events ++ handled_event key now name notice ∷ [])
      ≡ handle key name notice (routine_history events)
unfolding routine_history fold_from fold_event fold_payload
routine_history-handled events key now name notice =
    fold_from-append 0 events (handled_event key now name notice ∷ []) no_events

handle-failures :
    (key : Key) (name : String) (notice : Option Notice) (s : Fold)
    → (handle key name notice s).failures ≡ s.failures
unfolding handle note change_history
handle-failures key name none s = refl
handle-failures key name (some notice) s = elim (Bool-cases (has_key key s.handled)) [
  | inl seen ↦ rw seen refl
  | inr new ↦ rw new refl
]

-- One more event that a failure was handled leaves the failures and adds its key to the handled.
pub failures-handled :
    (events : List Event) (key : Key) (now : ℕ) (name : String) (notice : Option Notice)
    → ((routine_history (events ++ handled_event key now name notice ∷ [])).failures
        ≡ (routine_history events).failures)
      × ((routine_history (events ++ handled_event key now name notice ∷ [])).handled
          ≡ key ∷ (routine_history events).handled)
unfolding handle
failures-handled events key now name notice =
    let e = routine_history-handled events key now name notice in
    (
      ap (λ s. s.failures) e ∙ handle-failures key name notice (routine_history events),
      ap (λ s. s.handled) e,
    )
