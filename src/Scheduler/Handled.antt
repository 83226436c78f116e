-- ===== src/Scheduler/Handled.antt =====
-- core/scheduler.py: a pass over the failures leaves none to handle.
use mathlib.Core.Path.{subst}
use kinby.Common.{
  ℕ, String, Bool, true, not, ◌≡◌, refl, ap, ◌∙◌, ◌||◌, Option, none, some, List, [], ◌∷◌, ◌==◌,
  pair_eq, nat_eq, string_eq, any, In, arith, inl, inr, Bool-cases,
}
use kinby.Common.Keyed.{Dict, remove}
use kinby.Common.Members.{all-In, any-In, In-keep_intro, keep-none}
use kinby.Routines.{Key, Event, Failure, Notice, has_key, not_handled, routine_history, unhandled}
use kinby.Routines.Keys.{is_keyed, failures-IsKeyed}
use kinby.Routines.Log.{failures-handled}
use kinby.Scheduler.Files.{Routine}
use kinby.Scheduler.Failures.{
  Policy, NotificationRaised, append_handled, disable, first_told, is_over, handle_each,
  handle_failures, reset_failures, by_name, disabled_notice, disabled_notification,
}

module _ (raises : Bool) (now : ℕ) where
  append_handled-failures :
      (failure : Failure) (told : Option (Notice × NotificationRaised)) (policy : Policy)
      → (routine_history (append_handled raises now failure told policy).log).failures
        ≡ (routine_history policy.log).failures
  append_handled-failures failure none policy =
      (failures-handled policy.log failure.key now failure.name none).0
  append_handled-failures failure (some (notice, _)) policy =
      (failures-handled policy.log failure.key now failure.name (some notice)).0

  append_handled-handled :
      (failure : Failure) (told : Option (Notice × NotificationRaised)) (policy : Policy)
      → (routine_history (append_handled raises now failure told policy).log).handled
        ≡ failure.key ∷ (routine_history policy.log).handled
  append_handled-handled failure none policy =
      (failures-handled policy.log failure.key now failure.name none).1
  append_handled-handled failure (some (notice, _)) policy =
      (failures-handled policy.log failure.key now failure.name (some notice)).1

  handle_each-failures :
      (failures : List (Key × Failure)) (known : Dict String Routine) (policy : Policy)
      → (routine_history (handle_each raises now failures known policy).log).failures
        ≡ (routine_history policy.log).failures
  unfolding handle_each
  handle_each-failures [] known policy = refl
  handle_each-failures ((key, failure) ∷ failures) known policy =
      elim (Bool-cases (is_over known failure)) [
        | inl over ↦ rw (over) (
            handle_each-failures failures (remove failure.name known) _
            ∙ append_handled-failures failure
                (some (disabled_notice failure, disabled_notification failure))
                (disable failure policy))
        | inr below ↦ rw (below) (
            handle_each-failures failures known _
            ∙ append_handled-failures failure (first_told failure) policy)
      ]

  abbrev of_key : Key → Key × Failure → Bool
  of_key key (_, failure) = failure.key == key

  or_move : (a b c d : Bool) → d ≡ (b || c) → (a || d) ≡ ((b || a) || c)
  or_move a b c d e = ground arith

  handle_each-handled :
      (key : Key) (failures : List (Key × Failure)) (known : Dict String Routine) (policy : Policy)
      → has_key key (routine_history (handle_each raises now failures known policy).log).handled
        ≡ (any (of_key key) failures || has_key key (routine_history policy.log).handled)
  unfolding handle_each
  handle_each-handled key [] known policy = refl
  handle_each-handled key ((_, failure) ∷ failures) known policy =
      elim (Bool-cases (is_over known failure)) [
        | inl over ↦ rw (over) (
            handle_each-handled key failures (remove failure.name known) _
            ∙ or_move (any (of_key key) failures) _ _ _ (
                ap (has_key key) (
                  append_handled-handled failure
                    (some (disabled_notice failure, disabled_notification failure))
                    (disable failure policy))))
        | inr below ↦ rw (below) (
            handle_each-handled key failures known _
            ∙ or_move (any (of_key key) failures) _ _ _
                (ap (has_key key) (append_handled-handled failure (first_told failure) policy)))
      ]

  any-unhandled :
      (events : List Event) (key : Key) (failure : Failure)
      → In (key, failure) (routine_history events).failures
      → (any (of_key key) (unhandled (routine_history events))
          || has_key key (routine_history events).handled)
        ≡ true
  unfolding unhandled
  any-unhandled events key failure i =
      elim (Bool-cases (has_key key (routine_history events).handled)) [
        | inl seen ↦ ground (arith, seen)
        | inr new ↦
            let there_still =
              In-keep_intro (not_handled (routine_history events).handled)
                (routine_history events).failures (key, failure) i (rw (new) refl) in
            let same =
              all-In is_keyed (routine_history events).failures (key, failure)
                (failures-IsKeyed events) i in
            ground (arith, any-In (of_key key) _ (key, failure) there_still same)
      ]

  -- A pass of the failure policy over an event log leaves no failure to handle: after it, the
  -- history of the log that it wrote has none that is unhandled, whatever the log was.
  pub handle_failures-none_left :
      (policy : Policy) → unhandled (routine_history (handle_failures raises now policy).log) ≡ []
  unfolding handle_failures unhandled
  handle_failures-none_left policy =
      let log = reset_failures now policy.routines policy.log in
      let left = unhandled (routine_history log) in
      let known = by_name policy.routines [] in
      let before : Policy = record policy { log = log } in
      let after = routine_history (handle_each raises now left known before).log in
      keep-none (not_handled after.handled) after.failures (λ entry i. ap not (
        handle_each-handled (entry.0) left known before
        ∙ any-unhandled log (entry.0) (entry.1)
            (subst (λ failures. In entry failures) (handle_each-failures left known before) i)))
