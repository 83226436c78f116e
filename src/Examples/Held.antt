-- ===== src/Examples/Held.antt =====
-- A step call, sent, sent again, and answered across a restart of its instance.
use kinby.Common.{true, ◌≡◌, ◌≢◌, refl, none, some, List, [], ◌∷◌, nat_eq, string_eq}
use kinby.Common.Keyed.{get}
use kinby.HeldResults.{
  Called, HeldResults, starts, holds, answer, finish, returned, raised, is_latest, same_call,
}
use kinby.HeldResults.Once.{
  Event, sent, back, restarted, all_happen, leaves, AllLeave, same_call_refl, starts_once,
}
use kinby.HeldResults.Kept.{answer-kept}
use kinby.Examples.Data.{planned}

-- The call of the run that `called` replaces, and the results while it runs.
abbrev draft : Called
draft = record { step = "draft"; attempt = 3 }

abbrev drafting : HeldResults
drafting = record {
  held = (1, record { called = draft; result = none }) ∷ [];
  running = (1, draft) ∷ [];
}

abbrev called : Called
called = record { step = "plan"; attempt = 1 }

-- The call is sent twice more, another run's call and an earlier call of this run, which it
-- replaced, raise errors, and the instance restarts.
abbrev events : List Event
events =
    sent 1 "plan" (some 1)
    ∷ sent 2 "check" (some 4)
    ∷ back 2 (record { step = "check"; attempt = 4 }) raised
    ∷ back 1 draft raised
    ∷ restarted
    ∷ sent 1 "plan" (some 1)
    ∷ []

plan_starts : (answer 1 "plan" (some 1) drafting).0 ≡ starts
unfolding answer get
plan_starts = refl

replaced_fails : leaves 1 called (back 1 draft raised) ≡ true
unfolding same_call
replaced_fails = refl

events_leave : AllLeave 1 called events
events_leave =
    (same_call_refl called, (refl, (refl, (replaced_fails, (refl, (same_call_refl called, tt))))))

starts_once_example :
    (answer 1 "plan" (some 1) (all_happen events (answer 1 "plan" (some 1) drafting).1)).0 ≢ starts
starts_once_example = starts_once 1 "plan" 1 drafting events plan_starts events_leave

abbrev running_plan : HeldResults
running_plan = record {
  held = (1, record { called = called; result = none }) ∷ [];
  running = (1, called) ∷ [];
}

plan_runs : is_latest 1 called running_plan ≡ true
unfolding is_latest get
plan_runs = refl

answer-kept_example :
    answer 1 "plan" (some 1) (all_happen events (finish 1 called (returned planned) running_plan))
    ≡ (holds planned, all_happen events (finish 1 called (returned planned) running_plan))
answer-kept_example = answer-kept 1 called planned running_plan events plan_runs events_leave
