-- ===== src/Runs/Tally/Laws.antt =====
-- What one attempt adds to the tally, for each way in which it ended.
use kinby.Common.{
  List, [], ◌∷◌, ◌++◌, refl, String, ◌≡◌, ◌≢◌, none, some, arith, string_eq, pair_eq,
}
use kinby.Common.Keyed.{bump}
use kinby.Contracts.Runs.{StepEnding, clean, failed, limited, StepAttempt}
use kinby.Factory.File.{SendBack, next, send_back, Step, FactoryFile}
use kinby.Runs.Values.{step_of}
use kinby.Runs.Tally.{
  Tally, outcome_of, failed_to, count_attempt, count_ending, tally_from, tally_of, no_tally,
}

-- The tally with one more send back along the edge, or one more failure of the step.
abbrev pub sent : String → String → Tally → Tally
sent id to tally = record tally { sent_back = bump (id, to) tally.sent_back }

abbrev pub missed : String → Tally → Tally
missed id tally = record tally { failures = bump id tally.failures }

module _ (factory : FactoryFile) (step : Step) (tally : Tally) (a : StepAttempt)
    (found : step_of factory.steps a.step ≡ some step) where
  pub count_attempt-next :
      a.ending ≡ some clean
      → outcome_of step a.outcome ≡ some next
      → count_attempt factory a tally ≡ tally
  unfolding count_attempt
  count_attempt-next c o = rw (c, found, count_ending) (rw o)

  pub count_attempt-back :
      (edge : SendBack)
      → a.ending ≡ some clean
      → outcome_of step a.outcome ≡ some (send_back edge)
      → count_attempt factory a tally ≡ sent a.step edge.back tally
  unfolding count_attempt
  count_attempt-back edge c o = rw (c, found, count_ending) (rw o)

  pub count_attempt-failure_back :
      (edge : SendBack)
      → a.ending ≡ some failed
      → step.failed ≡ some edge
      → count_attempt factory a tally ≡ sent a.step edge.back tally
  unfolding count_attempt failed_to
  count_attempt-failure_back edge c d = ground arith

  pub count_attempt-again :
      (ending : StepEnding)
      → a.ending ≡ some ending
      → ending ≢ clean
      → ending ≢ limited
      → failed_to (some step) (some ending) ≡ none
      → count_attempt factory a tally ≡ missed a.step tally
  unfolding count_attempt failed_to
  count_attempt-again ending e c l f = ground arith

-- An attempt that still runs adds nothing.
pub count_attempt-open :
    (factory : FactoryFile) (tally : Tally) (a : StepAttempt)
    → a.ending ≡ none
    → count_attempt factory a tally ≡ tally
unfolding count_attempt failed_to
count_attempt-open factory tally a e = ground arith

tally_from-append :
    (factory : FactoryFile) (tally : Tally) (attempts : List StepAttempt) (a : StepAttempt)
    → tally_from factory tally (attempts ++ a ∷ [])
      ≡ count_attempt factory a (tally_from factory tally attempts)
unfolding tally_from
tally_from-append factory tally [] a = refl
tally_from-append factory tally (x ∷ attempts) a =
    tally_from-append factory (count_attempt factory x tally) attempts a

pub tally_of-append :
    (factory : FactoryFile) (attempts : List StepAttempt) (a : StepAttempt)
    → tally_of factory (attempts ++ a ∷ []) ≡ count_attempt factory a (tally_of factory attempts)
unfolding tally_of
tally_of-append factory attempts a = tally_from-append factory no_tally attempts a

pub tally_of-none : (factory : FactoryFile) → tally_of factory [] ≡ no_tally
unfolding tally_of tally_from
tally_of-none factory = refl
