-- ===== src/Steps/Reported.antt =====
-- core/coding_clients.py: the run that a client's streams report is one that the contract admits.
use kinby.Steps.Refused.{IsValid}
use kinby.Common.{
  ℕ, String, Bool, true, false, Option, none, some, ◌≡◌, refl, arith, Bool-cases, inl, inr, nat_eq,
  string_eq, ◌==◌,
}
use kinby.Contracts.Runs.{resets_when_limited}
use kinby.Steps.Coding.{
  Texts, CodingClient, DelegatedRun, DelegatedRunOutcome, CodingRun, Exit, Streams, reported,
  run_once, run_coding_client, run_resets_when_limited, outcome_by, resets_of, lost_session,
  run_is_valid, not_started, signalled, exited, past_deadline, errors_of,
}
use kinby.Steps.Kinds.{client_result, by_outcome}

-- What a client's run reports is a run that the contract admits, and no run ends limited by itself.
pub record IsRun (ran : CodingRun) : Type 0 where
  pub run : (run : DelegatedRun) → ran.reported ≡ some run → run_is_valid run ≡ true
  pub ends : resets_when_limited ran.ending none ≡ true

resets-valid :
    (succeeded : Bool) (resets_at : Option ℕ)
    → run_resets_when_limited
        (outcome_by succeeded resets_at)
        (resets_of (outcome_by succeeded resets_at) resets_at)
      ≡ true
resets-valid true resets_at = refl
resets-valid false none = refl
resets-valid false (some at) = refl

streams_run :
    (out : Streams) (run : DelegatedRun)
    → some (reported out.counted out.succeeded out.resets_at out.session) ≡ some run
    → run_is_valid run ≡ true
unfolding reported
streams_run out run e = ground (arith, e, resets-valid out.succeeded out.resets_at)

run_once-IsRun :
    (texts : Texts) (who : CodingClient) (timeout : ℕ) (exit : Exit) (out : Streams)
    → IsRun (run_once texts who timeout exit out)
unfolding run_once
run_once-IsRun texts who timeout (not_started reason) out = record {
  run = λ run e. absurd (ground (arith, e));
  ends = refl;
}
run_once-IsRun texts who timeout past_deadline out = record { run = streams_run out; ends = refl }
run_once-IsRun texts who timeout (signalled signal) out = record {
  run = streams_run out;
  ends = refl;
}
run_once-IsRun texts who timeout (exited code) out = elim (Bool-cases (code == 0)) [
  | inl zero_ ↦ rw zero_ (record { run = streams_run out; ends = refl })
  | inr other ↦ rw other (record { run = streams_run out; ends = refl })
]

pub run_coding_client-IsRun :
    (texts : Texts) (who : CodingClient) (timeout : ℕ) (starts : Option String → Exit × Streams)
    (resume : Option String)
    → IsRun (run_coding_client texts who timeout starts resume)
unfolding run_coding_client
run_coding_client-IsRun texts who timeout starts none =
    run_once-IsRun texts who timeout (starts none).0 (starts none).1
run_coding_client-IsRun texts who timeout starts (some session) =
    let first =
      run_once-IsRun texts who timeout (starts (some session)).0 (starts (some session)).1 in
    let again = run_once-IsRun texts who timeout (starts none).0 (starts none).1 in
    elim (Bool-cases (
      lost_session who session
        (run_once texts who timeout (starts (some session)).0 (starts (some session)).1)
        (errors_of (starts (some session)).0 (starts (some session)).1))) [
          | inl lost ↦ rw lost (record { run = again.run; ends = again.ends })
          | inr kept ↦ rw kept first
        ]

pub client_result-IsValid :
    (ran : CodingRun) (run : Option DelegatedRun)
    → IsRun ran
    → ran.reported ≡ run
    → IsValid (client_result ran run)
client_result-IsValid ran none r e = r.ends
client_result-IsValid ran (some run) r e =
    by_outcome-IsValid run.outcome run.resets_at (r.run run e)
  where
    by_outcome-IsValid :
        (outcome : DelegatedRunOutcome) (resets_at : Option ℕ)
        → run_resets_when_limited outcome resets_at ≡ true
        → IsValid (by_outcome ran resets_at outcome)
    by_outcome-IsValid DelegatedRunOutcome.limited (some at) h = refl
    by_outcome-IsValid DelegatedRunOutcome.limited none h = absurd (ground (arith, h))
    by_outcome-IsValid DelegatedRunOutcome.completed resets_at h = r.ends
    by_outcome-IsValid DelegatedRunOutcome.failed resets_at h = r.ends
