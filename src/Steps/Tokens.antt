-- ===== src/Steps/Tokens.antt =====
-- core/coding_clients.py, own_tokens: what the recorded runs of a session sum up to.
use mathlib.Core.Path.{subst}
use kinby.Common.{
  ℕ, ◌+◌, ◌-◌, max, String, Option, none, some, List, [], ◌∷◌, ◌++◌, ◌==◌, string_eq, ◌≡◌, refl,
  sym, ◌∙◌, ap, sum_by, keep, if◌then◌else◌, arith, Bool-cases, inl, inr, eq_of_beq,
}
use kinby.Steps.Coding.{TokenTotals, DelegatedRun, own_tokens, own_in, is_session, same_session}
use kinby.Steps.Kinds.{record_run}

-- The four counts of a run's tokens.
pub data Count : Type 0 where
  input output cache_read cache_creation : Count

abbrev pub count_of : Count → TokenTotals → ℕ
count_of input tokens = tokens.input_tokens
count_of output tokens = tokens.output_tokens
count_of cache_read tokens = tokens.cache_read_tokens
count_of cache_creation tokens = tokens.cache_creation_tokens

-- What the recorded runs of a session count together.
abbrev pub session_total : Count → String → List DelegatedRun → ℕ
session_total count session log =
    sum_by (λ run. count_of count run.tokens) (keep (same_session session) log)

-- The largest running total that the runs of a session report, and at least a number.
abbrev pub largest_total : Count → String → ℕ → List DelegatedRun → ℕ
largest_total count session least [] = least
largest_total count session least (run ∷ runs) =
    largest_total count session
      (if same_session session run then max least (count_of count run.tokens) else least) runs

-- Runs that client steps report, one after the other.
abbrev pub record_runs : List DelegatedRun → List DelegatedRun → List DelegatedRun
record_runs log [] = log
record_runs log (run ∷ runs) = record_runs (record_run log (some run)) runs

own_in-session :
    (run : DelegatedRun) (log : List DelegatedRun) (session : Option String)
    → (own_in run log session).session ≡ run.session
own_in-session run log none = refl
own_in-session run log (some session) = refl

own_count :
    (count : Count) (run : DelegatedRun) (log : List DelegatedRun) (session : String)
    → count_of count (own_in run log (some session)).tokens
      ≡ count_of count run.tokens - session_total count session log
own_count input run log session = refl
own_count output run log session = refl
own_count cache_read run log session = refl
own_count cache_creation run log session = refl

session_total-append :
    (count : Count) (session : String) (log : List DelegatedRun) (run : DelegatedRun)
    → session_total count session (log ++ run ∷ [])
      ≡ session_total count session log
        + (if same_session session run then count_of count run.tokens else 0)
session_total-append count session [] run = ground arith
session_total-append count session (first ∷ log) run =
    ground (arith, session_total-append count session log run)

-- With `least` there before, a run's own tokens fill up to its running total.
fills : (before total : ℕ) → before + (total - before) ≡ max before total
fills before total = omega arith

own_adds :
    (count : Count) (session : String) (log : List DelegatedRun) (run : DelegatedRun)
    (found : Option String)
    → run.session ≡ found
    → session_total count session log
        + (if is_session session run.session
            then count_of count (own_in run log found).tokens
            else 0)
      ≡ (if is_session session run.session
          then max (session_total count session log) (count_of count run.tokens)
          else session_total count session log)
own_adds count session log run none e = rw e (omega arith)
own_adds count session log run (some other) e = rw e (elim (Bool-cases (other == session)) [
  | inr far ↦ rw far (omega arith)
  | inl here ↦ rw here (
      ap (λ n. session_total count session log + n) (own_count count run log other)
      ∙ subst
          (λ s.
            session_total count session log
              + (count_of count run.tokens - session_total count s log)
            ≡ max (session_total count session log) (count_of count run.tokens))
          (sym (eq_of_beq other session here))
          (fills (session_total count session log) (count_of count run.tokens)))
])

record_run-total :
    (count : Count) (session : String) (log : List DelegatedRun) (run : DelegatedRun)
    → session_total count session (record_run log (some run)) ≡ (
        if same_session session run
        then max (session_total count session log) (count_of count run.tokens)
        else session_total count session log)
unfolding record_run own_tokens
record_run-total count session log run =
    session_total-append count session log (own_tokens run log)
    ∙ (rw (own_in-session run log run.session) (own_adds count session log run run.session refl))

-- However many runs client steps record, in whatever order and of whatever sessions, the tokens
-- recorded for a session, of each of the four counts, sum up to the largest running total that its
-- runs reported, or to what the log had for it before, where that is more.
pub record_runs-total :
    (count : Count) (session : String) (log runs : List DelegatedRun)
    → session_total count session (record_runs log runs)
      ≡ largest_total count session (session_total count session log) runs
record_runs-total count session log [] = refl
record_runs-total count session log (run ∷ runs) =
    record_runs-total count session (record_run log (some run)) runs
    ∙ ap (λ n. largest_total count session n runs) (record_run-total count session log run)
