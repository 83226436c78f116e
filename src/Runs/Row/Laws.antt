-- ===== src/Runs/Row/Laws.antt =====
-- What opening and ending an attempt do to the attempts of a run.
use kinby.Common.{
  ℕ, ◌+◌, ◌≤◌, String, false, ◌≡◌, refl, List, [], ◌∷◌, ◌++◌, length, drop-append, ap,
}
use kinby.Contracts.Runs.{FactoryRunStatus, StepResult, StepAttempt}
use kinby.Runs.Row.{
  Row, is_open, opened, attempts_at, begin_attempt, ended, end_open, end_attempt, counted_attempts,
}

-- No attempt runs.
abbrev pub AllEnded : List StepAttempt → Type 0
AllEnded [] = Unit
AllEnded (a ∷ attempts) = (is_open a ≡ false) × AllEnded attempts

end_open-append :
    (result : StepResult) (xs ys : List StepAttempt)
    → AllEnded xs
    → end_open result (xs ++ ys) ≡ xs ++ end_open result ys
unfolding end_open
end_open-append result [] ys h = refl
end_open-append result (x ∷ xs) ys h =
    rw h.0 (ap (λ (rest : List StepAttempt). x ∷ rest) (end_open-append result xs ys h.1))

pub AllEnded-append :
    (xs : List StepAttempt) (a : StepAttempt)
    → AllEnded xs
    → is_open a ≡ false
    → AllEnded (xs ++ a ∷ [])
AllEnded-append [] a h e = (e, tt)
AllEnded-append (x ∷ xs) a h e = (h.0, AllEnded-append xs a h.1 e)

-- The attempt that a step opens now on the row.
abbrev pub next_attempt : String → ℕ → Row → StepAttempt
next_attempt id now row = opened id (attempts_at id row.attempts + 1) now

module _ (id : String) (status : FactoryRunStatus) (now : ℕ) (row : Row) where
  pub attempts-end_begin :
      (result : StepResult)
      → AllEnded row.attempts
      → (end_attempt result (begin_attempt id status now row)).attempts
        ≡ row.attempts ++ ended result (next_attempt id now row) ∷ []
  unfolding end_attempt begin_attempt end_open
  attempts-end_begin result h = end_open-append result row.attempts _ h

  pub counted-begin :
      row.restarted_after ≤ length row.attempts
      → counted_attempts (begin_attempt id status now row)
        ≡ counted_attempts row ++ next_attempt id now row ∷ []
  unfolding counted_attempts begin_attempt
  counted-begin h = drop-append row.restarted_after row.attempts _ h
