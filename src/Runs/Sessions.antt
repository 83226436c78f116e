-- ===== src/Runs/Sessions.antt =====
-- hub/runs.py, `_session`: the coding session that a client step goes on with.
pub mod Links
mod Like
pub mod Ends
pub mod Shared
use kinby.Common.{
  ℕ, zero, suc, String, Bool, true, false, Option, none, some, List, [], ◌∷◌, ◌==◌, string_eq, ◌||◌,
  if◌then◌else◌, length, any,
}
use kinby.Common.Keyed.{Dict, get, put}
use kinby.Contracts.Runs.{StepAttempt}
use kinby.Factory.File.{Kind, client, Step, FactoryFile}

abbrev pub put_kind : String → Kind → Dict String (Option String) → Dict String (Option String)
put_kind id (client declared) d = put id declared.resume d
put_kind id _ d = d

-- `{other.id: other.resume for other in factory.steps if isinstance(other, ClientStep)}`
unfoldable pub resume_dict : Dict String (Option String) → List Step → Dict String (Option String)
unfolding put
resume_dict d [] = d
resume_dict d (step ∷ steps) = resume_dict (put_kind step.id step.kind d) steps

abbrev pub flat : Option (Option String) → Option String
flat none = none
flat (some resumed) = resumed

unfoldable pub resumed_by : Dict String (Option String) → String → Option String
unfolding get
resumed_by d id = flat (get id d)

abbrev first_from : (String → String) → String → Option String → String
first_from first id none = id
first_from first id (some resumed) = first resumed

-- The loop of `first`: the step that the resumes lead back to. The fuel bounds its rounds.
unfoldable pub first : ℕ → Dict String (Option String) → String → String
unfolding resumed_by
first zero d id = id
first (suc fuel) d id = first_from (first fuel d) id (resumed_by d id)

abbrev pub rounds : FactoryFile → ℕ
rounds factory = suc (length factory.steps)

abbrev pub is_key : String → Dict String (Option String) → Bool
is_key id d = any (λ entry. entry.0 == id) d

abbrev pub is_sharing : ℕ → Dict String (Option String) → String → String → Bool
is_sharing fuel d step other =
    other == step || (if is_key other d then first fuel d other == first fuel d step else false)

abbrev pub shared : Bool → Option String → Option String
shared true session = session
shared false session = none

abbrev pub or_earlier : Option String → Option String → Option String
or_earlier (some session) earlier = some session
or_earlier none earlier = earlier

-- The newest session of the attempts of steps that share the step's.
unfoldable pub newest : (String → Bool) → List StepAttempt → Option String
newest sharing [] = none
newest sharing (attempt ∷ later) =
    or_earlier (newest sharing later) (shared (sharing attempt.step) attempt.session)

-- `_session`
unfoldable pub session_of : List StepAttempt → FactoryFile → String → Option String
unfolding resume_dict first newest
session_of attempts factory step =
    newest (is_sharing (rounds factory) (resume_dict [] factory.steps) step) attempts
