-- ===== src/Steps/Refused.antt =====
-- core/steps.py: what keeps a command step from its commands, and what stops it at one of them.
use kinby.Common.{
  ℕ, String, Bool, true, false, Option, none, some, List, [], ◌∷◌, ◌≡◌, arith, nat_eq, string_eq,
  all,
}
use kinby.Common.Keyed.{Dict, get}
use kinby.Contracts.Runs.{StepEnding, StepResult, clean, is_valid_result}
use kinby.Steps.Coding.{Texts}
use kinby.Steps.Results.{CommandEntry, failed_with, CommandStepRun, written, listed}
use kinby.Steps.Commands.{
  Repository, Expanded, expand, commands_of, CommandEnd, command_failed, ends, expands, in_front,
  expand_by, unreadable, lists, killed, runs_past, is_written, listed_in, unstarted, exits,
}

abbrev pub IsValid : StepResult → Type 0
IsValid result = is_valid_result result ≡ true

abbrev pub is_clean : StepEnding → Bool
is_clean clean = true
is_clean _ = false

-- A result that the contract admits and that is not clean.
pub record IsRefusal (result : StepResult) : Type 0 where
  pub valid : IsValid result
  pub unclean : is_clean result.ending ≡ false

in_front_ends :
    (first : List String) (rest : Expanded) (result : StepResult)
    → (rest ≡ ends result → IsRefusal result)
    → in_front first rest ≡ ends result
    → IsRefusal result
in_front_ends first (expands lines) result h e = absurd (ground (arith, e))
in_front_ends first (ends kept) result h e = h e

listed_in-IsRefusal :
    (found : Option (List String)) (name : String) (rest : Expanded) (result : StepResult)
    → (rest ≡ ends result → IsRefusal result)
    → listed_in found name rest ≡ ends result
    → IsRefusal result
listed_in-IsRefusal none name rest result h e = ground (arith, e)
listed_in-IsRefusal (some lines) name rest result h e = in_front_ends lines rest result h e

expand-IsRefusal :
    (held : Dict String (List String)) (entries : List CommandEntry) (result : StepResult)
    → expand held entries ≡ ends result
    → IsRefusal result
unfolding expand
expand-IsRefusal held [] result e = absurd (ground (arith, e))
expand-IsRefusal held (written line ∷ entries) result e =
    in_front_ends (line ∷ []) (expand held entries) result (expand-IsRefusal held entries result) e
expand-IsRefusal held (listed name ∷ entries) result e =
    listed_in-IsRefusal (get name held) name (expand held entries) result
      (expand-IsRefusal held entries result) e

pub commands_of-IsRefusal :
    (step : CommandStepRun) (repository : Repository) (result : StepResult)
    → commands_of step repository ≡ ends result
    → IsRefusal result
unfolding commands_of failed_with
commands_of-IsRefusal step repository result e = by_written (all is_written step.run) repository e
  where
    by_written :
        (b : Bool) (repository : Repository)
        → expand_by b repository step.run ≡ ends result
        → IsRefusal result
    by_written true repository e = expand-IsRefusal [] step.run result e
    by_written false (unreadable reason) e = ground (arith, e)
    by_written false (lists held) e = expand-IsRefusal held step.run result e

pub command_failed-IsRefusal :
    (texts : Texts) (timeout : Option ℕ) (line : String) (end : CommandEnd) (result : StepResult)
    → command_failed texts timeout line end ≡ some result
    → IsRefusal result
unfolding command_failed
command_failed-IsRefusal texts timeout line (unstarted reason) result e = ground (arith, e)
command_failed-IsRefusal texts timeout line (exits code_ output) result e = ground (arith, e)
command_failed-IsRefusal texts timeout line (killed signal output) result e = ground (arith, e)
command_failed-IsRefusal texts timeout line runs_past result e = ground (arith, e)
