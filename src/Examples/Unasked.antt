-- ===== src/Examples/Unasked.antt =====
-- A bash call that ask mode allows unasked.
use kinby.Common.{true, false, some, [], ◌∷◌, ◌≡◌, refl, here, ◌==◌, string_eq}
use kinby.Common.Keyed.{get}
use kinby.Contracts.{ask, GateAction}
use kinby.Gate.{Surroundings, evaluate, member}
use kinby.Gate.Unasked.{evaluate-confines}
use kinby.ShellReads.Guards.{is_shell_read}
use kinby.Examples.Shell.{
  ascii, disk, workspace, reading, simple_commands, is_below, reading_words, to_src, a_match,
  a_no_flag,
}
use kinby.Examples.Gates.{policy, bash_tool, bash_call, bash_command_of}

-- The gate of the workspace.
abbrev env : Surroundings
env = record {
  search = λ pattern command. pattern == command;
  is_shell_read = λ command. is_shell_read disk ascii command workspace;
  resolve = λ path. path;
  is_inside = λ path. true;
  shipped_bash_deny = [];
}

reading_allowed :
    (evaluate env policy ask (bash_call reading) (some bash_tool) false false []).action
    ≡ GateAction.allow
unfolding evaluate get is_shell_read member
reading_allowed = refl

evaluate-confines_example : is_below ("ws" ∷ "src" ∷ "a.txt" ∷ []) workspace ≡ true
unfolding get
evaluate-confines_example =
    evaluate-confines disk ascii workspace env policy (bash_call reading) bash_tool false [] reading
      "cat" "a.txt" simple_commands ("a.txt" ∷ []) ("ws" ∷ "src" ∷ []) ("ws" ∷ "src" ∷ "a.txt" ∷ [])
      refl refl refl refl (bash_command_of reading) reading_allowed reading_words to_src here
      a_no_flag a_match
