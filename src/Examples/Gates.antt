-- ===== src/Examples/Gates.antt =====
-- Calls that the gate decides.
use kinby.Common.{
  String, true, false, ◌≡◌, ◌≤◌, ◌==◌, refl, none, some, [], ◌∷◌, string_eq, ◌++◌, arith,
}
use kinby.Common.Keyed.{get}
use kinby.Contracts.{str, read_only, ask, full_access, GateAction, ToolCall}
use kinby.Gate.{Tool, GatePolicy, Surroundings, evaluate, member, bash_patterns, bash_command}
use kinby.Gate.Safety.{denied_pattern}
use kinby.Gate.Modes.{constrain_mode}
use kinby.Gate.Order.{leeway, evaluate_mono, evaluate-constrain_mode}

-- A pattern is found in the text that it is, and each path is inside.
abbrev env : Surroundings
env = record {
  search = λ pattern command. pattern == command;
  is_shell_read = λ command. command == "ls";
  resolve = λ path. path;
  is_inside = λ path. true;
  shipped_bash_deny = "reboot" ∷ [];
}

abbrev pub policy : GatePolicy
policy = record { tools = []; bash = record { deny = "halt" ∷ []; ask = "make" ∷ [] } }

abbrev bash_allowed : GatePolicy
bash_allowed = record policy { tools = ("bash", GateAction.allow) ∷ [] }

abbrev pub bash_tool : Tool
bash_tool = record {
  write = true;
  hub = false;
  consolidation = false;
  notify = false;
  view = false;
  authored = false;
  paths = [];
}

abbrev read_tool : Tool
read_tool = record bash_tool { write = false }

abbrev pub bash_call : String → ToolCall
bash_call command = record {
  call_id = "c1";
  name = "bash";
  arguments = ("command", str command) ∷ [];
}

abbrev file_call : ToolCall
file_call = record { call_id = "c3"; name = "read_file"; arguments = [] }

reads_are_allowed :
    (evaluate env policy read_only file_call (some read_tool) false false []).action
    ≡ GateAction.allow
unfolding evaluate get
reads_are_allowed = refl

no_rule : get "read_file" policy.tools ≡ none
unfolding get
no_rule = refl

pub bash_command_of : (command : String) → bash_command (bash_call command) ≡ some command
unfolding get
bash_command_of command = refl

is_denied : member "reboot" (env.shipped_bash_deny ++ policy.bash.deny) ≡ true
unfolding member
is_denied = refl

denied_pattern_example :
    (evaluate env bash_allowed full_access
      (bash_call "reboot")
      (some bash_tool)
      true
      true
      []).action
    ≡ GateAction.deny
denied_pattern_example =
    denied_pattern env bash_allowed full_access (bash_call "reboot") bash_tool true true [] "reboot"
      "reboot" refl refl refl refl refl (bash_command_of "reboot") is_denied refl

-- The patterns are not read in read-only mode, where the rule allows the command.
reboot_in_read_only :
    (evaluate env bash_allowed read_only
      (bash_call "reboot")
      (some bash_tool)
      false
      false
      []).action
    ≡ GateAction.allow
unfolding evaluate get
reboot_in_read_only = refl

no_pattern : bash_patterns env policy full_access (bash_command (bash_call "ls")) ≡ none
unfolding bash_patterns get member
no_pattern = refl

evaluate_mono_example :
    leeway (evaluate env policy read_only (bash_call "ls") (some bash_tool) false false []).action
    ≤ leeway (evaluate env policy ask (bash_call "ls") (some bash_tool) false false []).action
evaluate_mono_example =
    evaluate_mono env policy read_only ask (bash_call "ls") (some bash_tool) false false []
      (omega arith) no_pattern

-- Full access under a ceiling of ask.
evaluate-constrain_mode_example :
    leeway
      (evaluate env policy
        (constrain_mode full_access ask)
        (bash_call "ls")
        (some bash_tool)
        false
        false
        []).action
    ≤ leeway (evaluate env policy ask (bash_call "ls") (some bash_tool) false false []).action
evaluate-constrain_mode_example =
    evaluate-constrain_mode env policy full_access ask (bash_call "ls") (some bash_tool) false false
      [] no_pattern
