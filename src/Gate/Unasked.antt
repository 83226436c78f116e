-- ===== src/Gate/Unasked.antt =====
-- core/gate.py with core/shell_reads.py: what bash reads without asking.
use kinby.Common.{
  String, Bool, not, ◌&&◌, true, false, ◌≡◌, ◌∙◌, sym, none, some, List, ◌∷◌, arith, In, Bool-cases,
  inl, inr, string_eq,
}
use kinby.Common.Keyed.{get}
use kinby.Common.Slices.{starts_with}
use kinby.Contracts.{ask, GateAction, ToolCall}
use kinby.Gate.{
  Tool, GatePolicy, Surroundings, bash_command, bash_patterns, is_url_read, ruled, evaluate,
  unruled, by_mode, preset_action,
}
use kinby.ShellReads.Lexer.{Classes}
use kinby.ShellReads.Words.{commands_of}
use kinby.ShellReads.Guards.{Files, is_shell_read, targets}
use kinby.ShellReads.Confined.{Comes, is_shell_read-inside}

-- What the gate goes by in the bash tool: a declared write, and none of the tools that the gate
-- decides ahead of the patterns.
abbrev pub is_plain_write : Tool → Bool
is_plain_write t =
    t.write && not t.hub && not t.consolidation && not t.notify && not t.view && not t.authored

reads_unasked :
    (env : Surroundings) (policy : GatePolicy) (call : ToolCall) (t : Tool) (marked : Bool)
    (seen : List String) (command : String)
    → is_plain_write t ≡ true
    → is_url_read call.name ≡ false
    → get call.name policy.tools ≡ none
    → bash_command call ≡ some command
    → (evaluate env policy ask call (some t) false marked seen).action ≡ GateAction.allow
    → env.is_shell_read command ≡ true
unfolding evaluate ruled unruled by_mode preset_action bash_patterns
reads_unasked env policy call t marked seen command plain url no_rule is_bash allowed =
    elim (Bool-cases (env.is_shell_read command)) [
      | inl reads ↦ reads
      | inr writes ↦ absurd (ground arith)
    ]

-- In ask mode, where no rule of the policy names bash and no grant holds, a bash call that the
-- gate allows unasked reads inside the workspace: wherever bash comes to run one of its commands,
-- each `cd` followed or not, whatever an argument that is no flag names there, itself or as a
-- glob, resolves inside the workspace's root. The gate tells shell reads as core/shell_reads.py
-- does, and the tool is a declared write that the gate does not decide ahead of its patterns.
pub evaluate-confines {ℓ} :
    {FilePath : Type ℓ} (files : Files FilePath) (classes : Classes) (workspace : FilePath)
    (env : Surroundings) (policy : GatePolicy) (call : ToolCall) (t : Tool) (marked : Bool)
    (seen : List String) (command program argument : String) (commands : List (List String))
    (arguments : List String) (directory p : FilePath)
    → env.is_shell_read command ≡ is_shell_read files classes command workspace
    → is_plain_write t ≡ true
    → is_url_read call.name ≡ false
    → get call.name policy.tools ≡ none
    → bash_command call ≡ some command
    → (evaluate env policy ask call (some t) false marked seen).action ≡ GateAction.allow
    → commands_of classes command ≡ some commands
    → Comes files (files.resolve workspace) commands (program ∷ arguments) directory
    → In argument arguments
    → starts_with argument "-" ≡ false
    → In p (targets files directory argument)
    → files.is_relative_to (files.resolve p) (files.resolve workspace) ≡ true
evaluate-confines files classes workspace env policy call t marked seen command program argument
      commands arguments directory p tells plain url no_rule is_bash allowed =
    is_shell_read-inside files classes command workspace commands program argument arguments
      directory p
      (sym tells
        ∙ reads_unasked env policy call t marked seen command plain url no_rule is_bash allowed)
