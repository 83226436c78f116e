-- ===== src/Gate/Order.antt =====
-- A higher mode of core/gate.py lets through no less, up to the bash patterns in read-only mode.
use kinby.Common.{ℕ, String, Bool, ◌≡◌, ◌≤◌, Option, none, some, List, arith}
use kinby.Contracts.{PermissionMode, read_only, ask, auto, full_access, GateAction, ToolCall}
use kinby.Gate.{
  Tool, GatePolicy, Surroundings, bash_command, bash_patterns, evaluate, unruled, ruled, by_mode,
  preset_action,
}
use kinby.Gate.Modes.{rank, constrain_mode, rank-constrain_mode}

-- How much an action lets through.
abbrev pub leeway : GateAction → ℕ
leeway GateAction.deny = 0
leeway GateAction.ask = 1
leeway GateAction.allow = 2

bash_patterns-none :
    (env : Surroundings) (policy : GatePolicy) (mode : PermissionMode) (command : Option String)
    → bash_patterns env policy full_access command ≡ none
    → bash_patterns env policy mode command ≡ none
unfolding bash_patterns
bash_patterns-none env policy mode none h = h
bash_patterns-none env policy read_only (some command) h = ground arith
bash_patterns-none env policy _ (some command) h = h

module _ (env : Surroundings) (call : ToolCall) (tool : Option Tool) (granted marked : Bool)
    (seen : List String) where
  unruled_mono :
      (lower upper : PermissionMode)
      → rank lower ≤ rank upper
      → leeway (unruled env lower call tool granted marked seen).action
        ≤ leeway (unruled env upper call tool granted marked seen).action
  unfolding unruled by_mode preset_action
  unruled_mono read_only upper le = ground arith
  unruled_mono ask read_only le = absurd (omega arith)
  unruled_mono ask upper le = ground arith
  unruled_mono auto auto le = omega arith
  unruled_mono auto full_access le = ground arith
  unruled_mono auto _ le = absurd (omega arith)
  unruled_mono full_access full_access le = omega arith
  unruled_mono full_access _ le = absurd (omega arith)

  ruled_mono :
      (policy : GatePolicy) (lower upper : PermissionMode)
      → rank lower ≤ rank upper
      → bash_patterns env policy full_access (bash_command call) ≡ none
      → leeway (ruled env policy lower call tool granted marked seen).action
        ≤ leeway (ruled env policy upper call tool granted marked seen).action
  unfolding ruled
  ruled_mono policy lower upper le np = ground (
    arith,
    bash_patterns-none env policy lower (bash_command call) np,
    bash_patterns-none env policy upper (bash_command call) np,
    unruled_mono lower upper le,
  )

-- Where no bash pattern decides the call, a mode lets through at least what a lower mode does,
-- for the same call, tool, rules, grant, mark and URLs.
pub evaluate_mono :
    (env : Surroundings) (policy : GatePolicy) (lower upper : PermissionMode) (call : ToolCall)
    (tool : Option Tool) (granted marked : Bool) (seen : List String)
    → rank lower ≤ rank upper
    → bash_patterns env policy full_access (bash_command call) ≡ none
    → leeway (evaluate env policy lower call tool granted marked seen).action
      ≤ leeway (evaluate env policy upper call tool granted marked seen).action
unfolding evaluate
evaluate_mono env policy lower upper call tool granted marked seen le np =
    ground (arith, ruled_mono env call tool granted marked seen policy lower upper le np)

-- Where no bash pattern decides the call, the mode that a ceiling leaves of any mode lets through
-- no more than the ceiling itself.
pub evaluate-constrain_mode :
    (env : Surroundings) (policy : GatePolicy) (mode ceiling : PermissionMode) (call : ToolCall)
    (tool : Option Tool) (granted marked : Bool) (seen : List String)
    → bash_patterns env policy full_access (bash_command call) ≡ none
    → leeway
        (evaluate env policy (constrain_mode mode ceiling) call tool granted marked seen).action
      ≤ leeway (evaluate env policy ceiling call tool granted marked seen).action
evaluate-constrain_mode env policy mode ceiling call tool granted marked seen np =
    evaluate_mono env policy (constrain_mode mode ceiling) ceiling call tool granted marked seen
      (ground (arith, rank-constrain_mode mode ceiling)) np
