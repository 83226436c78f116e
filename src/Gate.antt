-- ===== src/Gate.antt =====
-- core/gate.py and the modes of instance/permissions.py: whether one tool call may run.
pub mod Modes
pub mod Safety
pub mod Order
pub mod Unasked
use kinby.Common.{
  ℕ, suc, ◌+◌, String, Bool, true, false, not, ◌&&◌, ◌||◌, Option, none, some, List, [], ◌∷◌, ◌++◌,
  ◌==◌, string_eq, if◌then◌else◌, all, any,
}
use kinby.Common.Keyed.{Dict, get}
use kinby.Contracts.{
  Json, str, PermissionMode, read_only, ask, auto, full_access, GateAction, ToolCall,
}

-- The rule behind a decision, such as `bash.deny[0]` or `tools.bash`.
pub data GateRule : Type 0 where
  hub_write consolidation_write notify view authored_write : GateRule
  bash_deny : ℕ → GateRule
  bash_ask : ℕ → GateRule
  tools : String → GateRule
  routine_grant bash_read seen_url unseen_url auto_workspace : GateRule
  preset : PermissionMode → Bool → GateRule

pub record GateDecision : Type 0 where
  pub action : GateAction
  pub rule : GateRule

-- plugins/tools.py: what the gate reads of a declared tool.
pub record Tool : Type 0 where
  pub write : Bool
  pub hub : Bool
  pub consolidation : Bool
  pub notify : Bool
  pub view : Bool
  pub authored : Bool
  pub paths : List String

pub record BashPolicy : Type 0 where
  pub deny : List String
  pub ask : List String

-- `GatePolicy` without its mode and ceiling, which the caller has settled.
pub record GatePolicy : Type 0 where
  pub tools : Dict String GateAction
  pub bash : BashPolicy

-- What the gate takes from outside the module: `re.search`, `is_shell_read` at the workspace,
-- the path that resolving a text against the workspace gives, and `Path.is_relative_to` the
-- workspace's root.
pub record Surroundings : Type 0 where
  pub search : String → String → Bool
  pub is_shell_read : String → Bool
  pub resolve : String → String
  pub is_inside : String → Bool
  pub shipped_bash_deny : List String

-- `tuple(dict.fromkeys(patterns))`: each pattern once, where it first stands.
unfoldable pub member : String → List String → Bool
member s [] = false
member s (x ∷ xs) = x == s || member s xs

distinct_from : List String → List String → List String
distinct_from seen [] = []
distinct_from seen (x ∷ xs) =
    let kept = x ∷ distinct_from (x ∷ seen) xs in
    if member x seen then distinct_from seen xs else kept

pub denylist : Surroundings → BashPolicy → List String
denylist env bash = distinct_from [] (env.shipped_bash_deny ++ bash.deny)

preset_action : PermissionMode → Bool → GateAction
preset_action read_only false = GateAction.allow
preset_action read_only true = GateAction.deny
preset_action ask false = GateAction.allow
preset_action ask true = GateAction.ask
preset_action auto false = GateAction.allow
preset_action auto true = GateAction.ask
preset_action full_access _ = GateAction.allow

abbrev pub is_read_only : PermissionMode → Bool
is_read_only read_only = true
is_read_only _ = false

-- `isinstance(value, str)`
abbrev pub as_text : Option Json → Option String
as_text (some (str s)) = some s
as_text _ = none

-- The index of the first pattern that is found in the command.
pub first_match : Surroundings → ℕ → List String → String → Option ℕ
first_match env index [] command = none
first_match env index (pattern ∷ rest) command =
    let later = first_match env (index + 1) rest command in
    if env.search pattern command then some index else later

-- The command of a call of `bash`.
abbrev pub bash_command : ToolCall → Option String
bash_command call = if call.name == "bash" then as_text (get "command" call.arguments) else none

unfoldable pub bash_patterns :
    Surroundings → GatePolicy → PermissionMode → Option String → Option GateDecision
unfolding first_match denylist distinct_from
bash_patterns env policy mode none = none
bash_patterns env policy mode (some command) =
    if is_read_only mode
    then none
    else elim (first_match env 0 (denylist env policy.bash) command) [
      | some index ↦ some (record { action = GateAction.deny; rule = bash_deny index })
      | none ↦ elim (first_match env 0 policy.bash.ask command) [
        | some index ↦ some (record { action = GateAction.ask; rule = bash_ask index })
        | none ↦ none
      ]
    ]

-- A path parameter is inside when the call gives it as a text that resolves inside.
pub paths_inside : Surroundings → List String → Dict String Json → Bool
paths_inside env [] arguments = true
paths_inside env (parameter ∷ rest) arguments = elim (as_text (get parameter arguments)) [
  | none ↦ false
  | some path ↦ env.is_inside (env.resolve path) && paths_inside env rest arguments
]

pub paths_are_inside_workspace : Surroundings → Tool → ToolCall → Bool
paths_are_inside_workspace env tool call = elim tool.paths [
  | [] ↦ false
  | p ∷ ps ↦ paths_inside env (p ∷ ps) call.arguments
]

abbrev pub flag : (Tool → Bool) → Option Tool → Bool
flag f none = false
flag f (some tool) = f tool

abbrev pub is_none {ℓ} : {A : Type ℓ} → Option A → Bool
is_none none = true
is_none (some _) = false

-- the tools in URL_READS
abbrev pub is_url_read : String → Bool
is_url_read name = name == "web_fetch" || name == "browser_open"

abbrev pub reads_seen_url : ToolCall → List String → Bool
reads_seen_url call seen_urls = elim (as_text (get "url" call.arguments)) [
  | none ↦ false
  | some url ↦ member url seen_urls
]

abbrev is_shell_read_call : Surroundings → ToolCall → Bool
is_shell_read_call env call = elim (bash_command call) [
  | none ↦ false
  | some command ↦ env.is_shell_read command
]

abbrev pub is_ask_or_auto : PermissionMode → Bool
is_ask_or_auto ask = true
is_ask_or_auto auto = true
is_ask_or_auto _ = false

abbrev is_auto : PermissionMode → Bool
is_auto auto = true
is_auto _ = false

abbrev pub unless_read_only : PermissionMode → GateAction → GateAction
unless_read_only mode action = if is_read_only mode then GateAction.deny else action

-- A declared tool's write, by the mode, and inside the workspace in auto.
by_mode : Surroundings → PermissionMode → ToolCall → Option Tool → GateDecision
unfolding preset_action
by_mode env mode call tool =
    let writes = flag (λ t. t.write && not t.authored) tool in
    if is_auto mode && writes && flag (λ t. paths_are_inside_workspace env t call) tool
    then record { action = GateAction.allow; rule = auto_workspace }
    else record { action = preset_action mode writes; rule = preset mode writes }

-- What decides a call that no rule of the policy names.
unruled :
    Surroundings
    → PermissionMode
    → ToolCall
    → Option Tool
    → Bool
    → Bool
    → List String
    → GateDecision
unfolding by_mode preset_action
unruled env mode call tool granted marked_read_only seen_urls =
    if granted && not (is_read_only mode)
    then record { action = GateAction.allow; rule = routine_grant }
    else if is_ask_or_auto mode && flag (λ t. not t.authored) tool && is_shell_read_call env call
    then record { action = GateAction.allow; rule = bash_read }
    else if flag (λ t. t.authored) tool && not marked_read_only
    then record { action = preset_action mode true; rule = authored_write }
    else if is_url_read call.name
    then if reads_seen_url call seen_urls
      then record { action = GateAction.allow; rule = seen_url }
      else record { action = preset_action mode true; rule = unseen_url }
    else by_mode env mode call tool

-- The bash patterns, then the policy's own rule for the tool, then the rest.
ruled :
    Surroundings
    → GatePolicy
    → PermissionMode
    → ToolCall
    → Option Tool
    → Bool
    → Bool
    → List String
    → GateDecision
unfolding unruled bash_patterns
ruled env policy mode call tool granted marked_read_only seen_urls =
    elim (bash_patterns env policy mode (bash_command call)) [
      | some decision ↦ decision
      | none ↦ elim (get call.name policy.tools) [
        | some override ↦ record { action = override; rule = tools call.name }
        | none ↦ unruled env mode call tool granted marked_read_only seen_urls
      ]
    ]

unfoldable pub evaluate :
    Surroundings
    → GatePolicy
    → PermissionMode
    → ToolCall
    → Option Tool
    → Bool
    → Bool
    → List String
    → GateDecision
unfolding ruled unruled by_mode preset_action bash_patterns
evaluate env policy mode call tool granted marked_read_only seen_urls =
    if flag (λ t. t.hub && t.write) tool
    then record { action = unless_read_only mode GateAction.ask; rule = hub_write }
    else if flag (λ t. t.consolidation) tool
    then record { action = unless_read_only mode GateAction.allow; rule = consolidation_write }
    else if flag (λ t. t.notify) tool && is_none (get call.name policy.tools)
    then record { action = unless_read_only mode GateAction.allow; rule = notify }
    else if flag (λ t. t.view) tool && is_none (get call.name policy.tools)
    then record { action = unless_read_only mode GateAction.allow; rule = view }
    else ruled env policy mode call tool granted marked_read_only seen_urls
