-- ===== src/Gate/Safety.antt =====
-- What no mode, grant or rule of core/gate.py lets through.
use kinby.Common.{
  ℕ, String, Bool, true, false, ◌&&◌, ◌≡◌, ◌≢◌, ◌⊎◌, inl, inr, none, some, List, [], ◌∷◌, ◌++◌,
  arith, ◌+◌, ◌==◌, string_eq, eq_of_beq, Bool-cases, Option-cases, ◌∙◌,
}
use text.Mathlib.TextEquality.{eq_iff}
use kinby.Common.Keyed.{get}
use kinby.Contracts.{PermissionMode, read_only, GateAction, ToolCall}
use kinby.Gate.{
  Tool, GatePolicy, Surroundings, member, distinct_from, denylist, first_match, bash_command,
  bash_patterns, is_read_only, is_url_read, reads_seen_url, ruled, evaluate, unruled, by_mode,
  preset_action,
}

-- In read-only mode a call that no rule of the policy names is allowed only when its tool is no
-- write, or is an authored tool the user marked read-only, or opens a URL the thread has seen.
pub read_only_allows_reads :
    (env : Surroundings) (policy : GatePolicy) (call : ToolCall) (t : Tool) (granted marked : Bool)
    (seen : List String)
    → get call.name policy.tools ≡ none
    → (evaluate env policy read_only call (some t) granted marked seen).action ≡ GateAction.allow
    → (t.write ≡ false)
      ⊎ ((t.authored && marked) ≡ true)
      ⊎ ((is_url_read call.name && reads_seen_url call seen) ≡ true)
unfolding evaluate ruled unruled by_mode preset_action bash_patterns
read_only_allows_reads env policy call t granted marked seen n h = elim (Bool-cases t.write) [
  | inl w ↦ inr (ground arith)
  | inr w ↦ inl w
]

In-first_match :
    (env : Surroundings) (p command : String) (i : ℕ) (xs : List String)
    → member p xs ≡ true
    → env.search p command ≡ true
    → first_match env i xs command ≢ none
unfolding first_match member
In-first_match env p command i [] m h = cc
In-first_match env p command i (x ∷ xs) m h =
    ground (arith, eq_iff x p, In-first_match env p command (i + 1) xs)

-- Removing duplicates keeps each pattern that was not seen before.
member-distinct_from :
    (p : String) (seen xs : List String)
    → member p seen ≡ false
    → member p (distinct_from seen xs) ≡ member p xs
unfolding member distinct_from
member-distinct_from p seen [] h = ground arith
member-distinct_from p seen (x ∷ xs) h = elim (Bool-cases (x == p)) [
  | inl e ↦
      let same : x ≡ p = eq_of_beq x p e in
      let fresh : member x seen ≡ false = rw same h in rw (fresh, e)
  | inr e ↦ elim (Bool-cases (member x seen)) [
    | inl old ↦ rw (old, e) (member-distinct_from p seen xs h)
    | inr new ↦ rw (new, e) (member-distinct_from p (x ∷ seen) xs (rw e h))
  ]
]

In-denylist :
    (env : Surroundings) (policy : GatePolicy) (command pattern : String)
    → member pattern (env.shipped_bash_deny ++ policy.bash.deny) ≡ true
    → env.search pattern command ≡ true
    → (i : ℕ) × (first_match env 0 (denylist env policy.bash) command ≡ some i)
unfolding denylist
In-denylist env policy command pattern m f =
    let all : List String = env.shipped_bash_deny ++ policy.bash.deny in
    let listed : member pattern (distinct_from [] all) ≡ true =
      member-distinct_from pattern [] all (unfold member in ground arith) ∙ m in
    elim (Option-cases (first_match env 0 (distinct_from [] all) command)) [
      | inl none_found ↦ absurd (In-first_match env pattern command 0 _ listed f none_found)
      | inr found ↦ found
    ]

-- In every mode above read-only a command that matches a deny pattern, shipped or the instance's
-- own, is denied, whatever the policy's rule for the tool, the routine's grant or the user's mark.
-- The tool is none of those that the gate decides ahead of the patterns.
pub denied_pattern :
    (env : Surroundings) (policy : GatePolicy) (mode : PermissionMode) (call : ToolCall) (t : Tool)
    (granted marked : Bool) (seen : List String) (command pattern : String)
    → is_read_only mode ≡ false
    → t.hub ≡ false
    → t.consolidation ≡ false
    → t.notify ≡ false
    → t.view ≡ false
    → bash_command call ≡ some command
    → member pattern (env.shipped_bash_deny ++ policy.bash.deny) ≡ true
    → env.search pattern command ≡ true
    → (evaluate env policy mode call (some t) granted marked seen).action ≡ GateAction.deny
unfolding evaluate ruled unruled by_mode preset_action bash_patterns
denied_pattern env policy mode call t granted marked seen command pattern r h c n v b m f =
    ground (arith, In-denylist env policy command pattern m f)
