-- ===== src/Approvals.antt =====
-- hub/approvals.py: HomeApprovals, which knows what the user approved on the home instance.
-- A frame that says nothing of an approval or of a turn's end changes nothing and is left out.
pub mod Once
use kinby.Common.{
  ℕ, String, Bool, true, false, not, Option, none, some, List, [], ◌∷◌, ◌==◌, nat_eq, if◌then◌else◌,
  keep, any,
}
use kinby.Common.Keyed.{Dict, get, put, remove}
use kinby.Contracts.{ToolCall}

-- `ApprovalRequested`, and `_Witnessed`
pub record Request : Type 0 where
  pub approval_id : ℕ
  pub call : ToolCall

pub record Witnessed : Type 0 where
  pub turn_id : ℕ
  pub request : Request
  pub approved : Bool

pub record HomeApprovals : Type 0 where
  pub witnessed : Dict ℕ Witnessed
  pub used : List ℕ

abbrev pub is_used : ℕ → HomeApprovals → Bool
is_used id s = any (λ other. other == id) s.used

-- `dict.setdefault`
pub witness : ℕ → Witnessed → Dict ℕ Witnessed → Dict ℕ Witnessed
witness id w d = elim (get id d) [ none ↦ put id w d | some _ ↦ d ]

set_approved : ℕ → Dict ℕ Witnessed → Dict ℕ Witnessed
set_approved id d = elim (get id d) [ none ↦ d | some w ↦ put id (record w { approved = true }) d ]

-- The events of `instance_sent`: an approval the instance asks for in a turn, and a turn's end.
unfoldable pub requested : ℕ → Request → HomeApprovals → HomeApprovals
unfolding witness
requested turn request s = if is_used request.approval_id s then s else record s {
  witnessed =
      witness request.approval_id (record { turn_id = turn; request = request; approved = false })
        s.witnessed;
}

of_other_turn : ℕ → ℕ × Witnessed → Bool
of_other_turn turn (id, w) = not (w.turn_id == turn)

unfoldable pub turn_closed : ℕ → HomeApprovals → HomeApprovals
unfolding of_other_turn
turn_closed turn s = record s { witnessed = keep (of_other_turn turn) s.witnessed }

-- `client_sent`, of an answer
unfoldable pub answered : ℕ → Bool → HomeApprovals → HomeApprovals
unfolding set_approved
answered id approves s =
    if approves then record s { witnessed = set_approved id s.witnessed } else s

-- `approve`
unfoldable pub approve : ℕ → Request → HomeApprovals → HomeApprovals
unfolding witness set_approved
approve turn request s = if is_used request.approval_id s then s else record s {
  witnessed = set_approved request.approval_id (
      witness request.approval_id (record { turn_id = turn; request = request; approved = false })
        s.witnessed);
}

usable : Option Witnessed → Option Request
usable none = none
usable (some w) = if w.approved then some w.request else none

-- `approved`, where none is the error that the hub saw no approval it can use
unfoldable pub approved : ℕ → HomeApprovals → Option Request
unfolding usable
approved id s = usable (get id s.witnessed)

-- `use`
unfoldable pub use_approval : ℕ → HomeApprovals → HomeApprovals
use_approval id s = record s { witnessed = remove id s.witnessed; used = id ∷ s.used }
