-- ===== src/Contracts.antt =====
-- contracts/models.py: the JSON values, the modes of the gate, and the calls of tools.
pub mod Runs
use kinby.Common.{String, Bool}
use kinby.Common.Int.{ℤ}
use kinby.Common.Keyed.{Dict}

-- A JSON document. A number with a fraction is kept as its text.
mutual
  pub data Json : Type 0 where
    null : Json
    bool : Bool → Json
    int : ℤ → Json
    float : String → Json
    str : String → Json
    arr : Items → Json
    obj : Fields → Json

  pub data Items : Type 0 where
    nil : Items
    cons : Json → Items → Items

  pub data Fields : Type 0 where
    end : Fields
    field : String → Json → Fields → Fields

pub data PermissionMode : Type 0 where
  read_only ask auto full_access : PermissionMode

pub data GateAction : Type 0 where
  allow ask deny : GateAction

pub record ToolCall : Type 0 where
  pub call_id : String
  pub name : String
  pub arguments : Dict String Json
