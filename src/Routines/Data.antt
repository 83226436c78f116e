-- ===== src/Routines/Data.antt =====
-- core/routine_history.py and the payloads of contracts/models.py that it reads: events, histories
-- and the variables of the fold.
use kinby.Common.{ℕ, String, Bool, Option, none, List, []}
use kinby.Common.Keyed.{Dict}

-- `TurnKey`: the thread and the turn.
abbrev pub Key : Type 0
Key = ℕ × ℕ

pub data RunOutcome : Type 0 where
  running parked work no_work failed interrupted : RunOutcome

pub data NoticeKind : Type 0 where
  first_failure disabled : NoticeKind

pub record Notice : Type 0 where
  pub kind : NoticeKind
  pub message : String
  pub turn : Key

-- An arrival, by the routine that its origin names.
pub record Arrival : Type 0 where
  pub name : String
  pub manual : Bool
  pub delivery_id : Option String
  pub received_at : ℕ

-- The payloads that the fold reads. A turn's start has the routine that its origin names, if any.
pub data Payload : Type 0 where
  signal_received : Arrival → Payload
  failure_handled : String → Option Notice → Payload
  failures_reset : String → Payload
  turn_started : Option String → Payload
  message_delta : String → Payload
  tool_call approval_requested : Payload
  turn_completed : Bool → Payload
  turn_failed : String → Payload
  turn_interrupted other : Payload

pub record Event : Type 0 where
  pub key : Key
  pub timestamp : ℕ
  pub payload : Payload

-- `PendingDelivery`
pub record Pending : Type 0 where
  pub key : Key
  pub receipt_order : ℕ
  pub arrival : Arrival

-- `RoutineLastRun`
pub record Run : Type 0 where
  pub name : String
  pub started_at : ℕ
  pub outcome : RunOutcome
  pub first_line : String

-- `RoutineHistory`
pub record History : Type 0 where
  pub last_run : Option Key
  pub failure_count : ℕ
  pub last_failure : Option String
  pub notices : List Notice
  pub disable_notice : Option Notice
  pub pending : List Pending

-- `UnhandledFailure`
pub record Failure : Type 0 where
  pub name : String
  pub key : Key
  pub count : ℕ
  pub reason : String

-- The variables of the fold.
pub record Fold : Type 0 where
  pub histories : Dict String History
  pub runs : Dict Key Run
  pub texts : Dict Key String
  pub closed : List Key
  pub handled : List Key
  pub failures : Dict Key Failure
  pub pending : Dict Key (String × Pending)

abbrev pub no_history : History
no_history = record {
  last_run = none;
  failure_count = 0;
  last_failure = none;
  notices = [];
  disable_notice = none;
  pending = [];
}

abbrev pub no_events : Fold
no_events = record {
  histories = [];
  runs = [];
  texts = [];
  closed = [];
  handled = [];
  failures = [];
  pending = [];
}
