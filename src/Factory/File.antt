-- ===== src/Factory/File.antt =====
-- factories/file.py: the declarations of a factory. A text that holds `{{name}}` stands here as
-- what `run_value_name` and `_RUN_VALUE.findall` read of it.
use kinby.Common.{ℕ, ◌*◌, String, Option, none, some, List, [], ◌∷◌, ◌++◌, string_eq}
use kinby.Common.Keyed.{Dict}
use kinby.Contracts.Runs.{StepValue}

pub data ValueType : Type 0 where
  str int bool : ValueType

pub record SendBack : Type 0 where
  pub back : String
  pub max : ℕ

pub data Outcome : Type 0 where
  next done stop : Outcome
  send_back : SendBack → Outcome

pub data DurationUnit : Type 0 where
  seconds minutes hours days : DurationUnit

pub record Duration : Type 0 where
  pub count : ℕ
  pub unit : DurationUnit

abbrev unit_seconds : DurationUnit → ℕ
unit_seconds seconds = 1
unit_seconds minutes = 60
unit_seconds hours = 3600
unit_seconds days = 86400

unfoldable pub duration_seconds : Duration → ℕ
duration_seconds duration = duration.count * unit_seconds duration.unit

-- A value of a wait's filter: a literal, or `{{name}}`.
pub data Expected : Type 0 where
  literal : StepValue → Expected
  named : String → Expected

-- One filter: the signal's fields, each by its path, with the value it must have.
abbrev pub SignalFilter : Type 0
SignalFilter = Dict String Expected

-- A part of a command: plain text, or `{{name}}`.
pub data Part : Type 0 where
  chars : String → Part
  value : String → Part

-- An entry of a command step: a command, or the instance's list of commands by this name.
pub data Entry : Type 0 where
  command : List Part → Entry
  repository : String → Entry

pub record ClientDeclaration : Type 0 where
  pub instance_name : String
  pub client : String
  pub prompt : String
  pub hook : String
  pub resume : Option String
  pub model : Option String
  pub effort : Option String
  pub branch : Option String

-- What each kind of step declares beside the fields of every step.
pub data Kind : Type 0 where
  agent : String → String → String → Kind
  client : ClientDeclaration → Kind
  command : String → List Entry → Option String → Option String → Kind
  code : String → String → Kind
  wait : List SignalFilter → Option Duration → Option Duration → Kind
  approve : String → Kind

pub record Step : Type 0 where
  pub id : String
  pub requires : List String
  pub results : Dict String ValueType
  pub outcomes : Dict String Outcome
  pub retry : Option ℕ
  pub failed : Option SendBack
  pub timeout : Option Duration
  pub kind : Kind

-- The needs_human or the ended call.
pub record RunCall : Type 0 where
  pub instance_name : String
  pub call : String

pub record Intake : Type 0 where
  pub instance_name : String
  pub routine : String

pub record Closing : Type 0 where
  pub done : List SignalFilter
  pub cancelled : List SignalFilter

pub record FactoryFile : Type 0 where
  pub name : String
  pub intake : Intake
  pub work_item : Dict String ValueType
  pub steps : List Step
  pub done_requires : List String
  pub needs_human : Option RunCall
  pub ended : Option RunCall
  pub closing : Closing

abbrev pub failure : String
failure = "failure"

abbrev pub quiet : String
quiet = "quiet"

pub names_of_parts : List Part → List String
names_of_parts [] = []
names_of_parts (chars _ ∷ parts) = names_of_parts parts
names_of_parts (value name ∷ parts) = name ∷ names_of_parts parts

pub names_of_entries : List Entry → List String
names_of_entries [] = []
names_of_entries (command parts ∷ entries) = names_of_parts parts ++ names_of_entries entries
names_of_entries (repository _ ∷ entries) = names_of_entries entries

abbrev pub option_list : Option String → List String
option_list none = []
option_list (some name) = name ∷ []

-- The run values that a step's commands and branch name.
unfoldable pub run_value_names : Kind → List String
unfolding names_of_parts names_of_entries
run_value_names (command _ run _ branch) = names_of_entries run ++ option_list branch
run_value_names (client declared) = option_list declared.branch
run_value_names _ = []
