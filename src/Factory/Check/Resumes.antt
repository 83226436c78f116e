-- ===== src/Factory/Check/Resumes.antt =====
-- factories/check.py, `_resumes`: a client step only resumes the session of an earlier step of its
-- instance and client.
use kinby.Common.{
  String, Bool, false, ◌&&◌, Option, none, some, List, [], ◌∷◌, ◌++◌, ◌==◌, string_eq, any,
  if◌then◌else◌,
}
use kinby.Common.Text.{text}
use kinby.Factory.File.{ClientDeclaration, Kind, client, Step, FactoryFile}

-- Whether the step is a client step of this id, in the same instance and with the same client.
abbrev pub kind_continues : ClientDeclaration → Kind → Bool
kind_continues asked (client declared) =
    declared.instance_name == asked.instance_name && declared.client == asked.client
kind_continues asked _ = false

abbrev pub continues : ClientDeclaration → String → Step → Bool
continues asked resume earlier = earlier.id == resume && kind_continues asked earlier.kind

abbrev pub resumes_step : List Step → Step → ClientDeclaration → Option String → List String
resumes_step earlier step asked none = []
resumes_step earlier step asked (some resume) =
    if any (continues asked resume) earlier
    then []
    else text (
        "Step \"" ∷ step.id ∷ "\" resumes \"" ∷ resume ∷ "\", which is not an earlier "
        ∷ asked.client ∷ " step in instance \"" ∷ asked.instance_name ∷ "\"." ∷ [])
      ∷ []

abbrev pub resumes_kind : List Step → Step → Kind → List String
resumes_kind earlier step (client declared) = resumes_step earlier step declared declared.resume
resumes_kind earlier step _ = []

unfoldable pub resumes_from : List Step → List Step → List String
unfolding text
resumes_from earlier [] = []
resumes_from earlier (step ∷ steps) =
    resumes_kind earlier step step.kind ++ resumes_from (step ∷ earlier) steps

-- `_resumes`: the problems found.
unfoldable pub resumes : FactoryFile → List String
unfolding resumes_from
resumes factory = resumes_from [] factory.steps
