-- ===== src/Steps/Listing.antt =====
-- core/steps.py: the commands that a command step's entries stand for, written out by the lists of
-- repository commands that its instance holds.
use kinby.Common.{
  String, Bool, true, false, Option, none, some, List, [], ◌∷◌, ◌++◌, all, ◌≡◌, refl, arith,
  string_eq,
}
use kinby.Common.Keyed.{Dict, get}
use mathlib.Core.Path.{subst}
use kinby.Steps.Results.{CommandEntry, written, listed, CommandStepRun}
use kinby.Steps.Commands.{
  Repository, unreadable, lists, Expanded, expands, ends, in_front, listed_in, is_written, expand,
  expand_by, commands_of,
}

-- The entries, with each command in its place and each list that they name in the place of its
-- name, come to these commands. A list that is not held has none.
pub data WrittenOut (held : Dict String (List String))
    : List CommandEntry → List String → Type 0 where
  nothing : WrittenOut held [] []
  command :
      {entries : List CommandEntry} {lines : List String} (line : String)
      → WrittenOut held entries lines
      → WrittenOut held (written line ∷ entries) (line ∷ lines)
  listing :
      {entries : List CommandEntry} {lines : List String} (name : String) (found : List String)
      → get name held ≡ some found
      → WrittenOut held entries lines
      → WrittenOut held (listed name ∷ entries) (found ++ lines)

-- The lists that can be read: none of them, where the instance's manifest cannot.
abbrev pub held_of : Repository → Dict String (List String)
held_of (unreadable reason) = []
held_of (lists held) = held

module _ (held : Dict String (List String)) where
  WrittenOut-expand :
      (entries : List CommandEntry) (lines : List String)
      → WrittenOut held entries lines
      → expand held entries ≡ expands lines
  unfolding expand
  WrittenOut-expand [] _ nothing = refl
  WrittenOut-expand (written _ ∷ entries) _ (command line rest) =
      rw (WrittenOut-expand entries _ rest) refl
  WrittenOut-expand (listed _ ∷ entries) _ (listing name found e rest) =
      rw (e, WrittenOut-expand entries _ rest) refl

  -- Commands, if there are any, are those that the entries come to.
  Comes : List CommandEntry → Expanded → Type 0
  Comes entries (expands lines) = WrittenOut held entries lines
  Comes entries (ends result) = Unit

  written-Comes :
      (line : String) (entries : List CommandEntry) (rest : Expanded)
      → Comes entries rest
      → Comes (written line ∷ entries) (in_front (line ∷ []) rest)
  unfolding Comes
  written-Comes line entries (expands lines) w = command line w
  written-Comes line entries (ends result) w = tt

  listed-Comes :
      (name : String) (entries : List CommandEntry) (rest : Expanded) (found : Option (List String))
      → get name held ≡ found
      → Comes entries rest
      → Comes (listed name ∷ entries) (listed_in found name rest)
  unfolding Comes
  listed-Comes name entries rest none e w = tt
  listed-Comes name entries (expands lines) (some found) e w = listing name found e w
  listed-Comes name entries (ends result) (some found) e w = tt

  expand-Comes : (entries : List CommandEntry) → Comes entries (expand held entries)
  unfolding Comes expand
  expand-Comes [] = nothing
  expand-Comes (written line ∷ entries) =
      written-Comes line entries (expand held entries) (expand-Comes entries)
  expand-Comes (listed name ∷ entries) =
      listed-Comes name entries (expand held entries) (get name held) refl (expand-Comes entries)

-- Where no list is named, it does not matter which are held.
WrittenOut-held :
    (held other : Dict String (List String)) (entries : List CommandEntry) (lines : List String)
    → all is_written entries ≡ true
    → WrittenOut held entries lines
    → WrittenOut other entries lines
WrittenOut-held held other [] _ h nothing = nothing
WrittenOut-held held other (written _ ∷ entries) _ h (command line rest) =
    command line (WrittenOut-held held other entries _ h rest)
WrittenOut-held held other (listed _ ∷ entries) _ h (listing name found e rest) =
    absurd (ground (arith, h))

module _ (step : CommandStepRun) where
  -- Commands, if there are any, are those that the step's entries come to.
  AreLines : Repository → Expanded → Type 0
  AreLines repository (expands lines) = WrittenOut (held_of repository) step.run lines
  AreLines repository (ends result) = Unit

  Comes-AreLines :
      (held : Dict String (List String)) (repository : Repository) (expanded : Expanded)
      → ((lines : List String)
          → WrittenOut held step.run lines
          → WrittenOut (held_of repository) step.run lines)
      → Comes held step.run expanded
      → AreLines repository expanded
  unfolding Comes AreLines
  Comes-AreLines held repository (expands lines) keeps w = keeps lines w
  Comes-AreLines held repository (ends result) keeps w = tt

  expand_by-AreLines :
      (repository : Repository) (is_all : Bool)
      → all is_written step.run ≡ is_all
      → AreLines repository (expand_by is_all repository step.run)
  unfolding AreLines
  expand_by-AreLines repository true e =
      Comes-AreLines [] repository (expand [] step.run)
        (λ lines. WrittenOut-held [] (held_of repository) step.run lines e)
        (expand-Comes [] step.run)
  expand_by-AreLines (unreadable reason) false e = tt
  expand_by-AreLines (lists held) false e =
      Comes-AreLines held (lists held) (expand held step.run) (λ lines w. w)
        (expand-Comes held step.run)

  AreLines-expands :
      (repository : Repository) (lines : List String)
      → AreLines repository (expands lines)
      → WrittenOut (held_of repository) step.run lines
  unfolding AreLines
  AreLines-expands repository lines w = w

  -- The commands that `_commands` gives are those written out.
  pub commands_of-WrittenOut :
      (repository : Repository) (lines : List String)
      → commands_of step repository ≡ expands lines
      → WrittenOut (held_of repository) step.run lines
  unfolding commands_of
  commands_of-WrittenOut repository lines e =
      AreLines-expands repository lines (
        subst (AreLines repository) e
          (expand_by-AreLines repository (all is_written step.run) refl))

  -- An entry that names a list has none where no list is held.
  WrittenOut-none :
      (entries : List CommandEntry) (lines : List String)
      → WrittenOut [] entries lines
      → all is_written entries ≡ true
  unfolding get
  WrittenOut-none [] _ nothing = refl
  WrittenOut-none (written _ ∷ entries) _ (command line rest) = WrittenOut-none entries _ rest
  WrittenOut-none (listed _ ∷ entries) _ (listing name found e rest) = absurd (ground (arith, e))

  WrittenOut-expand_by :
      (repository : Repository) (lines : List String) (is_all : Bool)
      → all is_written step.run ≡ is_all
      → WrittenOut (held_of repository) step.run lines
      → expand_by is_all repository step.run ≡ expands lines
  WrittenOut-expand_by repository lines true e w =
      WrittenOut-expand [] step.run lines
        (WrittenOut-held (held_of repository) [] step.run lines e w)
  WrittenOut-expand_by (unreadable reason) lines false e w =
      absurd (ground (arith, e, WrittenOut-none step.run lines w))
  WrittenOut-expand_by (lists held) lines false e w = WrittenOut-expand held step.run lines w

  pub WrittenOut-commands_of :
      (repository : Repository) (lines : List String)
      → WrittenOut (held_of repository) step.run lines
      → commands_of step repository ≡ expands lines
  unfolding commands_of
  WrittenOut-commands_of repository lines w =
      WrittenOut-expand_by repository lines (all is_written step.run) refl w
