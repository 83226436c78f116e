-- ===== src/ShellReads/Guards.antt =====
-- core/shell_reads.py: the programs, flags and paths that a shell read may name.
use Prim.Native.Char.{Char, code}
use Prim.Native.String.{String, [], ◌∷◌}
use mathlib.Core.List.{[] as []ᴸ, ◌∷◌ as ◌∷ᴸ◌}
use kinby.Common.{
  Bool, true, false, not, ◌&&◌, ◌||◌, Option, none, some, ◌==◌, nat_eq, string_eq, if◌then◌else◌,
  List, ◌++◌, any, all, map,
}
use kinby.Common.Keyed.{Dict, get}
use kinby.Common.Slices.{chars, is, drop_text, starts_with, contains, any_char, split_on}
use kinby.ShellReads.Lexer.{Classes}
use kinby.ShellReads.Words.{commands_of}

-- The files as `pathlib` and `glob` find them.
pub record Files {ℓ} (FilePath : Type ℓ) : Type ℓ where
  -- directory / name
  pub join : FilePath → String → FilePath
  -- path.resolve()
  pub resolve : FilePath → FilePath
  -- the paths of glob(str(path))
  pub glob : FilePath → List FilePath
  -- path.is_relative_to(root)
  pub is_relative_to : FilePath → FilePath → Bool

unfoldable pub one_of : List String → String → Bool
one_of []ᴸ s = false
one_of (x ∷ᴸ xs) s = x == s || one_of xs s

abbrev pub programs : List String
programs =
    "cd" ∷ᴸ "pwd" ∷ᴸ "ls" ∷ᴸ "cat" ∷ᴸ "head" ∷ᴸ "tail" ∷ᴸ "wc" ∷ᴸ "grep" ∷ᴸ "find" ∷ᴸ "stat"
    ∷ᴸ "file" ∷ᴸ "du" ∷ᴸ "tree" ∷ᴸ "diff" ∷ᴸ "cut" ∷ᴸ "tr" ∷ᴸ "sort" ∷ᴸ "echo" ∷ᴸ "printf" ∷ᴸ "date"
    ∷ᴸ "basename" ∷ᴸ "dirname" ∷ᴸ "realpath" ∷ᴸ "jq" ∷ᴸ "bc" ∷ᴸ "expr" ∷ᴸ "true" ∷ᴸ []ᴸ

abbrev find_unsafe : List String
find_unsafe =
    "-exec" ∷ᴸ "-execdir" ∷ᴸ "-ok" ∷ᴸ "-okdir" ∷ᴸ "-delete" ∷ᴸ "-fprint" ∷ᴸ "-fprint0" ∷ᴸ "-fprintf"
    ∷ᴸ "-fls" ∷ᴸ "-L" ∷ᴸ "-follow" ∷ᴸ []ᴸ

abbrev unsafe_flags : Dict String (String × List String)
unsafe_flags =
    ("sort", ("o", "--o" ∷ᴸ "--co" ∷ᴸ "--fi" ∷ᴸ []ᴸ))
    ∷ᴸ ("tree", ("oRl", "--o" ∷ᴸ []ᴸ))
    ∷ᴸ ("date", ("s", "--s" ∷ᴸ []ᴸ))
    ∷ᴸ ("file", ("C", "--co" ∷ᴸ []ᴸ))
    ∷ᴸ ("grep", ("R", "--de" ∷ᴸ []ᴸ))
    ∷ᴸ ("ls", ("L", "--de" ∷ᴸ []ᴸ))
    ∷ᴸ ("du", ("L", "--de" ∷ᴸ []ᴸ))
    ∷ᴸ ("diff", ("r", "--rec" ∷ᴸ []ᴸ))
    ∷ᴸ ("jq", ("f", "--f" ∷ᴸ []ᴸ))
    ∷ᴸ []ᴸ

-- _UNSAFE_FLAGS.get(program, ("", ()))
abbrev flags_of : String → String × List String
flags_of program = elim (get program unsafe_flags) [ none ↦ ("", []ᴸ) | some flags ↦ flags ]

unfoldable pub unsafe : String → String → Bool
unfolding one_of get starts_with any_char drop_text
unsafe program argument =
    let flags = flags_of program in
    if program == "find"
    then one_of find_unsafe argument
    else if starts_with argument "--"
    then any (starts_with argument) (flags.1)
    else starts_with argument "-"
      && any_char (λ letter. any_char (is (code letter)) (drop_text 1 argument)) (flags.0)

abbrev is_word_last : (Char → Bool) → Option Char → Bool
is_word_last is_word none = false
is_word_last is_word (some c) = is_word c

abbrev is_word_first : (Char → Bool) → String → Bool
is_word_first is_word [] = false
is_word_first is_word (c ∷ _) = is_word c

abbrev differ : Bool → Bool → Bool
differ left right = left && not right || not left && right

-- Python's `\b` between two characters, or at an end of the text.
abbrev is_boundary : (Char → Bool) → Option Char → String → Bool
is_boundary is_word before s = differ (is_word_last is_word before) (is_word_first is_word s)

-- The keyword stands here, with `\b` at both its ends; its last character is `last`.
abbrev stands_here : (Char → Bool) → Option Char → String → String × Char → Bool
stands_here is_word before s (keyword, last) =
    is_boundary is_word before s
    && starts_with s keyword
    && is_boundary is_word (some last) (drop_text (chars keyword) s)

-- `re.search(r"\b(env|include|import)\b", s)`, after the character `before`
unfoldable names_module : (Char → Bool) → Option Char → String → Bool
unfolding starts_with drop_text
names_module is_word before [] = false
names_module is_word before (c ∷ s) =
    any (stands_here is_word before (c ∷ s))
      (("env", "v") ∷ᴸ ("include", "e") ∷ᴸ ("import", "t") ∷ᴸ []ᴸ)
    || names_module is_word (some c) s

-- `argument.partition("=")[2]`
unfoldable after_equals : String → String
after_equals [] = []
after_equals (c ∷ s) = let later = after_equals s in if is b'=' c then s else later

abbrev is_led : List String → Bool
is_led (argument ∷ᴸ []ᴸ) = starts_with argument "/" || starts_with argument "."
is_led _ = false

module _ {ℓ} {FilePath : Type ℓ} (files : Files FilePath) where
  -- `glob(str(path)) or [path]`
  unfoldable pub targets : FilePath → String → List FilePath
  targets directory name =
      let path = files.join directory name in
      elim (files.glob path) [ []ᴸ ↦ path ∷ᴸ []ᴸ | first ∷ᴸ rest ↦ first ∷ᴸ rest ]

  abbrev resolves_inside : FilePath → FilePath → Bool
  resolves_inside root each = files.is_relative_to (files.resolve each) root

  -- A part that starts with a dot and holds a glob's character.
  abbrev is_dotted_glob : String → Bool
  is_dotted_glob part =
      starts_with part "." && any_char (λ c. is b'*' c || is b'?' c || is b'[' c) part

  -- `_inside`
  unfoldable pub inside : String → List FilePath → FilePath → Bool
  unfolding starts_with any_char split_on targets
  inside name directories root =
      not (any is_dotted_glob (split_on b'/' name))
      && all (λ directory. all (resolves_inside root) (targets directory name)) directories

  -- What is glued to a flag.
  abbrev glued : String → String
  glued argument = if starts_with argument "--" then after_equals argument else drop_text 2 argument

  -- `_confined`
  unfoldable pub confined : String → List FilePath → FilePath → Bool
  unfolding starts_with contains after_equals drop_text inside
  confined argument directories root =
      if starts_with argument "~" || contains "=~" argument || contains ":~" argument
      then false
      else if not (starts_with argument "-")
      then inside argument directories root
      else if contains "/" argument
      then false
      else glued argument == "" || inside (glued argument) directories root

  -- `directories |= {...}` after a cd
  abbrev pub after_cd : String → List String → List FilePath → List FilePath
  after_cd program []ᴸ directories = directories
  after_cd program (argument ∷ᴸ _) directories =
      if program == "cd"
      then directories ++ map (λ each. files.resolve (files.join each argument)) directories
      else directories

  module _ (classes : Classes) where
    -- The `match` that ends `_reads`.
    unfoldable pub suits : String → List String → Bool
    unfolding starts_with names_module
    suits program arguments =
        if program == "cd"
        then is_led arguments
        else if program == "jq"
        then not (any (names_module classes.is_word none) arguments)
        else true

    -- `_reads`
    unfoldable pub reads : String → List String → List FilePath → FilePath → Bool
    unfolding one_of unsafe confined suits
    reads program arguments directories root =
        one_of programs program
        && not (any (unsafe program) arguments)
        && all (λ each. confined each directories root) arguments
        && suits program arguments

    -- The loop of `is_shell_read`. `_commands` gives no command without a word.
    unfoldable pub each_reads : List (List String) → List FilePath → FilePath → Bool
    unfolding reads
    each_reads []ᴸ directories root = true
    each_reads ([]ᴸ ∷ᴸ commands) directories root = false
    each_reads ((program ∷ᴸ arguments) ∷ᴸ commands) directories root =
        reads program arguments directories root
        && each_reads commands (after_cd program arguments directories) root

    -- `is_shell_read` once its command is cut.
    abbrev pub all_read : Option (List (List String)) → FilePath → Bool
    all_read none root = false
    all_read (some []ᴸ) root = false
    all_read (some (leading ∷ᴸ others)) root = each_reads (leading ∷ᴸ others) (root ∷ᴸ []ᴸ) root

    unfoldable pub is_shell_read : String → FilePath → Bool
    unfolding commands_of each_reads
    is_shell_read command workspace =
        all_read (commands_of classes command) (files.resolve workspace)
