-- ===== src/ShellReads/Words.antt =====
-- core/shell_reads.py: a word as bash hands it to a program, and the simple commands of a text.
use Prim.Native.Char.{Char}
use Prim.Native.String.{String, [], ◌∷◌}
use mathlib.Core.List.{[] as []ᴸ, ◌∷◌ as ◌∷ᴸ◌}
use kinby.Common.{
  ℕ, zero, suc, ◌-◌, Bool, true, false, not, ◌||◌, Option, none, some, ◌==◌, nat_eq, string_eq,
  if◌then◌else◌, List, ◌++◌, keep,
}
use kinby.Common.Slices.{append, is, take_text, starts_with, any_char, length_while, drop_text}
use kinby.ShellReads.Lexer.{
  Classes, TokenKind, space, separator, redirect, word, match_token, single_end, double_end,
}

-- `_DOUBLE_QUOTED_ESCAPE.sub(_escaped, double)`; the test says that a backslash stands just
-- before and is not yet written.
unfoldable unescape : Bool → String → String
unescape true [] = "\\"
unescape false [] = []
unescape false (c ∷ s) =
    let after = unescape (is b'\\' c) s in if is b'\\' c then after else c ∷ after
unescape true (c ∷ s) =
    let after = unescape false s in
    if is b'\n' c then after else if is b'\\' c || is b'"' c then c ∷ after else "\\" ∷ c ∷ after

-- What one match of `_WORD_PART` adds, and its length; a run of plain characters is taken one
-- character at a time. none where no alternative matches.
unfoldable pub part_at : String → Option (ℕ × String)
unfolding unescape single_end double_end take_text
part_at [] = none
part_at (c ∷ s) =
    if is b'\'' c
    then elim (single_end 1 s) [ zero ↦ none | suc n ↦ some (suc n, take_text (n - 1) s) ]
    else if is b'"' c
    then elim (double_end false 1 s) [
      | zero ↦ none
      | suc n ↦ some (suc n, unescape false (take_text (n - 1) s))
    ]
    else if is b'\\' c
    then elim s [ [] ↦ none | d ∷ _ ↦ some (2, if is b'\n' d then [] else d ∷ []) ]
    else some (1, c ∷ [])

-- `_WORD_PART.findall`, of which the first so many characters are behind: it goes on by one
-- character where nothing matches.
unfoldable pub unquoted_from : ℕ → String → String
unfolding part_at
unquoted_from skip [] = []
unquoted_from (suc k) (c ∷ s) = unquoted_from k s
unquoted_from zero (c ∷ s) = elim (part_at (c ∷ s)) [
  | none ↦ unquoted_from zero s
  | some (n, part) ↦ append part (unquoted_from (n - 1) s)
]

unfoldable pub unquoted : String → String
unfolding unquoted_from
unquoted token = unquoted_from 0 token

-- The variables of `_commands`' loop; `words` is the last of its commands.
pub record Reader : Type 0 where
  pub commands : List (List String)
  pub words : List String
  pub awaiting_target : Bool

-- `"&" not in text.lstrip("&")`
abbrev awaits_target : String → Bool
awaits_target text = not (any_char (is b'&') (drop_text (length_while (is b'&') text) text))

-- The body of the loop for one token; none is `return None`.
unfoldable pub take_token : TokenKind → String → Reader → Option Reader
unfolding unquoted starts_with any_char length_while drop_text
take_token space text reader = some reader
take_token separator text reader =
    if reader.awaiting_target
    then none
    else some (record {
      commands = reader.commands ++ reader.words ∷ᴸ []ᴸ;
      words = []ᴸ;
      awaiting_target = false;
    })
take_token redirect text reader =
    if reader.awaiting_target
    then none
    else some (record reader { awaiting_target = awaits_target text })
take_token word text reader =
    if reader.awaiting_target
    then if unquoted text == "/dev/null"
      then some (record reader { awaiting_target = false })
      else none
    else if starts_with text "#"
    then none
    else some (record reader { words = reader.words ++ unquoted text ∷ᴸ []ᴸ })

-- The loop from a position, of which the first so many characters belong to the last token.
unfoldable pub read_tokens : Classes → ℕ → String → Reader → Option Reader
unfolding match_token take_token take_text
read_tokens classes skip [] reader = some reader
read_tokens classes (suc k) (c ∷ s) reader = read_tokens classes k s reader
read_tokens classes zero (c ∷ s) reader = elim (match_token classes (c ∷ s)) [
  | none ↦ none
  | some (kind, n) ↦ elim (take_token kind (take_text n (c ∷ s)) reader) [
    | none ↦ none
    | some next ↦ read_tokens classes (n - 1) s next
  ]
]

-- Whether the character is one of _UNSUPPORTED, `$`, a backquote, or one of `(){}<`.
abbrev pub is_unsupported : Char → Bool
is_unsupported c =
    is b'$' c || is b'`' c || is b'(' c || is b')' c || is b'{' c || is b'}' c || is b'<' c

abbrev pub is_command : List String → Bool
is_command []ᴸ = false
is_command (_ ∷ᴸ _) = true

abbrev pub start : Reader
start = record { commands = []ᴸ; words = []ᴸ; awaiting_target = false }

-- What follows the loop.
unfoldable pub finish_reading : Reader → Option (List (List String))
finish_reading reader =
    if reader.awaiting_target
    then none
    else some (keep is_command (reader.commands ++ reader.words ∷ᴸ []ᴸ))

unfoldable pub commands_of : Classes → String → Option (List (List String))
unfolding read_tokens finish_reading any_char
commands_of classes command =
    if any_char is_unsupported command then none else elim (read_tokens classes 0 command start) [
      | none ↦ none
      | some reader ↦ finish_reading reader
    ]
