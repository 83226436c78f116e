-- ===== src/ShellReads/Lexer.antt =====
-- core/shell_reads.py: the tokens of a command, as `_TOKEN` cuts them. The expression never has
-- to go back into a token it has matched, so each alternative is a length, 0 for no match.
use Prim.Native.Char.{Char}
use Prim.Native.String.{String, [], ◌∷◌}
use kinby.Common.{
  ℕ, zero, suc, min, ◌+◌, Bool, true, false, not, ◌&&◌, ◌||◌, Option, none, some, ◌==◌, nat_eq,
  if◌then◌else◌,
}
use kinby.Common.Slices.{is, drop_text, length_while}

-- The character classes of Python's `re` that the module's expressions name.
pub record Classes : Type 0 where
  -- \s
  pub is_space : Char → Bool
  -- \d
  pub is_digit : Char → Bool
  -- \w
  pub is_word : Char → Bool

pub data TokenKind : Type 0 where
  space separator redirect word : TokenKind

-- `(?<space>[ \t]+)`
abbrev pub is_blank : Char → Bool
is_blank c = is b' ' c || is b'\t' c

-- `\|\||&&|[|;\n]`
unfoldable pub separator_length : String → ℕ
separator_length [] = 0
separator_length (c ∷ []) = if is b'|' c || is b';' c || is b'\n' c then 1 else 0
separator_length (c ∷ d ∷ _) =
    if is b'|' c && is b'|' d || is b'&' c && is b'&' d
    then 2
    else if is b'|' c || is b';' c || is b'\n' c
    then 1
    else 0

module _ (classes : Classes) where
  -- `(?:\d+|&)?`
  abbrev prefix_length : String → ℕ
  prefix_length [] = 0
  prefix_length (c ∷ s) = if is b'&' c then 1 else length_while classes.is_digit (c ∷ s)

  -- `(?![^\s|;&])`
  abbrev ends_copy : String → Bool
  ends_copy [] = true
  ends_copy (c ∷ _) = classes.is_space c || is b'|' c || is b';' c || is b'&' c

  -- `(?:&\d+(?![^\s|;&]))?`
  abbrev copy_length : String → ℕ
  copy_length [] = 0
  copy_length (c ∷ s) =
      let digits = length_while classes.is_digit s in
      if is b'&' c && not (digits == 0) && ends_copy (drop_text digits s) then suc digits else 0

  -- `(?:\d+|&)?>>?(?:&\d+(?![^\s|;&]))?`
  unfoldable pub redirect_length : String → ℕ
  unfolding length_while drop_text
  redirect_length s =
      let before = prefix_length s in
      let arrows = min 2 (length_while (is b'>') (drop_text before s)) in
      if arrows == 0 then 0 else before + arrows + copy_length (drop_text (before + arrows) s)

-- From just after an opening quote, at which `n` characters are behind: where the first closing
-- quote ends, which is the end of `'[^']*'`. 0 where there is none.
unfoldable pub single_end : ℕ → String → ℕ
single_end n [] = 0
single_end n (c ∷ s) = let later = single_end (suc n) s in if is b'\'' c then suc n else later

-- `"(?:[^"\\]|\\.)*"` in the same way; the test says that the character is escaped.
unfoldable pub double_end : Bool → ℕ → String → ℕ
double_end escaped n [] = 0
double_end true n (c ∷ s) = double_end false (suc n) s
double_end false n (c ∷ s) =
    let later = double_end (is b'\\' c) (suc n) s in if is b'"' c then suc n else later

module _ (classes : Classes) where
  -- `[^\s|;&<>'"\\]`
  abbrev is_plain : Char → Bool
  is_plain c = not (
      classes.is_space c
      || is b'|' c
      || is b';' c
      || is b'&' c
      || is b'<' c
      || is b'>' c
      || is b'\'' c
      || is b'"' c
      || is b'\\' c)

  -- One round of the word's group.
  unfoldable pub piece_length : String → ℕ
  unfolding single_end double_end
  piece_length [] = 0
  piece_length (c ∷ s) =
      if is b'\'' c
      then single_end 1 s
      else if is b'"' c
      then double_end false 1 s
      else if is b'\\' c
      then elim s [ [] ↦ 0 | _ ∷ _ ↦ 2 ]
      else if is_plain c
      then 1
      else 0

  -- The pieces of a word one after the other, of which the first so many characters are behind.
  unfoldable pub word_length : ℕ → String → ℕ
  word_length skip [] = 0
  word_length (suc k) (c ∷ s) = suc (word_length k s)
  word_length zero (c ∷ s) = elim (piece_length (c ∷ s)) [
    | zero ↦ 0
    | suc k ↦ suc (word_length k s)
  ]

  -- `_TOKEN.match`: the kind of the token that the text starts with, and its length.
  unfoldable pub match_token : String → Option (TokenKind × ℕ)
  unfolding length_while separator_length redirect_length piece_length word_length
  match_token s =
      let blanks = length_while is_blank s in
      let joins = separator_length s in
      let output = redirect_length classes s in
      let letters = word_length 0 s in
      if not (blanks == 0)
      then some (space, blanks)
      else if not (joins == 0)
      then some (separator, joins)
      else if not (output == 0)
      then some (redirect, output)
      else if letters == 0
      then none
      else some (word, letters)
