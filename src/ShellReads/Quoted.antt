-- ===== src/ShellReads/Quoted.antt =====
-- core/shell_reads.py: commands whose words stand in single quotes, and the texts they make.
use Prim.Native.Char.{Char}
use Prim.Native.String.{[], ◌∷◌}
use mathlib.Core.List.{[] as []ᴸ, ◌∷◌ as ◌∷ᴸ◌, ◌++◌}
use kinby.Common.{
  ℕ, suc, ◌+◌, ◌-◌, Bool, true, false, not, ◌||◌, some, nat_eq, String, List, ◌≡◌, refl, ap, ◌∙◌,
  arith, keep, all,
}
use kinby.Common.Slices.{append, chars, is, any_char, take_text, length_while, starts_with}
use kinby.ShellReads.Lexer.{word, is_blank, single_end}
use kinby.ShellReads.Words.{
  Reader, take_token, unquoted, unquoted_from, is_command, is_unsupported, part_at,
}

-- The commands written with every word in single quotes and followed by a space, and every
-- command followed by `;`.
unfoldable pub write_words : List String → String → String
write_words []ᴸ after = after
write_words (w ∷ᴸ words) after = "'" ∷ append w ("'" ∷ " " ∷ write_words words after)

unfoldable pub write_commands : List (List String) → String
unfolding write_words
write_commands []ᴸ = []
write_commands (words ∷ᴸ commands) = write_words words (";" ∷ write_commands commands)

-- Whether single quotes can hold the word: it has no single quote, nor an unsupported character.
abbrev pub fits_quotes : String → Bool
fits_quotes w = not (any_char (λ c. is b'\'' c || is_unsupported c) w)

single_end-append :
    (w s : String) (n : ℕ)
    → fits_quotes w ≡ true
    → single_end n (append w ("'" ∷ s)) ≡ suc (n + chars w)
unfolding single_end any_char
single_end-append [] s n h = ground arith
single_end-append (c ∷ w) s n h = ground (arith, single_end-append w s (suc n))

pub take_text-quoted :
    (w s : String) → take_text (suc (chars w)) (append w ("'" ∷ s)) ≡ append w ("'" ∷ [])
unfolding take_text
take_text-quoted [] s = refl
take_text-quoted (c ∷ w) s = ap (λ t. c ∷ t) (take_text-quoted w s)

take_text-append : (w s : String) → take_text (chars w) (append w s) ≡ w
unfolding take_text
take_text-append [] s = refl
take_text-append (c ∷ w) s = ap (λ t. c ∷ t) (take_text-append w s)

unquoted_from-skip :
    (w s : String) (c : Char) → unquoted_from (suc (chars w)) (append w (c ∷ s)) ≡ unquoted_from 0 s
unfolding unquoted_from
unquoted_from-skip [] s c = refl
unquoted_from-skip (_ ∷ w) s c = unquoted_from-skip w s c

pub single_end-one :
    (w s : String) → fits_quotes w ≡ true → single_end 1 (append w ("'" ∷ s)) ≡ suc (suc (chars w))
single_end-one w s h = single_end-append w s 1 h ∙ omega arith

pub pred_suc : (n : ℕ) → suc n - 1 ≡ n
pred_suc n = omega arith

append-nil : (w : String) → append w [] ≡ w
append-nil [] = refl
append-nil (c ∷ w) = ap (λ t. c ∷ t) (append-nil w)

-- `_unquoted` undoes single quotes.
pub unquoted-quoted : (w : String) → fits_quotes w ≡ true → unquoted ("'" ∷ append w ("'" ∷ [])) ≡ w
unfolding unquoted unquoted_from
unquoted-quoted w h =
    rw (single_end-one w [] h, unquoted, unquoted_from, part_at)
      (rw
        (
          pred_suc (chars w),
          pred_suc (suc (chars w)),
          take_text-append w ("'" ∷ []),
          unquoted_from-skip w [] "'",
        )
        (append-nil w))

pub take_token-word :
    (text w : String) (reader : Reader)
    → unquoted text ≡ w
    → starts_with text "#" ≡ false
    → reader.awaiting_target ≡ false
    → take_token word text reader ≡ some (record reader { words = reader.words ++ w ∷ᴸ []ᴸ })
unfolding take_token
take_token-word text w reader e no_hash ready = rw (ready, no_hash, e) refl

abbrev pub reading : List (List String) → Reader
reading done = record { commands = done; words = []ᴸ; awaiting_target = false }

pub length_while-write_words :
    (words : List String) (after : String)
    → length_while is_blank (write_words words (";" ∷ after)) ≡ 0
unfolding write_words length_while
length_while-write_words []ᴸ after = refl
length_while-write_words (w ∷ᴸ words) after = refl

any_char-append :
    (p : Char → Bool) (w s : String) → any_char p (append w s) ≡ (any_char p w || any_char p s)
unfolding any_char
any_char-append p [] s = refl
any_char-append p (c ∷ w) s = ground (arith, any_char-append p w s)

fits_quotes-supported : (w : String) → fits_quotes w ≡ true → any_char is_unsupported w ≡ false
unfolding any_char
fits_quotes-supported [] h = refl
fits_quotes-supported (c ∷ w) h = ground (arith, fits_quotes-supported w)

any_char-write_words :
    (words : List String) (after : String)
    → all fits_quotes words ≡ true
    → any_char is_unsupported after ≡ false
    → any_char is_unsupported (write_words words after) ≡ false
unfolding write_words any_char
any_char-write_words []ᴸ after h e = e
any_char-write_words (w ∷ᴸ words) after h e =
    any_char-append is_unsupported w ("'" ∷ " " ∷ write_words words after)
    ∙ ground (arith, fits_quotes-supported w, any_char-write_words words after)

pub any_char-write_commands :
    (commands : List (List String))
    → all (all fits_quotes) commands ≡ true
    → any_char is_unsupported (write_commands commands) ≡ false
unfolding write_commands any_char
any_char-write_commands []ᴸ h = refl
any_char-write_commands (words ∷ᴸ commands) h =
    any_char-write_words words (";" ∷ write_commands commands) (ground arith)
      (any_char-write_commands commands (ground arith))

pub keep-is_command :
    (commands : List (List String))
    → all is_command commands ≡ true
    → keep is_command (commands ++ []ᴸ ∷ᴸ []ᴸ) ≡ commands
keep-is_command []ᴸ h = refl
keep-is_command (words ∷ᴸ commands) h = ground (arith, keep-is_command commands)
