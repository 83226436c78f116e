-- ===== src/ShellReads/Recut.antt =====
-- core/shell_reads.py: the tokens of quoted commands, and the commands that they are cut back into.
use Prim.Native.Char.{Char}
use Prim.Native.String.{[], ◌∷◌}
use mathlib.Core.List.{[] as []ᴸ, ◌∷◌ as ◌∷ᴸ◌, ◌++◌}
use mathlib.Core.List.{append_assoc, append-nil as append-nil_list}
use kinby.Common.{
  ℕ, suc, ◌+◌, ◌-◌, true, false, Option, none, some, nat_eq, String, List, ◌≡◌, refl, sym, ap, ◌∙◌,
  arith, all,
}
use kinby.Common.Slices.{append, chars, take_text, length_while, starts_with}
use kinby.ShellReads.Lexer.{
  Classes, TokenKind, space, separator, word, match_token, is_blank, word_length, piece_length,
  separator_length, redirect_length,
}
use kinby.ShellReads.Words.{
  Reader, finish_reading, read_tokens, take_token, commands_of, is_command,
}
use kinby.ShellReads.Quoted.{
  write_words, write_commands, fits_quotes, take_text-quoted, single_end-one, pred_suc,
  unquoted-quoted, take_token-word, reading, length_while-write_words, any_char-write_commands,
  keep-is_command,
}

module _ (classes : Classes) where
  word_length-skip :
      (w s : String) (c : Char)
      → word_length classes (suc (chars w)) (append w (c ∷ s))
        ≡ suc (chars w) + word_length classes 0 s
  unfolding word_length
  word_length-skip [] s c = omega arith
  word_length-skip (_ ∷ w) s c = omega (arith, word_length-skip w s c)

  read_tokens-skip :
      (w s : String) (c : Char) (reader : Reader)
      → read_tokens classes (suc (chars w)) (append w (c ∷ s)) reader
        ≡ read_tokens classes 0 s reader
  unfolding read_tokens
  read_tokens-skip [] s c reader = refl
  read_tokens-skip (_ ∷ w) s c reader = read_tokens-skip w s c reader

  module _ (space_is_space : classes.is_space " " ≡ true)
      (quote_no_digit : classes.is_digit "'" ≡ false) where
    word_length-blank : (s : String) → word_length classes 0 (" " ∷ s) ≡ 0
    unfolding word_length piece_length
    word_length-blank s = rw (space_is_space, word_length, piece_length) refl

    word_length-quoted :
        (w s : String)
        → fits_quotes w ≡ true
        → word_length classes 0 ("'" ∷ append w ("'" ∷ " " ∷ s)) ≡ suc (suc (chars w))
    unfolding word_length piece_length
    word_length-quoted w s h =
        rw (single_end-one w (" " ∷ s) h, word_length, piece_length)
          (ap suc (
            word_length-skip w (" " ∷ s) "'"
            ∙ ap (λ n. suc (chars w) + n) (word_length-blank s)
            ∙ omega arith))

    redirect_length-quoted : (s : String) → redirect_length classes ("'" ∷ s) ≡ 0
    unfolding redirect_length length_while
    redirect_length-quoted s = rw (quote_no_digit) refl

    separator_length-quoted : (s : String) → separator_length ("'" ∷ s) ≡ 0
    unfolding separator_length
    separator_length-quoted [] = refl
    separator_length-quoted (c ∷ s) = refl

    match_token-quoted :
        (w s : String)
        → fits_quotes w ≡ true
        → match_token classes ("'" ∷ append w ("'" ∷ " " ∷ s)) ≡ some (word, suc (suc (chars w)))
    unfolding match_token length_while
    match_token-quoted w s h =
        rw
          (
            separator_length-quoted (append w ("'" ∷ " " ∷ s)),
            redirect_length-quoted (append w ("'" ∷ " " ∷ s)),
            word_length-quoted w s h,
          )
          (ground arith)

    -- One token that is taken.
    read_tokens-step :
        (c : Char) (s : String) (reader next : Reader) (kind : TokenKind) (n : ℕ)
        → match_token classes (c ∷ s) ≡ some (kind, suc n)
        → take_token kind (take_text (suc n) (c ∷ s)) reader ≡ some next
        → read_tokens classes 0 (c ∷ s) reader ≡ read_tokens classes n s next
    unfolding read_tokens
    read_tokens-step c s reader next kind n matched taken =
        ap
          (λ o. elim o as (λ _. Option Reader) [
            | none ↦ none
            | some x ↦
                elim (take_token (x.0) (take_text (x.1) (c ∷ s)) reader) as (λ _. Option Reader) [
                  | none ↦ none
                  | some later ↦ read_tokens classes (x.1 - 1) s later
                ]
          ])
          matched
        ∙ ap
            (λ o. elim o as (λ _. Option Reader) [
              | none ↦ none
              | some later ↦ read_tokens classes (suc n - 1) s later
            ])
            taken
        ∙ ap (λ k. read_tokens classes k s next) (pred_suc n)

    match_token-blank :
        (s : String) → length_while is_blank s ≡ 0 → match_token classes (" " ∷ s) ≡ some (space, 1)
    unfolding match_token length_while
    match_token-blank s h = rw (h) refl

    match_token-end : (s : String) → match_token classes (";" ∷ s) ≡ some (separator, 1)
    unfolding match_token length_while
    match_token-end [] = refl
    match_token-end (c ∷ s) = refl

    read_tokens-quoted :
        (w s : String) (reader : Reader)
        → fits_quotes w ≡ true
        → reader.awaiting_target ≡ false
        → length_while is_blank s ≡ 0
        → read_tokens classes 0 ("'" ∷ append w ("'" ∷ " " ∷ s)) reader
          ≡ read_tokens classes 0 s (record reader { words = reader.words ++ w ∷ᴸ []ᴸ })
    unfolding take_token starts_with
    read_tokens-quoted w s reader h ready next_word =
        let next = (record reader { words = reader.words ++ w ∷ᴸ []ᴸ }) in
        read_tokens-step "'" (append w ("'" ∷ " " ∷ s)) reader next word (suc (chars w))
          (match_token-quoted w s h)
          (ap (λ t. take_token word ("'" ∷ t) reader) (take_text-quoted w (" " ∷ s))
            ∙ take_token-word ("'" ∷ append w ("'" ∷ [])) w reader (unquoted-quoted w h) refl ready)
        ∙ read_tokens-skip w (" " ∷ s) "'" next
        ∙ read_tokens-step " " s next next space 0 (match_token-blank s next_word) refl

    read_tokens-words :
        (words : List String) (after : String) (reader : Reader)
        → all fits_quotes words ≡ true
        → reader.awaiting_target ≡ false
        → read_tokens classes 0 (write_words words (";" ∷ after)) reader
          ≡ read_tokens classes 0 (";" ∷ after) (record reader { words = reader.words ++ words })
    unfolding write_words
    read_tokens-words []ᴸ after reader h ready =
        ap (λ ws. read_tokens classes 0 (";" ∷ after) (record reader { words = ws }))
          (sym (append-nil_list reader.words))
    read_tokens-words (w ∷ᴸ words) after reader h ready =
        read_tokens-quoted w (write_words words (";" ∷ after)) reader (ground arith) ready
          (length_while-write_words words after)
        ∙ read_tokens-words words after (record reader { words = reader.words ++ w ∷ᴸ []ᴸ })
            (ground arith) ready
        ∙ ap (λ ws. read_tokens classes 0 (";" ∷ after) (record reader { words = ws }))
            (append_assoc reader.words (w ∷ᴸ []ᴸ) words)

    read_tokens-commands :
        (commands done : List (List String))
        → all (all fits_quotes) commands ≡ true
        → read_tokens classes 0 (write_commands commands) (reading done)
          ≡ some (reading (done ++ commands))
    unfolding write_commands read_tokens take_token
    read_tokens-commands []ᴸ done h = ap (λ cs. some (reading cs)) (sym (append-nil_list done))
    read_tokens-commands (words ∷ᴸ commands) done h =
        read_tokens-words words (write_commands commands) (reading done) (ground arith) refl
        ∙ read_tokens-step ";" (write_commands commands)
            (record { commands = done; words = words; awaiting_target = false })
            (reading (done ++ words ∷ᴸ []ᴸ)) separator 0 (match_token-end (write_commands commands))
            refl
        ∙ read_tokens-commands commands (done ++ words ∷ᴸ []ᴸ) (ground arith)
        ∙ ap (λ cs. some (reading cs)) (append_assoc done (words ∷ᴸ []ᴸ) commands)

    -- Commands written out, every word in single quotes, are cut back into the same commands,
    -- whatever else than a single quote and the unsupported characters the words hold, provided
    -- every command has a word.
    pub commands_of-write_commands :
        (commands : List (List String))
        → all is_command commands ≡ true
        → all (all fits_quotes) commands ≡ true
        → commands_of classes (write_commands commands) ≡ some commands
    unfolding commands_of finish_reading
    commands_of-write_commands commands h fits =
        rw
          (
            any_char-write_commands commands fits,
            read_tokens-commands commands []ᴸ fits,
            keep-is_command commands h,
          )
          refl
