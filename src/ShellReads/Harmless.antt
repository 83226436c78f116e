-- ===== src/ShellReads/Harmless.antt =====
-- core/shell_reads.py: what an accepted command cannot make its programs do.
use Prim.Native.Char.{Char, code}
use Prim.Native.String.{[] as no_text, ◌∷◌ as ◌∷ᵗ◌}
use kinby.Common.{
  Bool, true, false, some, List, [], ◌∷◌, String, ◌≡◌, refl, In, here, there, arith, ◌==◌,
  string_eq, nat_eq,
}
use kinby.Common.Members.{any-In}
use kinby.Common.Slices.{append, is, starts_with, any_char, drop_text}
use kinby.Common.Keyed.{get}
use kinby.ShellReads.Lexer.{Classes}
use kinby.ShellReads.Words.{commands_of}
use kinby.ShellReads.Guards.{Files, is_shell_read, one_of, unsafe}
use kinby.ShellReads.Confined.{is_shell_read-programs}

-- Short flags written together, this letter among them.
abbrev short : String → String → String → String
short before letter after = append "-" (append before (append letter after))

-- Arguments that, by the manuals of the programs, make them write or delete a file, set the clock
-- or run another program: a primary of `find`, a letter among the short flags of one argument, or a
-- long flag in full, with or without a value.
pub data Acts : String → String → Type 0 where
  find_deletes : Acts "find" "-delete"
  find_runs :
      (flag : String) → In flag ("-exec" ∷ "-execdir" ∷ "-ok" ∷ "-okdir" ∷ []) → Acts "find" flag
  find_writes :
      (flag : String)
      → In flag ("-fprint" ∷ "-fprint0" ∷ "-fprintf" ∷ "-fls" ∷ [])
      → Acts "find" flag
  sort_writes :
      (before after : String)
      → starts_with before "-" ≡ false
      → Acts "sort" (short before "o" after)
  sort_writes_long : (value : String) → Acts "sort" (append "--output" value)
  sort_runs : (value : String) → Acts "sort" (append "--compress-program" value)
  tree_writes :
      (before after : String)
      → starts_with before "-" ≡ false
      → Acts "tree" (short before "o" after)
  date_sets :
      (before after : String)
      → starts_with before "-" ≡ false
      → Acts "date" (short before "s" after)
  date_sets_long : (value : String) → Acts "date" (append "--set" value)
  file_writes :
      (before after : String)
      → starts_with before "-" ≡ false
      → Acts "file" (short before "C" after)
  file_writes_long : (value : String) → Acts "file" (append "--compile" value)

any_char-append :
    (p : Char → Bool) (before : String) (c : Char) (after : String)
    → p c ≡ true
    → any_char p (append before (c ∷ᵗ after)) ≡ true
unfolding any_char
any_char-append p no_text c after h = ground (arith, h)
any_char-append p (b ∷ᵗ before) c after h = ground (arith, any_char-append p before c after h)

starts_with-append :
    (before : String) (c : Char) (after : String)
    → starts_with before "-" ≡ false
    → (code c == 45) ≡ false
    → starts_with (append before (c ∷ᵗ after)) "-" ≡ false
unfolding starts_with
starts_with-append no_text c after h e = ground (arith, e)
starts_with-append (b ∷ᵗ before) c after h e = ground (arith, h)

Acts-unsafe : (program argument : String) → Acts program argument → unsafe program argument ≡ true
unfolding unsafe one_of starts_with any_char drop_text get
Acts-unsafe _ _ find_deletes = refl
Acts-unsafe _ _ (find_runs _ here) = refl
Acts-unsafe _ _ (find_runs _ (there here)) = refl
Acts-unsafe _ _ (find_runs _ (there (there here))) = refl
Acts-unsafe _ _ (find_runs _ (there (there (there here)))) = refl
Acts-unsafe _ _ (find_runs _ (there (there (there (there i))))) = elim i [ ]
Acts-unsafe _ _ (find_writes _ here) = refl
Acts-unsafe _ _ (find_writes _ (there here)) = refl
Acts-unsafe _ _ (find_writes _ (there (there here))) = refl
Acts-unsafe _ _ (find_writes _ (there (there (there here)))) = refl
Acts-unsafe _ _ (find_writes _ (there (there (there (there i))))) = elim i [ ]
Acts-unsafe _ _ (sort_writes before after plain) = ground (
  arith,
  starts_with-append before "o" after plain refl,
  any_char-append (is b'o') before "o" after refl,
)
Acts-unsafe _ _ (sort_writes_long value) = refl
Acts-unsafe _ _ (sort_runs value) = refl
Acts-unsafe _ _ (tree_writes before after plain) = ground (
  arith,
  starts_with-append before "o" after plain refl,
  any_char-append (is b'o') before "o" after refl,
)
Acts-unsafe _ _ (date_sets before after plain) = ground (
  arith,
  starts_with-append before "s" after plain refl,
  any_char-append (is b's') before "s" after refl,
)
Acts-unsafe _ _ (date_sets_long value) = refl
Acts-unsafe _ _ (file_writes before after plain) = ground (
  arith,
  starts_with-append before "C" after plain refl,
  any_char-append (is b'C') before "C" after refl,
)
Acts-unsafe _ _ (file_writes_long value) = refl

module _ {ℓ} {FilePath : Type ℓ} (files : Files FilePath) (classes : Classes) where
  -- In no simple command of an accepted command, at whatever place it stands, is an argument one of
  -- these: for `find` a primary that deletes or writes files or runs a program; the flag -o of
  -- `sort` or `tree`, -s of `date` or -C of `file`, alone or among other short flags; --output or
  -- --compress-program of `sort`, --set of `date` or --compile of `file`, in full, with or without
  -- a value.
  pub is_shell_read-harmless :
      (command : String) (workspace : FilePath) (commands : List (List String))
      (program argument : String) (arguments : List String)
      → is_shell_read files classes command workspace ≡ true
      → commands_of classes command ≡ some commands
      → In (program ∷ arguments) commands
      → In argument arguments
      → ¬ Acts program argument
  is_shell_read-harmless command workspace commands program argument arguments h e i j acts =
      let (_, safe) =
        is_shell_read-programs files classes command workspace commands program arguments h e i in
      cc (safe, any-In (unsafe program) arguments argument j (Acts-unsafe program argument acts))
