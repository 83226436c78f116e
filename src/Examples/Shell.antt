-- ===== src/Examples/Shell.antt =====
-- The shell reads at commands in a workspace without links or globs.
use Prim.Native.Char.{code}
use kinby.Common.{
  Bool, true, false, ◌&&◌, ◌||◌, some, List, [], ◌∷◌, ◌++◌, String, ◌≡◌, refl, ◌==◌, string_eq,
  nat_eq, if◌then◌else◌, leb, In, here, there,
}
use kinby.Common.Slices.{is, any_char, split_on, starts_with}
use kinby.ShellReads.Lexer.{Classes}
use kinby.ShellReads.Words.{commands_of}
use kinby.ShellReads.Guards.{Files, is_shell_read, targets}
use kinby.ShellReads.Confined.{Comes, first, moves, is_shell_read-inside}
use kinby.ShellReads.Harmless.{Acts, is_shell_read-harmless}
use kinby.ShellReads.Quoted.{write_commands}
use kinby.ShellReads.Recut.{commands_of-write_commands}

-- The classes at the ASCII characters.
abbrev pub ascii : Classes
ascii = record {
  is_space = λ c. is b' ' c || leb b'\t' (code c) && leb (code c) b'\r';
  is_digit = λ c. leb b'0' (code c) && leb (code c) b'9';
  is_word = λ c.
      leb b'0' (code c) && leb (code c) b'9'
      || leb b'a' (code c) && leb (code c) b'z'
      || leb b'A' (code c) && leb (code c) b'Z'
      || is b'_' c;
}

-- A path is its parts, the first one outermost.
abbrev but_last : List String → List String
but_last [] = []
but_last (x ∷ []) = []
but_last (x ∷ y ∷ xs) = x ∷ but_last (y ∷ xs)

abbrev collapse : List String → List String → List String
collapse above [] = above
collapse above (part ∷ parts) =
    collapse
      (if part == "" || part == "."
        then above
        else if part == ".."
        then but_last above
        else above ++ part ∷ [])
      parts

abbrev pub is_below : List String → List String → Bool
is_below path [] = true
is_below [] (part ∷ root) = false
is_below (x ∷ path) (part ∷ root) = x == part && is_below path root

abbrev pub disk : Files (List String)
disk = record {
  join = λ directory name.
      if starts_with name "/" then split_on b'/' name else directory ++ split_on b'/' name;
  resolve = collapse [];
  glob = λ path. [];
  is_relative_to = is_below;
}

abbrev pub workspace : List String
workspace = "ws" ∷ []

abbrev pub reading : String
reading = "cd ./src && cat a.txt 2>/dev/null | grep -n 'a; b'"

abbrev pub simple_commands : List (List String)
simple_commands =
    ("cd" ∷ "./src" ∷ []) ∷ ("cat" ∷ "a.txt" ∷ []) ∷ ("grep" ∷ "-n" ∷ "a; b" ∷ []) ∷ []

pub reading_accepted : is_shell_read disk ascii reading workspace ≡ true
unfolding is_shell_read split_on starts_with
reading_accepted = refl

pub reading_words : commands_of ascii reading ≡ some simple_commands
unfolding commands_of
reading_words = refl

outside_refused : is_shell_read disk ascii "cd ./src && cat ../../key" workspace ≡ false
unfolding is_shell_read split_on starts_with
outside_refused = refl

written_refused : is_shell_read disk ascii "cat a.txt > b.txt" workspace ≡ false
unfolding is_shell_read split_on starts_with
written_refused = refl

pub a_match : In ("ws" ∷ "src" ∷ "a.txt" ∷ []) (targets disk ("ws" ∷ "src" ∷ []) "a.txt")
unfolding targets split_on starts_with
a_match = here

pub to_src : Comes disk workspace simple_commands ("cat" ∷ "a.txt" ∷ []) ("ws" ∷ "src" ∷ [])
unfolding split_on starts_with
to_src = moves first

pub a_no_flag : starts_with "a.txt" "-" ≡ false
unfolding starts_with
a_no_flag = refl

is_shell_read-inside_example : is_below ("ws" ∷ "src" ∷ "a.txt" ∷ []) workspace ≡ true
is_shell_read-inside_example =
    is_shell_read-inside disk ascii reading workspace simple_commands "cat" "a.txt" ("a.txt" ∷ [])
      ("ws" ∷ "src" ∷ []) ("ws" ∷ "src" ∷ "a.txt" ∷ []) reading_accepted reading_words to_src here
      a_no_flag a_match

commands_of-write_commands_example :
    commands_of ascii (write_commands simple_commands) ≡ some simple_commands
unfolding any_char
commands_of-write_commands_example =
    commands_of-write_commands ascii refl refl simple_commands refl refl

-- The files that are found, sorted by number.
abbrev sorting : String
sorting = "find . -name a.txt | sort -n"

abbrev sorting_commands : List (List String)
sorting_commands = ("find" ∷ "." ∷ "-name" ∷ "a.txt" ∷ []) ∷ ("sort" ∷ "-n" ∷ []) ∷ []

sorting_accepted : is_shell_read disk ascii sorting workspace ≡ true
unfolding is_shell_read split_on starts_with
sorting_accepted = refl

sorting_words : commands_of ascii sorting ≡ some sorting_commands
unfolding commands_of
sorting_words = refl

is_shell_read-harmless_example : ¬ Acts "sort" "-n"
is_shell_read-harmless_example =
    is_shell_read-harmless disk ascii sorting workspace sorting_commands "sort" "-n" ("-n" ∷ [])
      sorting_accepted sorting_words (there here) here
