-- ===== src/ShellReads/Confined.antt =====
-- core/shell_reads.py: what an accepted command can read, against the shell that runs it.
use kinby.Common.{
  Bool, true, false, not, ◌&&◌, some, List, [], ◌∷◌, String, ◌≡◌, sym, ap, ◌∙◌, any, all, In, here,
  there, arith, ◌==◌, string_eq, if◌then◌else◌, inl, inr, Bool-cases, both,
}
use kinby.Common.Members.{all-In, In-append_left, In-append_right, In-map}
use kinby.Common.Slices.{starts_with}
use kinby.ShellReads.Lexer.{Classes}
use kinby.ShellReads.Words.{commands_of}
use kinby.ShellReads.Guards.{
  Files, is_shell_read, all_read, each_reads, reads, suits, confined, inside, targets, after_cd,
  programs, one_of, unsafe,
}

guards : (a b c d : Bool) → (a && not b && c && d) ≡ true → (a ≡ true) × (b ≡ false) × (c ≡ true)
guards a b c d h = ground arith

free_choice :
    (home flag within other : Bool)
    → (if home then false else if not flag then within else other) ≡ true
    → flag ≡ false
    → within ≡ true
free_choice home flag within other h e = ground arith

module _ {ℓ} {FilePath : Type ℓ} (files : Files FilePath) where
  -- How bash may come to a command: from a directory it runs the commands in order, where a `cd`
  -- goes to its directory, or leaves bash where it is, when it fails or runs in a pipe. The last
  -- two arguments are the words that it comes to and the directory that they then run in.
  pub data Comes : FilePath → List (List String) → List String → FilePath → Type ℓ where
    first :
        {d : FilePath} {words : List String} {rest : List (List String)}
        → Comes d (words ∷ rest) words d
    stays :
        {d e : FilePath} {words : List String} {other : List String} {rest : List (List String)}
        → Comes d rest words e
        → Comes d (other ∷ rest) words e
    moves :
        {d e : FilePath} {words : List String} {argument : String} {more : List String}
        {rest : List (List String)}
        → Comes (files.resolve (files.join d argument)) rest words e
        → Comes d (("cd" ∷ argument ∷ more) ∷ rest) words e

  module _ (classes : Classes) where
    In-after_cd :
        (program : String) (arguments : List String) (directories : List FilePath) (d : FilePath)
        → In d directories
        → In d (after_cd files program arguments directories)
    In-after_cd program [] directories d i = i
    In-after_cd program (a ∷ more) directories d i = elim (Bool-cases (program == "cd")) [
      | inl is_cd ↦ rw (is_cd) (In-append_left directories _ d i)
      | inr not_cd ↦ rw (not_cd) i
    ]

    each_reads-cons :
        (program : String) (arguments : List String) (rest : List (List String))
        (directories : List FilePath) (root : FilePath)
        → each_reads files classes ((program ∷ arguments) ∷ rest) directories root ≡ true
        → (reads files classes program arguments directories root ≡ true)
          × (each_reads files classes rest (after_cd files program arguments directories) root
              ≡ true)
    unfolding each_reads
    each_reads-cons program arguments rest directories root h = both _ _ h

    all_read-each :
        (commands : List (List String)) (root : FilePath)
        → all_read files classes (some commands) root ≡ true
        → each_reads files classes commands (root ∷ []) root ≡ true
    all_read-each [] root h = absurd (ground arith)
    all_read-each (leading ∷ others) root h = h

    accepted :
        (command : String) (workspace : FilePath) (commands : List (List String))
        → is_shell_read files classes command workspace ≡ true
        → commands_of classes command ≡ some commands
        → each_reads files classes commands (files.resolve workspace ∷ []) (files.resolve workspace)
          ≡ true
    unfolding is_shell_read
    accepted command workspace commands h e =
        all_read-each commands (files.resolve workspace)
          (ap (λ o. all_read files classes o (files.resolve workspace)) (sym e) ∙ h)

    -- Each command is guarded in every directory that bash may run it in.
    guarded :
        (commands : List (List String)) (directories : List FilePath) (root d e : FilePath)
        (program : String) (arguments : List String)
        → each_reads files classes commands directories root ≡ true
        → In d directories
        → Comes d commands (program ∷ arguments) e
        → (found : List FilePath) × In e found
          × (reads files classes program arguments found root ≡ true)
    unfolding each_reads
    guarded [] directories root d e program arguments h i c = elim c [ ]
    guarded ((_ ∷ _) ∷ rest) directories root d e program arguments h i first =
        (directories, i, (each_reads-cons program arguments rest directories root h).0)
    guarded ([] ∷ rest) directories root d e program arguments h i (stays c) = absurd (ground arith)
    guarded ((other ∷ words) ∷ rest) directories root d e program arguments h i (stays c) =
        guarded rest _ root d e program arguments
          ((each_reads-cons other words rest directories root h).1)
          (In-after_cd other words directories d i) c
    guarded (_ ∷ rest) directories root d e program arguments h i
          (moves {argument = a} {more = more} c) =
        guarded rest _ root _ e program arguments
          ((each_reads-cons "cd" (a ∷ more) rest directories root h).1)
          (In-append_right directories _ _
            (In-map (λ each. files.resolve (files.join each a)) directories d i))
          c

    -- Every argument that is no flag is confined to the root, in each of the directories.
    inside-In :
        (name : String) (directories : List FilePath) (root d p : FilePath)
        → inside files name directories root ≡ true
        → In d directories
        → In p (targets files d name)
        → files.is_relative_to (files.resolve p) root ≡ true
    unfolding inside
    inside-In name directories root d p h i j =
        all-In _ _ p (all-In _ directories d ((both _ _ h).1) i) j

    reads-parts :
        (program : String) (arguments : List String) (directories : List FilePath) (root : FilePath)
        → reads files classes program arguments directories root ≡ true
        → (one_of programs program ≡ true)
          × (any (unsafe program) arguments ≡ false)
          × (all (λ each. confined files each directories root) arguments ≡ true)
    unfolding reads
    reads-parts program arguments directories root h =
        guards (one_of programs program) (any (unsafe program) arguments)
          (all (λ each. confined files each directories root) arguments)
          (suits files classes program arguments) h

    confined-inside :
        (argument : String) (directories : List FilePath) (root : FilePath)
        → confined files argument directories root ≡ true
        → starts_with argument "-" ≡ false
        → inside files argument directories root ≡ true
    unfolding confined
    confined-inside argument directories root h no_flag = free_choice _ _ _ _ h no_flag

    -- The safety of a shell read: when the command is accepted and bash, started in the workspace
    -- with each `cd` either followed or not, comes to a program in some directory, then whatever
    -- an argument that is no flag names from that directory, itself or as a glob, resolves inside
    -- the workspace's root.
    pub is_shell_read-inside :
        (command : String) (workspace : FilePath) (commands : List (List String))
        (program argument : String) (arguments : List String) (directory p : FilePath)
        → is_shell_read files classes command workspace ≡ true
        → commands_of classes command ≡ some commands
        → Comes (files.resolve workspace) commands (program ∷ arguments) directory
        → In argument arguments
        → starts_with argument "-" ≡ false
        → In p (targets files directory argument)
        → files.is_relative_to (files.resolve p) (files.resolve workspace) ≡ true
    is_shell_read-inside command workspace commands program argument arguments directory p h e c i
          no_flag j =
        let root = files.resolve workspace in
        let (found, at, h') =
          guarded commands (root ∷ []) root root directory program arguments
            (accepted command workspace commands h e) here c in
        inside-In argument found root directory p
          (confined-inside argument found root
            (all-In (λ each. confined files each found root) arguments argument
              ((reads-parts program arguments found root h').2) i)
            no_flag)
          at j

    In-Comes :
        (commands : List (List String)) (words : List String) (d : FilePath)
        → In words commands
        → Comes d commands words d
    In-Comes [] words d i = elim i [ ]
    In-Comes (_ ∷ rest) words d here = first
    In-Comes (_ ∷ rest) words d (there i) = stays (In-Comes rest words d i)

    -- Every simple command of an accepted command, at whatever place it stands, runs one of the
    -- listed programs, and none of its arguments is one that `_unsafe` refuses.
    pub is_shell_read-programs :
        (command : String) (workspace : FilePath) (commands : List (List String)) (program : String)
        (arguments : List String)
        → is_shell_read files classes command workspace ≡ true
        → commands_of classes command ≡ some commands
        → In (program ∷ arguments) commands
        → (one_of programs program ≡ true) × (any (unsafe program) arguments ≡ false)
    is_shell_read-programs command workspace commands program arguments h e i =
        let root = files.resolve workspace in
        let comes = In-Comes commands (program ∷ arguments) root i in
        let (found, at, h') =
          guarded commands (root ∷ []) root root root program arguments
            (accepted command workspace commands h e) here comes in
        let (known, safe, _) = reads-parts program arguments found root h' in (known, safe)
