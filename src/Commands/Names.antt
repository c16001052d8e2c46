-- ===== src/Commands/Names.antt =====
-- utils/utils.c, and the commands help and quit.
use pico_shell.Base.{
  Bool, List, [], codes, false, if◌then◌else◌, leb, not, true, ℕ, ◌&&◌, ◌+◌, ◌-◌, ◌/◌, ◌==◌, ◌||◌,
  ◌∷◌,
}
use pico_shell.System.{M, exits, prints, ret, ◌>>◌}

abbrev pub within : ℕ → ℕ → ℕ → Bool
within low c high = leb low c && leb c high

-- `isalnum` in the C locale
unfoldable pub is_alnum : ℕ → Bool
is_alnum c = within 48 c 57 || within 65 c 90 || within 97 c 122

unfoldable pub is_valid_path : List ℕ → Bool
unfolding is_alnum
is_valid_path [] = true
is_valid_path (c ∷ path) =
    let rest = is_valid_path path in
    if not (is_alnum c) && not (c == b'_') && not (c == b'/') then false else rest

-- The sum and the quotient are those of ints that are not negative.
unfoldable pub ceili : ℕ → ℕ → ℕ
ceili n k = (n + k - 1) / k

-- the text, line by line
unfoldable pub help : M ℕ
help = do
  prints (codes "COMMAND          DESCRIPTION")
  prints (codes "help             Displays all the commands")
  prints (codes "quit             Exits / terminates the shell with \"Bye!\"")
  prints (codes "set VAR STRING   Assigns a value to shell memory")
  prints (codes "print VAR        Displays the STRING assigned to VAR")
  prints (codes "run SCRIPT.TXT   Executes the file SCRIPT.TXT")
  prints (
      codes
        "echo STRING      Displays STRING. If STRING starts with $, prints the value of the variable")
  prints (codes "ls            Lists the contents of the current directory")
  prints (codes "mkdir DIR     Creates a new directory with name DIR")
  prints (codes "touch FILE    Creates a new empty file with name FILE")
  prints (codes "cd DIR        Changes current directory to DIR")
  prints (codes "fork CMD      Executes CMD with ARGS using fork-exec pattern")
  prints []
  ret 0

-- After mem_deinit, `exit(0)`.
unfoldable pub quit : M ℕ
quit = do prints (codes "Bye!"); λ s. exits 0
