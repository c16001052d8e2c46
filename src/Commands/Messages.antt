-- ===== src/Commands/Messages.antt =====
-- utils/badcommand.c: each function prints a message and returns the code of the error.
use pico_shell.Base.{List, codes, ℕ}
use pico_shell.System.{M, prints, ret, ◌>>◌}

abbrev bad : List ℕ → ℕ → M ℕ
bad message code = do prints message; ret code

unfoldable pub badcommand : M ℕ
badcommand = bad (codes "Unknown Command") 1

unfoldable pub badcommand_missing_arguments : M ℕ
badcommand_missing_arguments = bad (codes "Bad command: Missing arguments") 2

unfoldable pub badcommand_too_many_tokens : M ℕ
badcommand_too_many_tokens = bad (codes "Bad command: Too many tokens") 3

unfoldable pub bad_command_error_occurred : M ℕ
bad_command_error_occurred = bad (codes "Bad command: An error occurred") 4

unfoldable pub badcommand_file_does_not_exist : M ℕ
badcommand_file_does_not_exist = bad (codes "Bad command: File not found") 5

unfoldable pub badcommand_variable_does_not_exist : M ℕ
badcommand_variable_does_not_exist =
    bad (codes "Bad command: Variable does not exist in shell memory") 6

unfoldable pub badcommand_not_alphanum : M ℕ
badcommand_not_alphanum = bad (codes "Bad command: Directory/file name not alphanumeric") 7

unfoldable pub badcommand_dir_does_not_exist : M ℕ
badcommand_dir_does_not_exist = bad (codes "Bad command: Directory name does not exist") 8

unfoldable pub badcommand_invalid_policy : M ℕ
badcommand_invalid_policy = bad (codes "Bad command: Invalid policy selected") 10
