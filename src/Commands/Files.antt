-- ===== src/Commands/Files.antt =====
-- The commands mkdir, rmdir, cd, touch and ls.
use pico_shell.Base.{
  Bool, Bytes, List, Option, Ptr, [], false, if◌then◌else◌, none, not, some, true, ℕ, ◌==◌, ◌∷◌,
}
use pico_shell.Commands.Messages.{
  bad_command_error_occurred, badcommand_dir_does_not_exist, badcommand_not_alphanum,
  badcommand_variable_does_not_exist,
}
use pico_shell.Commands.Names.{is_valid_path}
use pico_shell.Fs.Calls.{fs_chdir, fs_create, fs_delete}
use pico_shell.Fs.Inode.{Inode, directory_t}
use pico_shell.Fs.Path.{overruns}
use pico_shell.Memory.Variables.{vstore_get}
use pico_shell.System.{Host, M, System, ask, faults, gets, on_disk, puts, ret, ◌>>=◌, ◌>>◌}

-- the path, or the value of the variable that it names after a dollar sign; NULL if it has none
unfoldable pub path_or_variable : List ℕ → System → Ptr (List ℕ)
unfolding vstore_get
path_or_variable [] s = some []
path_or_variable (c ∷ path) s = if c == b'$' then vstore_get s.mem.vstore path else some (c ∷ path)

-- the code for the result of a call of the file system, where `none` is -1
unfoldable pub or_error : Option (Unit {0}) → M ℕ
unfolding bad_command_error_occurred
or_error none = bad_command_error_occurred
or_error (some result) = ret 0

-- a call of the file system for a path that is valid
unfoldable pub checked : (Bytes → Option (Unit {0}) × Bytes) → M ℕ
unfolding or_error
checked call = do result ← on_disk call; or_error result

-- a call of the file system that resolves the path, undefined where a name of the path does not fit
unfoldable pub resolving : Bool → List ℕ → M ℕ → M ℕ
unfolding overruns
resolving parent path call s = if overruns parent path s.disk then faults else call s

unfoldable pub mmkdir_path : Host → Ptr (List ℕ) → M ℕ
unfolding badcommand_variable_does_not_exist badcommand_not_alphanum checked fs_create is_valid_path
    resolving
mmkdir_path host none = badcommand_variable_does_not_exist
mmkdir_path host (some path) =
    if not (is_valid_path path)
    then badcommand_not_alphanum
    else resolving true path
        (checked (fs_create host.stray_stack host.stray_name (some path) directory_t))

unfoldable pub mmkdir : Host → List ℕ → M ℕ
unfolding mmkdir_path path_or_variable
mmkdir host path = do found ← gets (path_or_variable path); mmkdir_path host found

unfoldable pub rmdir_path : Host → Ptr (List ℕ) → M ℕ
unfolding badcommand_variable_does_not_exist badcommand_not_alphanum checked fs_delete is_valid_path
    resolving
rmdir_path host none = badcommand_variable_does_not_exist
rmdir_path host (some path) =
    if not (is_valid_path path)
    then badcommand_not_alphanum
    else resolving true path (checked (fs_delete host.stray_name (some path) directory_t))

unfoldable pub rmdir : Host → List ℕ → M ℕ
unfolding rmdir_path path_or_variable
rmdir host path = do found ← gets (path_or_variable path); rmdir_path host found

-- what cd does with the result of fs_chdir
unfoldable pub enter_directory : Option Inode → M ℕ
unfolding badcommand_dir_does_not_exist
enter_directory none = badcommand_dir_does_not_exist
enter_directory (some dir) = do puts λ s. record s { cwd = dir }; ret 0

unfoldable pub cd : Host → List ℕ → M ℕ
unfolding badcommand_not_alphanum enter_directory fs_chdir is_valid_path resolving
cd host dirname =
    if not (is_valid_path dirname)
    then badcommand_not_alphanum
    else resolving false dirname (do
      dir ← gets λ s. fs_chdir host.stray_inode host.stray_name (some dirname) s.disk
      enter_directory dir)

-- what touch does after `fopen`
unfoldable pub close_new : Host → List ℕ → Bool → M ℕ
unfolding bad_command_error_occurred
close_new host filename false = bad_command_error_occurred
close_new host filename true = do
  closed ← ask λ call. host.closes call filename
  if not closed then bad_command_error_occurred else ret 0

unfoldable pub touch : Host → List ℕ → M ℕ
unfolding badcommand_not_alphanum close_new is_valid_path
touch host filename =
    if not (is_valid_path filename)
    then badcommand_not_alphanum
    else do opened ← ask λ call. host.opens call filename; close_new host filename opened

-- `system("ls")` prints; its output is not part of the state.
unfoldable pub ls : M ℕ
ls = do ask λ call. tt; ret 0
