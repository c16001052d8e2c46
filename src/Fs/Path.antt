-- ===== src/Fs/Path.antt =====
-- fs/pathname.c: from a path to an inode, one component after the other.
pub mod Components
pub mod Lookup
use pico_shell.Base.{
  Bool, Bytes, List, Option, [], and_then, false, if◌then◌else◌, leb, length, minus_one, none, not,
  null, some, suc, true, zero, ℕ, ◌&&◌, ◌==◌, ◌||◌, ◌∷◌,
}
use pico_shell.Fs.Directory.{dir_lookup}
use pico_shell.Fs.Directory.Entry.{max_filename_len}
use pico_shell.Fs.Inode.{Inode, directory_t, inode_read, uninit_inode}

abbrev pub slash : ℕ
slash = b'/'

abbrev pub root_inode : ℕ
root_inode = 0

-- `while (*path == '/') path++`
unfoldable pub skip_slashes : List ℕ → List ℕ
skip_slashes [] = []
skip_slashes (c ∷ path) = if c == slash then skip_slashes path else c ∷ path

-- `while (*path != '/' && *path != '\0') path++`: what the pointer passes, and where it ends
unfoldable pub take_component : List ℕ → List ℕ × List ℕ
take_component [] = ([], [])
take_component (c ∷ path) =
    let (name, rest) = take_component path in
    if c == slash then ([], c ∷ path) else (c ∷ name, rest)

unfoldable pub consume_from : List ℕ → Option (List ℕ × List ℕ)
unfolding skip_slashes take_component
consume_from [] = none
consume_from (c ∷ path) =
    some ((take_component (c ∷ path)).0, skip_slashes (take_component (c ∷ path)).1)

-- The name and the rest of the path. Paths are C strings, without their terminator. No code checks
-- that the name fits its array: `overruns` is true of a path whose resolution writes past the end,
-- which is undefined. The commands do not go on then.
unfoldable pub consume : List ℕ → Option (List ℕ × List ℕ)
unfolding consume_from
consume path = consume_from (skip_slashes path)

-- `dir_lookup` and `inode_read` of what it finds
unfoldable pub next_inode : Inode → List ℕ → Bytes → Option Inode
next_inode curr name disk =
    let next_inum = dir_lookup curr.inum (some name) disk in
    if next_inum == minus_one then none else inode_read (some uninit_inode) next_inum disk

-- A round of the loop, for what consume returned; `more` is the next round.
unfoldable pub walk_round :
    Bool
    → Bytes
    → Inode
    → List ℕ
    → (Inode → List ℕ → List ℕ → Option (Inode × List ℕ))
    → Option (List ℕ × List ℕ)
    → Option (Inode × List ℕ)
walk_round parent disk curr name more none = some (curr, name)
walk_round parent disk curr name more (some (name', rest)) =
    if not (curr.type == directory_t)
    then none
    else if parent && null rest
    then some (curr, name')
    else and_then (next_inode curr name' disk) λ next. more next rest name'

-- The loop, with what `name` holds. Each round shortens the path, so that its length is fuel enough.
-- The result is what `out` and `name` hold, and `none` for -1, where `out` is not written.
unfoldable pub walk : Bool → Bytes → ℕ → Inode → List ℕ → List ℕ → Option (Inode × List ℕ)
unfolding walk_round
walk parent disk zero curr path name = none
walk parent disk (suc fuel) curr path name =
    walk_round parent disk curr name (walk parent disk fuel) (consume path)

unfoldable pub resolve : List ℕ → Bool → List ℕ → Bytes → Option (Inode × List ℕ)
unfolding walk
resolve [] parent name disk = none
resolve (c ∷ path) parent name disk =
    if not (c == slash)
    then none
    else and_then (inode_read (some uninit_inode) root_inode disk)
        λ curr. walk parent disk (suc (length (c ∷ path))) curr (c ∷ path) name

-- what path_lookup keeps of it
unfoldable pub first_of : Option (Inode × List ℕ) → Option Inode
first_of none = none
first_of (some (n, name)) = some n

-- `name` is what the array of that name holds before the call.
unfoldable pub path_lookup : List ℕ → List ℕ → Bytes → Option Inode
unfolding first_of
path_lookup name path disk = first_of (resolve path false name disk)

abbrev pub path_lookup_parent : List ℕ → List ℕ → Bytes → Option (Inode × List ℕ)
path_lookup_parent name path disk = resolve path true name disk

-- the round after the inode of a component was read, if it was
unfoldable pub go_deeper : (Inode → List ℕ → Bool) → List ℕ → Option Inode → Bool
go_deeper more rest none = false
go_deeper more rest (some next) = more next rest

-- A round of the loop of resolve: whether consume writes a name of 59 characters or more, which has
-- no room for its end in the array, in this round or a later one.
unfoldable pub overrun_round :
    Bool → Bytes → Inode → (Inode → List ℕ → Bool) → Option (List ℕ × List ℕ) → Bool
unfolding go_deeper
overrun_round parent disk curr more none = false
overrun_round parent disk curr more (some (name, rest)) =
    let deeper = go_deeper more rest (next_inode curr name disk) in
    if leb max_filename_len (length name)
    then true
    else if not (curr.type == directory_t) || (parent && null rest)
    then false
    else deeper

unfoldable pub walk_overruns : Bool → Bytes → ℕ → Inode → List ℕ → Bool
unfolding overrun_round
walk_overruns parent disk zero curr path = false
walk_overruns parent disk (suc fuel) curr path =
    overrun_round parent disk curr (walk_overruns parent disk fuel) (consume path)

unfoldable pub overruns : Bool → List ℕ → Bytes → Bool
unfolding walk_overruns go_deeper
overruns parent [] disk = false
overruns parent (c ∷ path) disk =
    let absolute =
      go_deeper (walk_overruns parent disk (suc (length (c ∷ path)))) (c ∷ path)
        (inode_read (some uninit_inode) root_inode disk) in
    if c == slash then absolute else false
