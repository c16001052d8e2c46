-- ===== src/Memory/Variables.antt =====
-- memory/variable_store.c: the shell's variables, in a table of a fixed size.
pub mod Map
use pico_shell.Base.{
  Bool, List, Option, Ptr, [], and_then, false, if◌then◌else◌, none, replicate, some, str_eq, true,
  ℕ, ◌∷◌,
}

abbrev pub var_store_size : ℕ
var_store_size = 10

-- Strings are C strings, without their terminator.
pub record VarEntry : Type 0 where
  pub var : Ptr (List ℕ)
  pub value : Ptr (List ℕ)

abbrev pub free_entry : VarEntry
free_entry = record { var = none; value = none }

abbrev pub vstore_init : List VarEntry
vstore_init = replicate var_store_size free_entry

-- `entry->var != NULL && strcmp(entry->var, key) == 0`
unfoldable pub names_var : List ℕ → Ptr (List ℕ) → Bool
names_var key none = false
names_var key (some var) = str_eq var key

-- the loop over the table; a value that is there is copied
unfoldable pub vstore_get : List VarEntry → List ℕ → Ptr (List ℕ)
unfolding names_var
vstore_get [] key = none
vstore_get (entry ∷ table) key =
    if names_var key entry.var then entry.value else vstore_get table key

-- the first loop of vstore_set, which returns from the function where it finds the name
unfoldable pub update_var : List VarEntry → List ℕ → List ℕ → Option (List VarEntry)
unfolding names_var
update_var [] var_in value_in = none
update_var (entry ∷ table) var_in value_in =
    let rest = and_then (update_var table var_in value_in) λ table'. some (entry ∷ table') in
    if names_var var_in entry.var
    then some (record entry { value = some value_in } ∷ table)
    else rest

unfoldable pub is_free : Ptr (List ℕ) → Bool
is_free none = true
is_free (some var) = false

-- the second loop, which takes the first free entry; without one nothing happens
unfoldable pub insert_var : List VarEntry → List ℕ → List ℕ → List VarEntry
unfolding is_free
insert_var [] var_in value_in = []
insert_var (entry ∷ table) var_in value_in =
    let rest = insert_var table var_in value_in in
    if is_free entry.var
    then record { var = some var_in; value = some value_in } ∷ table
    else entry ∷ rest

unfoldable pub or_insert : Option (List VarEntry) → List VarEntry → List VarEntry
or_insert none inserted = inserted
or_insert (some updated) inserted = updated

unfoldable pub vstore_set : List VarEntry → List ℕ → List ℕ → List VarEntry
unfolding or_insert
vstore_set table var_in value_in =
    or_insert (update_var table var_in value_in) (insert_var table var_in value_in)
