-- ===== src/Memory/Variables/Map.antt =====
-- The variable store as a map of bounded size.
use pico_shell.Base.{
  Bool, Bool-cases, List, Option-cases, Ptr, [], ap, arith, false, inl, inr, none, refl, some,
  str_eq, str_eq_refl, str_eq_sound, true, ℕ, ◌||◌, ◌∙◌, ◌∷◌, ◌≡◌,
}
use pico_shell.Memory.Variables.{
  VarEntry, insert_var, is_free, names_var, update_var, vstore_get, vstore_set,
}

-- a name of the table
unfoldable pub knows : List VarEntry → List ℕ → Bool
knows [] key = false
knows (entry ∷ table) key = names_var key entry.var || knows table key

-- a free entry
unfoldable pub has_room : List VarEntry → Bool
has_room [] = false
has_room (entry ∷ table) = is_free entry.var || has_room table

names_var-other :
    (key other : List ℕ) (var : Ptr (List ℕ))
    → names_var key var ≡ true
    → str_eq key other ≡ false
    → names_var other var ≡ false
unfolding names_var
names_var-other key other none h ne = refl
names_var-other key other (some var) h ne = ap (λ s. str_eq s other) (str_eq_sound var key h) ∙ ne

update_var_known :
    (table : List VarEntry) (key value : List ℕ)
    → knows table key ≡ true
    → (table' : List VarEntry) × (update_var table key value ≡ some table')
      × (vstore_get table' key ≡ some value)
      × ((other : List ℕ)
          → str_eq key other ≡ false
          → vstore_get table' other ≡ vstore_get table other)
unfolding knows update_var vstore_get
update_var_known [] key value h = absurd (ground arith)
update_var_known (entry ∷ table) key value h = elim (Bool-cases (names_var key entry.var)) [
  | inl here ↦ (
    record entry { value = some value } ∷ table,
    rw here refl,
    ground (arith, here),
    λ other ne. ground (arith, names_var-other key other entry.var here ne),
  )
  | inr past ↦
      let (table', run, gets, keeps) = update_var_known table key value (ground (arith, past)) in
      (
        entry ∷ table',
        rw (past, run) refl,
        ground (arith, past, gets),
        λ other ne. ground (arith, keeps other ne),
      )
]

update_var_unknown :
    (table : List VarEntry) (key value : List ℕ)
    → knows table key ≡ false
    → update_var table key value ≡ none
unfolding knows update_var
update_var_unknown [] key value h = refl
update_var_unknown (entry ∷ table) key value h = ground (arith, update_var_unknown table key value)

insert_var_room :
    (table : List VarEntry) (key value : List ℕ)
    → knows table key ≡ false
    → has_room table ≡ true
    → (vstore_get (insert_var table key value) key ≡ some value)
      × ((other : List ℕ)
          → str_eq key other ≡ false
          → vstore_get (insert_var table key value) other ≡ vstore_get table other)
unfolding knows has_room insert_var vstore_get names_var is_free
insert_var_room [] key value h room = absurd (ground arith)
insert_var_room (entry ∷ table) key value h room = elim (Option-cases entry.var) [
  | inl free ↦ (ground (arith, free, str_eq_refl key), λ other ne. ground (arith, free, ne))
  | inr (w, used) ↦
      let (gets, keeps) =
        insert_var_room table key value (ground (arith, used)) (ground (arith, used)) in
      (ground (arith, used, gets), λ other ne. ground (arith, used, keeps other ne))
]

insert_var_full :
    (table : List VarEntry) (key value : List ℕ)
    → has_room table ≡ false
    → insert_var table key value ≡ table
unfolding has_room insert_var
insert_var_full [] key value h = refl
insert_var_full (entry ∷ table) key value h = ground (arith, insert_var_full table key value)

-- vstore_set of a name that the table has, or with a free entry, makes vstore_get of the name return
-- the value, and of any other name what it returned before.
pub vstore_get-vstore_set :
    (table : List VarEntry) (key value : List ℕ)
    → knows table key || has_room table ≡ true
    → (vstore_get (vstore_set table key value) key ≡ some value)
      × ((other : List ℕ)
          → str_eq key other ≡ false
          → vstore_get (vstore_set table key value) other ≡ vstore_get table other)
unfolding vstore_set
vstore_get-vstore_set table key value h = elim (Bool-cases (knows table key)) [
  | inl known ↦
      let (table', run, gets, keeps) = update_var_known table key value known in
      rw run (gets, keeps)
  | inr new ↦
      rw (update_var_unknown table key value new)
        (insert_var_room table key value new (ground (arith, new)))
]

-- vstore_set of a new name in a full table changes nothing.
pub vstore_set_full :
    (table : List VarEntry) (key value : List ℕ)
    → knows table key ≡ false
    → has_room table ≡ false
    → vstore_set table key value ≡ table
unfolding vstore_set
vstore_set_full table key value new full =
    rw (update_var_unknown table key value new) (insert_var_full table key value full)
