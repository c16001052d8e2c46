-- ===== src/Fs/Path/Lookup.antt =====
-- resolve against the components of the path.
use pico_shell.Base.{
  Bool, Bytes, List, Option, Option-cases, [], and_then, ap, arith, false, if◌then◌else◌, inl, inr,
  leb, length, none, not, null, refl, some, subst, suc, sym, true, zero, ℕ, ◌&&◌, ◌++◌, ◌<◌, ◌==◌,
  ◌||◌, ◌∙◌, ◌∷◌, ◌≡◌, ◌≢◌,
}
use pico_shell.Fs.Directory.Entry.{max_filename_len}
use pico_shell.Fs.Inode.{Inode, directory_t, uninit_inode}
use pico_shell.Fs.Inode.Table.{inode_at, inode_read_in}
use pico_shell.Fs.Path.{
  first_of, go_deeper, next_inode, overrun_round, overruns, path_lookup, path_lookup_parent,
  resolve, root_inode, slash, walk, walk_overruns, walk_round,
}
use pico_shell.Fs.Path.Components.{
  components, components-slash, consume_lem, no_component, one_component,
}

-- the inode that a list of components leads to
unfoldable pub descend : Bytes → Inode → List (List ℕ) → Option Inode
descend disk curr [] = some curr
descend disk curr (c ∷ cs) =
    let deeper = and_then (next_inode curr c disk) λ next. descend disk next cs in
    if curr.type == directory_t then deeper else none

not_null : (cs : List (List ℕ)) (c : List ℕ) → null (cs ++ c ∷ []) ≡ false
not_null [] c = refl
not_null (d ∷ cs) c = refl

-- the directory that the last component is looked up in, beside the component
unfoldable pub in_directory : List ℕ → Option Inode → Option (Inode × List ℕ)
in_directory c none = none
in_directory c (some dir) = if dir.type == directory_t then some (dir, c) else none

walk-descend :
    (disk : Bytes) (fuel : ℕ) (curr : Inode) (path name : List ℕ)
    → length path < fuel
    → first_of (walk false disk fuel curr path name) ≡ descend disk curr (components path)
unfolding walk walk_round descend first_of
walk-descend disk zero curr path name h = absurd (omega arith)
walk-descend disk (suc fuel) curr path name h = elim (consume_lem path) [
  | no_component e run ↦ rw (e, run) refl
  | one_component first rest run e shorter last ↦
      rw (e, run)
        (elim (Option-cases (next_inode curr first disk)) [
          | inl missing ↦ ground (arith, missing)
          | inr (next, found) ↦
              ground (arith, found, walk-descend disk fuel next rest first (omega arith))
        ])
]

walk-in_directory :
    (disk : Bytes) (fuel : ℕ) (curr : Inode) (path name : List ℕ) (cs : List (List ℕ)) (c : List ℕ)
    → length path < fuel
    → components path ≡ cs ++ c ∷ []
    → walk true disk fuel curr path name ≡ in_directory c (descend disk curr cs)
unfolding walk walk_round descend in_directory
walk-in_directory disk zero curr path name cs c h parts = absurd (omega arith)
walk-in_directory disk (suc fuel) curr path name [] c h parts = elim (consume_lem path) [
  | no_component e run ↦ absurd (ground (arith, e, parts))
  | one_component first rest run e shorter last ↦ rw run ground (arith, e, parts, last)
]
walk-in_directory disk (suc fuel) curr path name (d ∷ cs) c h parts = elim (consume_lem path) [
  | no_component e run ↦ absurd (ground (arith, e, parts))
  | one_component first rest run e shorter last ↦
      let same : first ≡ d = ground (arith, e, parts) in
      let tail : components rest ≡ cs ++ c ∷ [] = ground (arith, e, parts) in
      let more : null rest ≡ false = last ∙ ap null tail ∙ not_null cs c in
      rw (run, same, more)
        (elim (Option-cases (next_inode curr d disk)) [
          | inl missing ↦ ground (arith, missing)
          | inr (next, found) ↦
              ground (arith, found, walk-in_directory disk fuel next rest d cs c (omega arith) tail)
        ])
]

-- components that fit the array of a name
unfoldable pub AllShort : List (List ℕ) → Type 0
AllShort [] = Unit {0}
AllShort (c ∷ cs) = (length c < max_filename_len) × AllShort cs

both_false : (b : Bool) → (if b then false else false) ≡ false
both_false true = refl
both_false false = refl

walk_overruns-AllShort :
    (parent : Bool) (disk : Bytes) (fuel : ℕ) (curr : Inode) (path : List ℕ)
    → AllShort (components path)
    → walk_overruns parent disk fuel curr path ≡ false
unfolding walk_overruns overrun_round go_deeper AllShort
walk_overruns-AllShort parent disk zero curr path short = refl
walk_overruns-AllShort parent disk (suc fuel) curr path short = elim (consume_lem path) [
  | no_component e run ↦ rw run refl
  | one_component first rest run e shorter last ↦
      let (fits, others) = subst AllShort e short in
      let deeper : go_deeper (walk_overruns parent disk fuel) rest (next_inode curr first disk)
          ≡ false =
        elim (Option-cases (next_inode curr first disk)) [
          | inl missing ↦ rw missing refl
          | inr (next, found) ↦ rw found (walk_overruns-AllShort parent disk fuel next rest others)
        ] in
      let room : leb max_filename_len (length first) ≡ false = ground (arith, fits) in
      rw (run, room, deeper) (both_false (not (curr.type == directory_t) || (parent && null rest)))
]

-- the resolution of an absolute path whose components fit the array of a name stays inside it
pub overruns-AllShort :
    (parent : Bool) (path : List ℕ) (disk : Bytes)
    → AllShort (components path)
    → overruns parent (slash ∷ path) disk ≡ false
unfolding overruns go_deeper
overruns-AllShort parent path disk short =
    rw (inode_read_in root_inode disk uninit_inode (omega arith)) (
      walk_overruns-AllShort parent disk (suc (suc (length path))) (inode_at disk root_inode)
        (slash ∷ path) (subst AllShort (sym (components-slash path)) short))

-- path_lookup of an absolute path, whose components have fewer than 59 characters each, writes no
-- name past the end of its array and returns the inode that its components lead to from the root, one
-- dir_lookup and one inode_read for each; on a path that does not begin with a slash it returns -1.
pub path_lookup_lem :
    (name path : List ℕ) (disk : Bytes)
    → AllShort (components path)
    → (overruns false (slash ∷ path) disk ≡ false)
      × (path_lookup name (slash ∷ path) disk
          ≡ descend disk (inode_at disk root_inode) (components path))
      × ((c : ℕ) → c ≢ slash → path_lookup name (c ∷ path) disk ≡ none)
      × (path_lookup name [] disk ≡ none)
unfolding path_lookup resolve
path_lookup_lem name path disk short = (
  overruns-AllShort false path disk short,
  rw (inode_read_in root_inode disk uninit_inode (omega arith)) (
      walk-descend disk (suc (suc (length path))) (inode_at disk root_inode) (slash ∷ path) name
        (omega arith)
      ∙ ap (descend disk (inode_at disk root_inode)) (components-slash path)),
  λ c ne. ground arith,
  refl,
)

-- path_lookup_parent of an absolute path with a last component, whose components have fewer than 59
-- characters each, writes no name past the end of its array and stops one level early: it returns the
-- directory that the components before it lead to, and the last component as the name.
pub path_lookup_parent_lem :
    (name path : List ℕ) (disk : Bytes) (cs : List (List ℕ)) (c : List ℕ)
    → components path ≡ cs ++ c ∷ []
    → AllShort (components path)
    → (overruns true (slash ∷ path) disk ≡ false)
      × (path_lookup_parent name (slash ∷ path) disk
          ≡ in_directory c (descend disk (inode_at disk root_inode) cs))
unfolding resolve
path_lookup_parent_lem name path disk cs c parts short = (
  overruns-AllShort true path disk short,
  rw (inode_read_in root_inode disk uninit_inode (omega arith)) (
      walk-in_directory disk (suc (suc (length path))) (inode_at disk root_inode) (slash ∷ path)
        name cs c (omega arith) (components-slash path ∙ parts)),
)

-- path_lookup_parent of a path of slashes succeeds: it returns the root, and leaves the name as it
-- was, uninitialised in the callers.
pub path_lookup_parent_root :
    (name path : List ℕ) (disk : Bytes)
    → components path ≡ []
    → path_lookup_parent name (slash ∷ path) disk ≡ some (inode_at disk root_inode, name)
unfolding resolve walk walk_round
path_lookup_parent_root name path disk parts =
    rw (inode_read_in root_inode disk uninit_inode (omega arith))
      (elim (consume_lem (slash ∷ path)) [
        | no_component e run ↦ rw run refl
        | one_component first rest run e shorter last ↦
            absurd (ground (arith, e, parts, components-slash path))
      ])
