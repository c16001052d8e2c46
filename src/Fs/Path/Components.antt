-- ===== src/Fs/Path/Components.antt =====
-- The components of a path: what `consume` takes off it, one after the other.
use pico_shell.Base.{
  Bool-cases, List, [], ap, arith, false, if◌then◌else◌, inl, inr, length, none, null, refl, some,
  sym, ℕ, ◌<◌, ◌==◌, ◌∙◌, ◌∷◌, ◌≡◌, ◌≤◌, ◌⊎◌,
}
use pico_shell.Fs.Path.{consume, consume_from, skip_slashes, slash, take_component}

-- the first part of a list of parts, with a character before it
push : ℕ → List (List ℕ) → List (List ℕ)
push c [] = (c ∷ []) ∷ []
push c (part ∷ parts) = (c ∷ part) ∷ parts

-- the parts between slashes
split : List ℕ → List (List ℕ)
split [] = [] ∷ []
split (c ∷ path) = if c == slash then [] ∷ split path else push c (split path)

not_empty : List (List ℕ) → List (List ℕ)
not_empty [] = []
not_empty (part ∷ parts) = if null part then not_empty parts else part ∷ not_empty parts

-- the parts that are not empty
unfoldable pub components : List ℕ → List (List ℕ)
unfolding split push not_empty
components path = not_empty (split path)

pub components-slash : (path : List ℕ) → components (slash ∷ path) ≡ components path
unfolding components
components-slash path = refl

components-skip_slashes : (path : List ℕ) → components (skip_slashes path) ≡ components path
unfolding components skip_slashes
components-skip_slashes [] = refl
components-skip_slashes (c ∷ path) = ground (arith, components-skip_slashes path)

-- a component's characters, with what follows them
split-take_component :
    (path : List ℕ)
    → (((take_component path).1 ≡ []) × (split path ≡ (take_component path).0 ∷ []))
      ⊎ ((path' : List ℕ) × ((take_component path).1 ≡ slash ∷ path')
          × (split path ≡ (take_component path).0 ∷ split path'))
unfolding split push take_component
split-take_component [] = inl (refl, refl)
split-take_component (c ∷ path) = elim (Bool-cases (c == slash)) [
  | inl e ↦ inr (path, ground (arith, e), ground (arith, e))
  | inr e ↦ elim (split-take_component path) [
    | inl (done, parts) ↦ inl (ground (arith, e, done), ground (arith, e, parts))
    | inr (path', more, parts) ↦ inr (path', ground (arith, e, more), ground (arith, e, parts))
  ]
]

-- A path without components consists of slashes.
skip_slashes-cases :
    (path : List ℕ)
    → (skip_slashes path ≡ [])
      ⊎ ((c : ℕ) × (rest : List ℕ) × ((c == slash) ≡ false) × (skip_slashes path ≡ c ∷ rest))
unfolding skip_slashes
skip_slashes-cases [] = inl refl
skip_slashes-cases (c ∷ path) = elim (Bool-cases (c == slash)) [
  | inl e ↦ rw e (skip_slashes-cases path)
  | inr e ↦ inr (c, path, e, ground (arith, e))
]

push-null : (c : ℕ) (parts : List (List ℕ)) → null (not_empty (push c parts)) ≡ false
unfolding push not_empty
push-null c [] = refl
push-null c (part ∷ parts) = refl

-- What consume leaves is not a slash, so that it is empty exactly if no component is left.
skip_slashes-null : (path : List ℕ) → null (skip_slashes path) ≡ null (components path)
unfolding components skip_slashes
skip_slashes-null [] = refl
skip_slashes-null (c ∷ path) = elim (Bool-cases (c == slash)) [
  | inl e ↦ ground (arith, e, skip_slashes-null path)
  | inr e ↦ rw e (sym (push-null c (split path)))
]

length-skip_slashes : (path : List ℕ) → length (skip_slashes path) ≤ length path
unfolding skip_slashes
length-skip_slashes [] = omega arith
length-skip_slashes (c ∷ path) = ground (arith, length-skip_slashes path)

length-take_component : (path : List ℕ) → length (take_component path).1 ≤ length path
unfolding take_component
length-take_component [] = omega arith
length-take_component (c ∷ path) = ground (arith, length-take_component path)

-- a path that begins with a component
module _ (c : ℕ) (path : List ℕ) (e : (c == slash) ≡ false) where
  abbrev first : List ℕ
  first = (take_component (c ∷ path)).0

  abbrev others : List ℕ
  others = skip_slashes (take_component (c ∷ path)).1

  first_null : null first ≡ false
  unfolding take_component
  first_null = ground (arith, e)

  first_component : components (c ∷ path) ≡ first ∷ components others
  unfolding components skip_slashes
  first_component = elim (split-take_component (c ∷ path)) [
    | inl (done, parts) ↦ ground (arith, first_null, parts, done)
    | inr (path', more, parts) ↦
        ground (arith, first_null, parts, more, components-skip_slashes path')
  ]

  shorter : length others < length (c ∷ path)
  unfolding take_component
  shorter =
      ground (arith, e, length-take_component path, length-skip_slashes (take_component path).1)

-- What a call of consume does: with no component left it returns NULL; else it takes the first one
-- off, and what it leaves is shorter, holds the other components, and is empty if there are none.
pub data Consumes (path : List ℕ) : Type 0 where
  no_component : components path ≡ [] → consume path ≡ none → Consumes path
  one_component :
      (name rest : List ℕ)
      → consume path ≡ some (name, rest)
      → components path ≡ name ∷ components rest
      → length rest < length path
      → null rest ≡ null (components rest)
      → Consumes path

pub consume_lem : (path : List ℕ) → Consumes path
unfolding consume components
consume_lem path = elim (skip_slashes-cases path) [
  | inl e ↦ no_component (sym (components-skip_slashes path) ∙ ap components e) (ap consume_from e)
  | inr (c, tail, ne, e) ↦
      one_component (first c tail ne) (others c tail ne) (ap consume_from e)
        (sym (components-skip_slashes path) ∙ ap components e ∙ first_component c tail ne)
        (omega (arith, shorter c tail ne, length-skip_slashes path, ap length e))
        (skip_slashes-null (take_component (c ∷ tail)).1
          ∙ ap null (sym (components-skip_slashes (take_component (c ∷ tail)).1)))
]
