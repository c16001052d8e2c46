-- ===== src/Memory/Lru/Members.antt =====
-- The frames of the order, as a set.
use pico_shell.Base.{
  Bool-cases, List, [], ap, arith, inl, inr, leb, ltb, refl, suc, sym, true, zero, ℕ, ◌&&◌, ◌++◌,
  ◌+◌, ◌<◌, ◌==◌, ◌||◌, ◌∙◌, ◌∷◌, ◌≡◌,
}
use pico_shell.Memory.Lru.{num_frames}
use pico_shell.Memory.Lru.Chain.{Fresh, listed}
use pico_shell.Memory.Lru.Init.{count_from}

-- The order has every frame, and nothing else.
pub record Complete (l : List ℕ) : Type 0 where
  pub every : (f : ℕ) → f < num_frames → listed f l ≡ true
  pub only : (f : ℕ) → listed f l ≡ true → f < num_frames

-- a member of a list, at its first place
pub listed-split :
    (f : ℕ) (l : List ℕ)
    → listed f l ≡ true
    → (before : List ℕ) × (after : List ℕ) × (l ≡ before ++ f ∷ after) × Fresh f before
unfolding listed Fresh
listed-split f [] h = absurd (ground (arith, h))
listed-split f (a ∷ l) h = elim (Bool-cases (f == a)) [
  | inl e ↦ let here : f ≡ a = ground (arith, e) in ([], l, ap (λ q. q ∷ l) (sym here), tt)
  | inr e ↦
      let (before, after, parts, new) = listed-split f l (ground (arith, h, e)) in
      (a ∷ before, after, ap (a ∷◌) parts, (ground (arith, e), new))
]

listed-append : (f : ℕ) (l r : List ℕ) → listed f (l ++ r) ≡ (listed f l || listed f r)
unfolding listed
listed-append f [] r = refl
listed-append f (a ∷ l) r = ground (arith, listed-append f l r)

listed-front :
    (g f : ℕ) (before after : List ℕ)
    → listed g (f ∷ before ++ after) ≡ listed g (before ++ f ∷ after)
unfolding listed
listed-front g f before after =
    ground (arith, listed-append g before after, listed-append g before (f ∷ after))

-- moving a frame to the front keeps the set
pub Complete-front :
    (f : ℕ) (before after : List ℕ)
    → Complete (before ++ f ∷ after)
    → Complete (f ∷ before ++ after)
Complete-front f before after c = record {
  every = λ g h. listed-front g f before after ∙ c.every g h;
  only = λ g h. c.only g (sym (listed-front g f before after) ∙ h);
}

-- a list that is not empty, up to its last element
ends_in : (a : ℕ) (l : List ℕ) → (front : List ℕ) × (f : ℕ) × (a ∷ l ≡ front ++ f ∷ [])
ends_in a [] = ([], a, refl)
ends_in a (b ∷ l) = let (front, f, e) = ends_in b l in (a ∷ front, f, ap (a ∷◌) e)

listed-last : (front : List ℕ) (f : ℕ) → listed f (front ++ f ∷ []) ≡ true
unfolding listed
listed-last front f = ground (arith, listed-append f front (f ∷ []))

-- the order's last frame
pub Complete-last :
    (l : List ℕ)
    → Complete l
    → (front : List ℕ) × (f : ℕ) × (l ≡ front ++ f ∷ []) × (f < num_frames)
unfolding listed
Complete-last [] c = absurd (ground (arith, c.every 0 (omega arith)))
Complete-last (a ∷ l) c =
    let (front, f, e) = ends_in a l in
    (front, f, e, c.only f (ap (listed f) e ∙ listed-last front f))

listed-count_from : (f a left : ℕ) → listed f (count_from a left) ≡ (leb a f && ltb f (a + left))
unfolding listed count_from
listed-count_from f a zero = ground arith
listed-count_from f a (suc left) = ground (arith, listed-count_from f (a + 1) left)

-- the order that lru_init sets up
pub count_from-Complete : Complete (count_from 0 num_frames)
count_from-Complete = record {
  every = λ f h. listed-count_from f 0 num_frames ∙ ground arith;
  only = λ f h. ground (arith, listed-count_from f 0 num_frames);
}
