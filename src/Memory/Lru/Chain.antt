-- ===== src/Memory/Lru/Chain.antt =====
-- Lists of nodes that are linked in both directions.
use pico_shell.Base.{
  Bool, List, Ptr, [], arith, false, some, sym, ℕ, ◌++◌, ◌==◌, ◌||◌, ◌∷◌, ◌≡◌, ◌≢◌,
}
use pico_shell.Memory.Lru.{LruNode, set_next, set_prev}

-- the address is not in the list
unfoldable pub Fresh : ℕ → List ℕ → Type 0
Fresh a [] = Unit {0}
Fresh a (b ∷ l) = (a ≢ b) × Fresh a l

-- no address stands twice
unfoldable pub AllFresh : List ℕ → Type 0
unfolding Fresh
AllFresh [] = Unit {0}
AllFresh (a ∷ l) = Fresh a l × AllFresh l

unfoldable pub listed : ℕ → List ℕ → Bool
listed a [] = false
listed a (b ∷ l) = a == b || listed a l

-- each node of the list `a ∷ l` points to the next one, and back
unfoldable pub Linked : (ℕ → LruNode) → ℕ → List ℕ → Type 0
Linked nodes a [] = Unit {0}
Linked nodes a (b ∷ l) = ((nodes a).next ≡ some b) × ((nodes b).prev ≡ some a) × Linked nodes b l

-- the last address of `a ∷ l`
unfoldable pub last_of : ℕ → List ℕ → ℕ
last_of a [] = a
last_of a (b ∷ l) = last_of b l

-- a list in two parts
pub Linked-append :
    (nodes : ℕ → LruNode) (a : ℕ) (l : List ℕ) (b : ℕ) (r : List ℕ)
    → Linked nodes a l
    → (nodes (last_of a l)).next ≡ some b
    → (nodes b).prev ≡ some (last_of a l)
    → Linked nodes b r
    → Linked nodes a (l ++ b ∷ r)
unfolding Linked last_of
Linked-append nodes a [] b r u next prev v = (next, prev, v)
Linked-append nodes a (c ∷ l) b r u next prev v =
    (u.0, u.1, Linked-append nodes c l b r u.2 next prev v)

pub Linked-split :
    (nodes : ℕ → LruNode) (a : ℕ) (l : List ℕ) (b : ℕ) (r : List ℕ)
    → Linked nodes a (l ++ b ∷ r)
    → Linked nodes a l
      × ((nodes (last_of a l)).next ≡ some b)
      × ((nodes b).prev ≡ some (last_of a l))
      × Linked nodes b r
unfolding Linked last_of
Linked-split nodes a [] b r u = (tt, u.0, u.1, u.2)
Linked-split nodes a (c ∷ l) b r u =
    let (v, next, prev, w) = Linked-split nodes c l b r u.2 in ((u.0, u.1, v), next, prev, w)

-- all addresses of `a ∷ l` but the last
unfoldable pub init_of : ℕ → List ℕ → List ℕ
init_of a [] = []
init_of a (b ∷ l) = a ∷ init_of b l

pub Linked-set_next :
    (nodes : ℕ → LruNode) (c : ℕ) (to : Ptr ℕ) (a : ℕ) (l : List ℕ)
    → Fresh c (init_of a l)
    → Linked nodes a l
    → Linked (set_next nodes c to) a l
unfolding Linked Fresh init_of set_next
Linked-set_next nodes c to a [] f u = tt
Linked-set_next nodes c to a (b ∷ l) f u =
    (ground (arith, f.0, u.0), ground (arith, u.1), Linked-set_next nodes c to b l f.1 u.2)

pub Linked-set_prev :
    (nodes : ℕ → LruNode) (c : ℕ) (to : Ptr ℕ) (a : ℕ) (l : List ℕ)
    → Fresh c l
    → Linked nodes a l
    → Linked (set_prev nodes c to) a l
unfolding Linked Fresh set_prev
Linked-set_prev nodes c to a [] f u = tt
Linked-set_prev nodes c to a (b ∷ l) f u =
    (ground (arith, u.0), ground (arith, f.0, u.1), Linked-set_prev nodes c to b l f.1 u.2)

pub Fresh-append : (c : ℕ) (l r : List ℕ) → Fresh c (l ++ r) → Fresh c l × Fresh c r
unfolding Fresh
Fresh-append c [] r f = (tt, f)
Fresh-append c (a ∷ l) r f = let (u, v) = Fresh-append c l r f.1 in ((f.0, u), v)

pub Fresh-join : (c : ℕ) (l r : List ℕ) → Fresh c l → Fresh c r → Fresh c (l ++ r)
unfolding Fresh
Fresh-join c [] r f g = g
Fresh-join c (a ∷ l) r f g = (f.0, Fresh-join c l r f.1 g)

-- no address of the first list is in the second
unfoldable pub Apart : List ℕ → List ℕ → Type 0
Apart [] r = Unit {0}
Apart (a ∷ l) r = Fresh a r × Apart l r

pub AllFresh-append : (l r : List ℕ) → AllFresh (l ++ r) → AllFresh l × AllFresh r × Apart l r
unfolding AllFresh Apart
AllFresh-append [] r f = (tt, f, tt)
AllFresh-append (a ∷ l) r f =
    let (u, v) = Fresh-append a l r f.0 in
    let (x, y, z) = AllFresh-append l r f.1 in ((u, x), y, (v, z))

pub AllFresh-join : (l r : List ℕ) → AllFresh l → AllFresh r → Apart l r → AllFresh (l ++ r)
unfolding AllFresh Apart
AllFresh-join [] r f g h = g
AllFresh-join (a ∷ l) r f g h = (Fresh-join a l r f.0 h.0, AllFresh-join l r f.1 g h.1)

pub Apart-uncons : (l : List ℕ) (b : ℕ) (r : List ℕ) → Apart l (b ∷ r) → Fresh b l × Apart l r
unfolding Apart Fresh
Apart-uncons [] b r h = (tt, tt)
Apart-uncons (a ∷ l) b r h =
    let (u, v) = Apart-uncons l b r h.1 in ((λ e. h.0.0 (sym e), u), (h.0.1, v))

pub Apart-last : (a : ℕ) (l r : List ℕ) → Apart (a ∷ l) r → Fresh (last_of a l) r
unfolding Apart last_of
Apart-last a [] r h = h.0
Apart-last a (b ∷ l) r h = Apart-last b l r h.1

pub Fresh-init_of : (c a : ℕ) (l : List ℕ) → Fresh c (a ∷ l) → Fresh c (init_of a l)
unfolding Fresh init_of
Fresh-init_of c a [] f = tt
Fresh-init_of c a (b ∷ l) f = (f.0, Fresh-init_of c b l f.1)

pub Fresh-last_of : (c a : ℕ) (l : List ℕ) → Fresh c (a ∷ l) → c ≢ last_of a l
unfolding Fresh last_of
Fresh-last_of c a [] f = f.0
Fresh-last_of c a (b ∷ l) f = Fresh-last_of c b l f.1

pub last_of-init_of : (a : ℕ) (l : List ℕ) → AllFresh (a ∷ l) → Fresh (last_of a l) (init_of a l)
unfolding AllFresh Fresh last_of init_of
last_of-init_of a [] f = tt
last_of-init_of a (b ∷ l) f = (λ e. Fresh-last_of a b l f.0 (sym e), last_of-init_of b l f.1)
