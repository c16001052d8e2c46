-- ===== src/Memory/Lru/Order.antt =====
-- access_frame moves a frame to the front.
use pico_shell.Base.{
  List, [], and_then, ap, ap₂, arith, length, length-append, map, minus_one, refl, some, subst, suc,
  sym, zero, ℕ, ◌++◌, ◌+◌, ◌∙◌, ◌∷◌, ◌≡◌, ◌≢◌, ◌≤◌,
}
use pico_shell.Memory.Lru.{
  Lru, LruNode, access_frame, find_node, frame_at, get_lru_frame, num_frames,
}
use pico_shell.Memory.Lru.Chain.{AllFresh, Fresh, Linked, Linked-split, last_of}
use pico_shell.Memory.Lru.Move.{
  first_and_rest, moved, moved-AllFresh, moved-Linked, moved-frame, without-Linked,
}
use mathlib.Core.List.{append_assoc, map-append}

-- The nodes between the dummies, from the most recently used frame to the least, hold these frames.
pub record IsOrder (s : Lru) (frames : List ℕ) : Type 0 where
  pub nodes : List ℕ
  pub linked : Linked s.node s.head (nodes ++ s.tail ∷ [])
  pub fresh : AllFresh (s.head ∷ nodes ++ s.tail ∷ [])
  pub dummy : (s.node s.head).frame ≡ minus_one
  pub held_frames : map (λ a. (s.node a).frame) nodes ≡ frames
  pub few : length nodes ≤ num_frames

-- the nodes of a list of frames that is split at one
map-split :
    (frame_of : ℕ → ℕ) (nodes before : List ℕ) (f : ℕ) (after : List ℕ)
    → map frame_of nodes ≡ before ++ f ∷ after
    → (l : List ℕ) × (n : ℕ) × (r : List ℕ) × (nodes ≡ l ++ n ∷ r)
      × (map frame_of l ≡ before)
      × (frame_of n ≡ f)
      × (map frame_of r ≡ after)
map-split frame_of [] [] f after e = absurd (ground (arith, e))
map-split frame_of [] (b ∷ before) f after e = absurd (ground (arith, e))
map-split frame_of (n ∷ nodes) [] f after e =
    ([], n, nodes, refl, refl, ground (arith, e), ground (arith, e))
map-split frame_of (m ∷ nodes) (b ∷ before) f after e =
    let (l, n, r, parts, x, y, z) = map-split frame_of nodes before f after (ground (arith, e)) in
    (m ∷ l, n, r, ap (m ∷◌) parts, ground (arith, e, x), y, z)

find_node_lem :
    (nodes : ℕ → LruNode) (a : ℕ) (l : List ℕ) (n : ℕ) (r : List ℕ) (fuel f : ℕ)
    → Linked nodes a (l ++ n ∷ r)
    → (nodes a).frame ≢ f
    → Fresh f (map (λ c. (nodes c).frame) l)
    → (nodes n).frame ≡ f
    → length l + 2 ≤ fuel
    → find_node nodes fuel f (some a) ≡ some n
unfolding Linked Fresh find_node
find_node_lem nodes a l n r zero f u ne fresh at h = absurd (omega arith)
find_node_lem nodes a [] n r (suc zero) f u ne fresh at h = absurd (omega arith)
find_node_lem nodes a [] n r (suc (suc fuel)) f u ne fresh at h = ground (arith, u.0, ne, at)
find_node_lem nodes a (b ∷ l) n r (suc fuel) f u ne fresh at h = ground (
  arith,
  u.0,
  ne,
  find_node_lem nodes b l n r fuel f u.2 (λ e. fresh.0 (sym e)) fresh.1 at (omega arith),
)

map-congr : (g h : ℕ → ℕ) (l : List ℕ) → ((a : ℕ) → g a ≡ h a) → map g l ≡ map h l
map-congr g h [] e = refl
map-congr g h (a ∷ l) e = ap₂ ◌∷◌ (e a) (map-congr g h l e)

-- access_frame of a frame that the list has moves its node to the front and keeps the order of the
-- others.
pub access_frame-IsOrder :
    (s : Lru) (before : List ℕ) (f : ℕ) (after : List ℕ)
    → IsOrder s (before ++ f ∷ after)
    → Fresh f before
    → f ≢ minus_one
    → (s' : Lru) × (access_frame f s ≡ some s') × IsOrder s' (f ∷ before ++ after)
unfolding access_frame Linked
access_frame-IsOrder s before f after o new real =
    let (l, n, r, parts, x, y, z) =
      map-split (λ a. (s.node a).frame) o.nodes before f after o.held_frames in
    let (right, rest, ends) = first_and_rest r s.tail [] in
    let all : o.nodes ++ s.tail ∷ [] ≡ l ++ n ∷ right ∷ rest =
      ap (λ q. q ++ s.tail ∷ []) parts
      ∙ append_assoc l (n ∷ r) (s.tail ∷ [])
      ∙ ap (λ q. l ++ n ∷ q) ends in
    let u = subst (Linked s.node s.head) all o.linked in
    let g = subst (λ q. AllFresh (s.head ∷ q)) all o.fresh in
    let (v, next, prev, w) = Linked-split s.node s.head l n (right ∷ rest) u in
    let (m, tail, starts) = first_and_rest l right rest in
    let order : n ∷ m ∷ tail ≡ (n ∷ l ++ r) ++ s.tail ∷ [] =
      ap (n ∷◌) (sym starts ∙ ap (l ++◌) (sym ends) ∙ sym (append_assoc l r (s.tail ∷ []))) in
    let frames = moved-frame s.node s.head l n right rest u g m tail starts in
    let found =
      find_node_lem s.node s.head l n (right ∷ rest) (num_frames + 2) f u (omega (arith, o.dummy))
        (subst (Fresh f) (sym x) new) y
        (omega (arith, o.few, ap length parts, length-append l (n ∷ r))) in
    let first = (without-Linked s.node s.head l n right rest u g m tail starts).0 in
    (
      record s { node = moved s.node s.head l n right rest u g m tail starts },
      rw (found, and_then, prev, w.0, first) refl,
      record {
        nodes = n ∷ l ++ r;
        linked =
            subst (Linked (moved s.node s.head l n right rest u g m tail starts) s.head) order
              (moved-Linked s.node s.head l n right rest u g m tail starts);
        fresh =
            subst (λ q. AllFresh (s.head ∷ q)) order
              (moved-AllFresh s.node s.head l n right rest u g m tail starts);
        dummy = frames s.head ∙ o.dummy;
        held_frames =
            map-congr (λ a. (moved s.node s.head l n right rest u g m tail starts a).frame)
              (λ a. (s.node a).frame) (n ∷ l ++ r) frames
            ∙ ap₂ ◌∷◌ y (map-append (λ a. (s.node a).frame) l r ∙ ap₂ ◌++◌ x z);
        few = omega (arith, o.few, ap length parts, length-append l (n ∷ r), length-append l r);
      },
    )

Linked-last :
    (nodes : ℕ → LruNode) (a : ℕ) (l : List ℕ) (t : ℕ)
    → Linked nodes a (l ++ t ∷ [])
    → (nodes t).prev ≡ some (last_of a l)
unfolding Linked
Linked-last nodes a l t u = (Linked-split nodes a l t [] u).2

last_of-append : (a : ℕ) (l : List ℕ) (n : ℕ) → last_of a (l ++ n ∷ []) ≡ n
unfolding last_of
last_of-append a [] n = refl
last_of-append a (b ∷ l) n = last_of-append b l n

map_nil : (g : ℕ → ℕ) (l : List ℕ) → map g l ≡ [] → l ≡ []
map_nil g [] e = refl
map_nil g (a ∷ l) e = absurd (ground (arith, e))

-- get_lru_frame returns the last frame of the order, the least recently used one.
pub get_lru_frame_lem :
    (s : Lru) (before : List ℕ) (f : ℕ) → IsOrder s (before ++ f ∷ []) → get_lru_frame s ≡ some f
unfolding get_lru_frame frame_at
get_lru_frame_lem s before f o =
    let (l, n, r, parts, x, y, z) =
      map-split (λ a. (s.node a).frame) o.nodes before f [] o.held_frames in
    let whole : o.nodes ≡ l ++ n ∷ [] =
      parts ∙ ap (λ q. l ++ n ∷ q) (map_nil (λ a. (s.node a).frame) r z) in
    let back =
      Linked-last s.node s.head (l ++ n ∷ []) s.tail
        (subst (λ q. Linked s.node s.head (q ++ s.tail ∷ [])) whole o.linked) in
    rw (back, last_of-append s.head l n) (ap some y)
