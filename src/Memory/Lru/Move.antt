-- ===== src/Memory/Lru/Move.antt =====
-- A node taken out of the list and put behind the head.
-- the node taken out
use pico_shell.Base.{List, [], arith, refl, some, subst, sym, ℕ, ◌++◌, ◌∙◌, ◌∷◌, ◌≡◌}
use pico_shell.Memory.Lru.{LruNode, link_front, set_next, set_prev, unlink}
use pico_shell.Memory.Lru.Chain.{
  AllFresh, AllFresh-append, AllFresh-join, Apart-last, Apart-uncons, Fresh, Fresh-append,
  Fresh-init_of, Fresh-join, Linked, Linked-append, Linked-set_next, Linked-set_prev, Linked-split,
  last_of, last_of-init_of,
}

module _ (nodes : ℕ → LruNode) (head : ℕ) (l : List ℕ) (n right : ℕ) (r : List ℕ)
    (u : Linked nodes head (l ++ n ∷ right ∷ r)) (f : AllFresh (head ∷ l ++ n ∷ right ∷ r)) where
  abbrev left : ℕ
  left = last_of head l

  unlink-Linked : Linked (unlink nodes left right) head (l ++ right ∷ r)
  unfolding unlink Fresh AllFresh Linked set_next set_prev
  unlink-Linked =
      let (v, next, prev, w) = Linked-split nodes head l n (right ∷ r) u in
      let (x, y, z) = AllFresh-append (head ∷ l) (n ∷ right ∷ r) f in
      let (n_fresh, z') = Apart-uncons (head ∷ l) n (right ∷ r) z in
      let (right_fresh, z'') = Apart-uncons (head ∷ l) right r z' in
      Linked-append (unlink nodes left right) head l right r
        (Linked-set_prev (set_next nodes left (some right)) right (some left) head l right_fresh.1
          (Linked-set_next nodes left (some right) head l (last_of-init_of head l x) v))
        (ground arith) (ground arith)
        (Linked-set_prev (set_next nodes left (some right)) right (some left) right r y.1.0 (
          Linked-set_next nodes left (some right) right r
            (Fresh-init_of left right r (Apart-last head l (right ∷ r) z')) w.2))

-- the node put behind the head
module _ (nodes : ℕ → LruNode) (head n m : ℕ) (rest : List ℕ) (u : Linked nodes head (m ∷ rest))
    (f : AllFresh (head ∷ n ∷ m ∷ rest)) where
  link_front-Linked : Linked (link_front nodes head n m) head (n ∷ m ∷ rest)
  unfolding link_front Fresh AllFresh Linked set_next set_prev
  link_front-Linked =
      let h : Fresh head (n ∷ m ∷ rest) = f.0 in
      let g : Fresh n (m ∷ rest) = f.1.0 in
      let base = set_next (set_next nodes head (some n)) n (some m) in
      (
        ground (arith, h.0),
        ground arith,
        (
          ground (arith, h.0, g.0),
          ground (arith, g.0),
          Linked-set_prev (set_prev base m (some n)) n (some head) m rest g.1 (
              Linked-set_prev base m (some n) m rest f.1.1.0 (
                Linked-set_next (set_next nodes head (some n)) n (some m) m rest
                  (Fresh-init_of n m rest g)
                  (Linked-set_next nodes head (some n) m rest (Fresh-init_of head m rest h.1)
                    u.2))),
        ),
      )

unlink-frame :
    (nodes : ℕ → LruNode) (left right a : ℕ) → (unlink nodes left right a).frame ≡ (nodes a).frame
unfolding unlink set_next set_prev
unlink-frame nodes left right a = ground arith

link_front-frame :
    (nodes : ℕ → LruNode) (head n m a : ℕ) → (link_front nodes head n m a).frame ≡ (nodes a).frame
unfolding link_front set_next set_prev
link_front-frame nodes head n m a = ground arith

-- the first of a list that is not empty
pub first_and_rest :
    (l : List ℕ) (t : ℕ) (r : List ℕ) → (m : ℕ) × (rest : List ℕ) × (l ++ t ∷ r ≡ m ∷ rest)
first_and_rest [] t r = (t, r, refl)
first_and_rest (m ∷ l) t r = (m, l ++ t ∷ r, refl)

AllFresh-front :
    (head : ℕ) (l : List ℕ) (n : ℕ) (r : List ℕ)
    → AllFresh (head ∷ l ++ n ∷ r)
    → AllFresh (head ∷ n ∷ l ++ r)
unfolding AllFresh Fresh
AllFresh-front head l n r f =
    let (x, y, z) = AllFresh-append (head ∷ l) (n ∷ r) f in
    let (n_fresh, z') = Apart-uncons (head ∷ l) n r z in
    let (h, g) = Fresh-append head l (n ∷ r) f.0 in
    (
      (λ e. n_fresh.0 (sym e), Fresh-join head l r h g.1),
      (
        Fresh-join n l r n_fresh.1 y.0,
        AllFresh-join l r x.1 y.1 (Apart-uncons l n r (AllFresh-append l (n ∷ r) f.1).2).1,
      ),
    )

-- the node moved to the front of `m ∷ tail`, the list without it
module _ (nodes : ℕ → LruNode) (head : ℕ) (l : List ℕ) (n right : ℕ) (rest : List ℕ)
    (u : Linked nodes head (l ++ n ∷ right ∷ rest)) (f : AllFresh (head ∷ l ++ n ∷ right ∷ rest))
    (m : ℕ) (tail : List ℕ) (starts : l ++ right ∷ rest ≡ m ∷ tail) where
  abbrev pub without : ℕ → LruNode
  without = unlink nodes (last_of head l) right

  abbrev pub moved : ℕ → LruNode
  moved = link_front without head n m

  pub without-Linked : Linked without head (m ∷ tail)
  without-Linked = subst (Linked without head) starts (unlink-Linked nodes head l n right rest u f)

  pub moved-AllFresh : AllFresh (head ∷ n ∷ m ∷ tail)
  moved-AllFresh =
      subst (λ q. AllFresh (head ∷ n ∷ q)) starts (AllFresh-front head l n (right ∷ rest) f)

  pub moved-Linked : Linked moved head (n ∷ m ∷ tail)
  moved-Linked = link_front-Linked without head n m tail without-Linked moved-AllFresh

  pub moved-frame : (a : ℕ) → (moved a).frame ≡ (nodes a).frame
  moved-frame a = link_front-frame without head n m a ∙ unlink-frame nodes (last_of head l) right a
