-- ===== src/Memory/Lru/Init.antt =====
-- The order that lru_init sets up.
use pico_shell.Base.{
  List, [], ap, ap₂, arith, length, map, refl, some, subst, suc, zero, ℕ, ◌++◌, ◌+◌, ◌-◌, ◌<◌, ◌∙◌,
  ◌∷◌, ◌≡◌, ◌≢◌, ◌≤◌,
}
use pico_shell.Memory.Lru.{LruNode, link_frames, lru_init, num_frames, set_next, set_prev, single}
use pico_shell.Memory.Lru.Chain.{AllFresh, Fresh, Linked}
use pico_shell.Memory.Lru.Order.{IsOrder}

-- as many numbers as given, the first one first
unfoldable pub count_from : ℕ → ℕ → List ℕ
count_from a zero = []
count_from a (suc left) = a ∷ count_from (a + 1) left

count_from-Fresh : (c a left : ℕ) → c < a → c ≢ 1 → Fresh c (count_from a left ++ 1 ∷ [])
unfolding Fresh count_from
count_from-Fresh c a zero h ne = (ne, tt)
count_from-Fresh c a (suc left) h ne =
    (omega arith, count_from-Fresh c (a + 1) left (omega arith) ne)

count_from-AllFresh : (a left : ℕ) → 2 ≤ a → AllFresh (count_from a left ++ 1 ∷ [])
unfolding AllFresh count_from Fresh
count_from-AllFresh a zero h = (tt, tt)
count_from-AllFresh a (suc left) h = (
  count_from-Fresh a (a + 1) left (omega arith) (omega arith),
  count_from-AllFresh (a + 1) left (omega arith),
)

length-count_from : (a left : ℕ) → length (count_from a left) ≡ left
unfolding count_from
length-count_from a zero = refl
length-count_from a (suc left) = ap suc (length-count_from (a + 1) left)

link_frames-next :
    (nodes : ℕ → LruNode) (left frame last c : ℕ)
    → c < frame + 2
    → c ≢ last
    → (link_frames nodes left frame last c).next ≡ (nodes c).next
unfolding link_frames set_next set_prev
link_frames-next nodes zero frame last c h ne = ground arith
link_frames-next nodes (suc left) frame last c h ne =
    link_frames-next (set_prev (set_next nodes last (some (frame + 2))) (frame + 2) (some last))
      left (frame + 1) (frame + 2) c (omega arith) (omega arith)
    ∙ ground arith

link_frames-prev :
    (nodes : ℕ → LruNode) (left frame last c : ℕ)
    → c < frame + 2
    → c ≢ 1
    → (link_frames nodes left frame last c).prev ≡ (nodes c).prev
unfolding link_frames set_next set_prev
link_frames-prev nodes zero frame last c h ne = ground arith
link_frames-prev nodes (suc left) frame last c h ne =
    link_frames-prev (set_prev (set_next nodes last (some (frame + 2))) (frame + 2) (some last))
      left (frame + 1) (frame + 2) c (omega arith) ne
    ∙ ground arith

link_frames-frame :
    (nodes : ℕ → LruNode) (left frame last c : ℕ)
    → (link_frames nodes left frame last c).frame ≡ (nodes c).frame
unfolding link_frames set_next set_prev
link_frames-frame nodes zero frame last c = ground arith
link_frames-frame nodes (suc left) frame last c =
    link_frames-frame (set_prev (set_next nodes last (some (frame + 2))) (frame + 2) (some last))
      left (frame + 1) (frame + 2) c
    ∙ ground arith

link_frames-Linked :
    (nodes : ℕ → LruNode) (left frame last : ℕ)
    → last < frame + 2
    → Linked (link_frames nodes left frame last) last (count_from (frame + 2) left ++ 1 ∷ [])
unfolding link_frames set_next set_prev Linked count_from
link_frames-Linked nodes zero frame last h = (ground arith, ground arith, tt)
link_frames-Linked nodes (suc left) frame last h =
    let nodes' = set_prev (set_next nodes last (some (frame + 2))) (frame + 2) (some last) in
    (
      link_frames-next nodes' left (frame + 1) (frame + 2) last (omega arith) (omega arith)
          ∙ ground arith,
      link_frames-prev nodes' left (frame + 1) (frame + 2) (frame + 2) (omega arith) (omega arith)
          ∙ ground arith,
      subst
          (λ a.
            Linked (link_frames nodes' left (frame + 1) (frame + 2)) (frame + 2)
              (count_from a left ++ 1 ∷ []))
          (omega arith) (link_frames-Linked nodes' left (frame + 1) (frame + 2) (omega arith)),
    )

frames_from :
    (g : ℕ → ℕ) (k left : ℕ)
    → ((a : ℕ) → 2 ≤ a → g a ≡ a - 2)
    → map g (count_from (k + 2) left) ≡ count_from k left
unfolding count_from
frames_from g k zero h = refl
frames_from g k (suc left) h =
    ap₂ ◌∷◌ (h (k + 2) (omega arith) ∙ omega arith)
      (ap (λ a. map g (count_from a left)) (omega arith) ∙ frames_from g (k + 1) left h)

-- lru_init puts the frames in their own order, each linked to its neighbours, with the last one the
-- least recently used.
pub lru_init-IsOrder : IsOrder lru_init (count_from 0 num_frames)
unfolding lru_init AllFresh
lru_init-IsOrder = record {
  nodes = count_from 2 num_frames;
  linked = link_frames-Linked single num_frames 0 0 (omega arith);
  fresh = (
    count_from-Fresh 0 2 num_frames (omega arith) (omega arith),
    count_from-AllFresh 2 num_frames (omega arith),
  );
  dummy = link_frames-frame single num_frames 0 0 0;
  held_frames =
      frames_from (λ a. (lru_init.node a).frame) 0 num_frames
        (λ a h. link_frames-frame single num_frames 0 0 a ∙ ground arith);
  few = omega (arith, length-count_from 2 num_frames);
}
