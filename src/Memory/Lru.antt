-- ===== src/Memory/Lru.antt =====
-- memory/lru.c: the frames in the order of their use, in a doubly linked list between two dummies.
pub mod Chain
pub mod Move
pub mod Order
pub mod Init
pub mod Members
use pico_shell.Base.{
  Option, Ptr, and_then, if◌then◌else◌, ltb, minus_one, none, some, suc, zero, ℕ, ◌+◌, ◌-◌, ◌==◌,
}

-- Addresses of nodes are numbers; a pointer is an option.
pub record LruNode : Type 0 where
  pub frame : ℕ
  pub prev : Ptr ℕ
  pub next : Ptr ℕ

-- the nodes that the program has, with the static variables
pub record Lru : Type 0 where
  pub node : ℕ → LruNode
  pub head : ℕ
  pub tail : ℕ

-- `at->next = to`
unfoldable pub set_next : (ℕ → LruNode) → ℕ → Ptr ℕ → ℕ → LruNode
set_next nodes at to a = if a == at then record (nodes a) { next = to } else nodes a

-- `at->prev = to`
unfoldable pub set_prev : (ℕ → LruNode) → ℕ → Ptr ℕ → ℕ → LruNode
set_prev nodes at to a = if a == at then record (nodes a) { prev = to } else nodes a

-- What lru_init does for `left` frames from `frame` on, after the node `last`: a new node behind it
-- for each, and then the tail. Node 0 is the head, node 1 the tail, and malloc gives the node of
-- frame i the number i + 2.
unfoldable pub link_frames : (ℕ → LruNode) → ℕ → ℕ → ℕ → ℕ → LruNode
link_frames nodes zero frame last = set_prev (set_next nodes last (some 1)) 1 (some last)
link_frames nodes (suc left) frame last =
    link_frames (set_prev (set_next nodes last (some (frame + 2))) (frame + 2) (some last)) left
      (frame + 1) (frame + 2)

-- lru_node_init of every node
abbrev pub single : ℕ → LruNode
single a = record { frame = if ltb a 2 then minus_one else a - 2; prev = none; next = none }

abbrev pub num_frames : ℕ
num_frames = 100

unfoldable pub lru_init : Lru
unfolding link_frames
lru_init = record { node = link_frames single num_frames 0 0; head = 0; tail = 1 }

-- the frame of a node, where the pointer is not NULL
unfoldable pub frame_at : (ℕ → LruNode) → Ptr ℕ → Option ℕ
frame_at nodes none = none
frame_at nodes (some a) = some (nodes a).frame

-- `none` where the code follows NULL
unfoldable pub get_lru_frame : Lru → Option ℕ
unfolding frame_at
get_lru_frame s = frame_at s.node (s.node s.tail).prev

-- the search from a node on, which follows NULL for a frame that no node has
unfoldable pub find_node : (ℕ → LruNode) → ℕ → ℕ → Ptr ℕ → Option ℕ
find_node nodes zero frame at = none
find_node nodes (suc fuel) frame none = none
find_node nodes (suc fuel) frame (some a) =
    let rest = find_node nodes fuel frame (nodes a).next in
    if (nodes a).frame == frame then some a else rest

-- the node taken out of the list, between its neighbours
unfoldable pub unlink : (ℕ → LruNode) → ℕ → ℕ → ℕ → LruNode
unlink nodes left right = set_prev (set_next nodes left (some right)) right (some left)

-- the node put between the head and what follows it
unfoldable pub link_front : (ℕ → LruNode) → ℕ → ℕ → ℕ → ℕ → LruNode
link_front nodes head node right =
    set_prev
      (set_prev (set_next (set_next nodes head (some node)) node (some right)) right (some node))
      node (some head)

-- The list has two nodes more than there are frames.
unfoldable pub access_frame : ℕ → Lru → Option Lru
access_frame frame s = and_then (find_node s.node (num_frames + 2) frame (some s.head)) λ node.
    and_then (s.node node).prev λ left. and_then (s.node node).next λ right.
      and_then (unlink s.node left right s.head).next
        λ first. some (record s { node = link_front (unlink s.node left right) s.head node first })
