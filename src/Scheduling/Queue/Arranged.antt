-- ===== src/Scheduling/Queue/Arranged.antt =====
-- Orders of the in_place processes, for the sort of the ready queue.
use pico_shell.Base.{List, [], ap, length, none, refl, suc, sym, ℕ, ◌∙◌, ◌∷◌, ◌≡◌}
use pico_shell.Memory.Lru.Chain.{AllFresh, Apart, Fresh}
use pico_shell.Memory.Manager.{Pcb}
use mathlib.Core.List.{Perm}
use mathlib.Core.List.Perm

-- two lists that exchanges of neighbours lead to
pub data Arranged : List ℕ → List ℕ → Type 0 where
  in_place : (l : List ℕ) → Arranged l l
  behind : (a : ℕ) (l m : List ℕ) → Arranged l m → Arranged (a ∷ l) (a ∷ m)
  neighbours : (a b : ℕ) (l : List ℕ) → Arranged (a ∷ b ∷ l) (b ∷ a ∷ l)
  in_turn : (l m n : List ℕ) → Arranged l m → Arranged m n → Arranged l n

pub Perm-Arranged : {l m : List ℕ} → Arranged l m → Perm l m
Perm-Arranged (in_place l) = Perm.refl l
Perm-Arranged (behind a l m r) = Perm.cons a (Perm-Arranged r)
Perm-Arranged (neighbours a b l) = Perm.swap b a l
Perm-Arranged (in_turn l m n r t) = Perm.trans (Perm-Arranged r) (Perm-Arranged t)

pub last_two : (x y z : ℕ) → Arranged (x ∷ y ∷ z ∷ []) (x ∷ z ∷ y ∷ [])
last_two x y z = behind x (y ∷ z ∷ []) (z ∷ y ∷ []) (neighbours y z [])

pub last_first : (x y z : ℕ) → Arranged (x ∷ y ∷ z ∷ []) (z ∷ x ∷ y ∷ [])
last_first x y z =
    in_turn (x ∷ y ∷ z ∷ []) (x ∷ z ∷ y ∷ []) (z ∷ x ∷ y ∷ []) (last_two x y z)
      (neighbours x z (y ∷ []))

pub first_last : (x y z : ℕ) → Arranged (x ∷ y ∷ z ∷ []) (y ∷ z ∷ x ∷ [])
first_last x y z =
    in_turn (x ∷ y ∷ z ∷ []) (y ∷ x ∷ z ∷ []) (y ∷ z ∷ x ∷ []) (neighbours x y (z ∷ []))
      (last_two y x z)

pub backwards : (x y z : ℕ) → Arranged (x ∷ y ∷ z ∷ []) (z ∷ y ∷ x ∷ [])
backwards x y z =
    in_turn (x ∷ y ∷ z ∷ []) (z ∷ x ∷ y ∷ []) (z ∷ y ∷ x ∷ []) (last_first x y z) (last_two z x y)

pub Fresh-Arranged : (c : ℕ) {l m : List ℕ} → Arranged l m → Fresh c l → Fresh c m
unfolding Fresh
Fresh-Arranged c (in_place l) f = f
Fresh-Arranged c (behind a l m r) f = (f.0, Fresh-Arranged c r f.1)
Fresh-Arranged c (neighbours a b l) f = (f.1.0, (f.0, f.1.1))
Fresh-Arranged c (in_turn l m n r t) f = Fresh-Arranged c t (Fresh-Arranged c r f)

pub AllFresh-Arranged : {l m : List ℕ} → Arranged l m → AllFresh l → AllFresh m
unfolding AllFresh Fresh
AllFresh-Arranged (in_place l) f = f
AllFresh-Arranged (behind a l m r) f = (Fresh-Arranged a r f.0, AllFresh-Arranged r f.1)
AllFresh-Arranged (neighbours a b l) f = ((λ e. f.0.0 (sym e), f.1.0), (f.0.1, f.1.1))
AllFresh-Arranged (in_turn l m n r t) f = AllFresh-Arranged t (AllFresh-Arranged r f)

pub Apart-Arranged : (r : List ℕ) {l m : List ℕ} → Arranged l m → Apart l r → Apart m r
unfolding Apart
Apart-Arranged r (in_place l) f = f
Apart-Arranged r (behind a l m e) f = (f.0, Apart-Arranged r e f.1)
Apart-Arranged r (neighbours a b l) f = (f.1.0, (f.0, f.1.1))
Apart-Arranged r (in_turn l m n e t) f = Apart-Arranged r t (Apart-Arranged r e f)

pub length-Arranged : {l m : List ℕ} → Arranged l m → length m ≡ length l
length-Arranged (in_place l) = refl
length-Arranged (behind a l m r) = ap suc (length-Arranged r)
length-Arranged (neighbours a b l) = refl
length-Arranged (in_turn l m n r t) = length-Arranged t ∙ length-Arranged r

-- processes without links
unfoldable pub AllUnlinked : (ℕ → Pcb) → List ℕ → Type 0
AllUnlinked process [] = Unit {0}
AllUnlinked process (a ∷ l) = ((process a).next ≡ none) × AllUnlinked process l

pub AllUnlinked-Arranged :
    (process : ℕ → Pcb) {l m : List ℕ}
    → Arranged l m
    → AllUnlinked process l
    → AllUnlinked process m
unfolding AllUnlinked
AllUnlinked-Arranged process (in_place l) f = f
AllUnlinked-Arranged process (behind a l m r) f = (f.0, AllUnlinked-Arranged process r f.1)
AllUnlinked-Arranged process (neighbours a b l) f = (f.1.0, (f.0, f.1.1))
AllUnlinked-Arranged process (in_turn l m n r t) f =
    AllUnlinked-Arranged process t (AllUnlinked-Arranged process r f)
