-- ===== src/Memory/Frames/Vacancies.antt =====
-- How many frames fstore_find_available_frame can still find.
use pico_shell.Base.{
  Bool-cases, ap, ap₂, arith, false, if◌then◌else◌, inl, inr, refl, suc, zero, ℕ, ◌+◌, ◌<◌, ◌==◌,
  ◌≡◌, ◌≢◌, ◌≤◌,
}
use pico_shell.Memory.Frames.{FrameStore}
use pico_shell.Memory.Frames.Store.{vacant}

-- how many of the first frames are vacant
unfoldable pub vacancies : FrameStore → ℕ → ℕ
vacancies s zero = 0
vacancies s (suc n) = vacancies s n + (if vacant s n then 1 else 0)

vacancies_same :
    (s s' : FrameStore) (n : ℕ)
    → ((f : ℕ) → f < n → vacant s' f ≡ vacant s f)
    → vacancies s' n ≡ vacancies s n
unfolding vacancies
vacancies_same s s' zero same = refl
vacancies_same s s' (suc n) same =
    ap₂ (λ k b. k + (if b then 1 else 0)) (vacancies_same s s' n (λ f h. same f (omega arith)))
      (same n (omega arith))

-- a change of one frame
pub vacancies_but_one :
    (s s' : FrameStore) (frame n : ℕ)
    → ((f : ℕ) → f ≢ frame → vacant s' f ≡ vacant s f)
    → vacancies s n ≤ vacancies s' n + 1
unfolding vacancies
vacancies_but_one s s' frame zero same = omega arith
vacancies_but_one s s' frame (suc n) same = elim (Bool-cases (n == frame)) [
  | inl e ↦
      let below = vacancies_same s s' n (λ f h. same f (λ u. absurd (ground (arith, u, h, e)))) in
      elim (Bool-cases (vacant s n)) [
        | inl v ↦ rw v (omega (arith, below))
        | inr v ↦ rw v (omega (arith, below))
      ]
  | inr e ↦
      let here = same n (ground (arith, e)) in
      let rest = vacancies_but_one s s' frame n same in
      elim (Bool-cases (vacant s n)) [
        | inl v ↦ rw (here, v) (omega (arith, rest))
        | inr v ↦ rw (here, v) (omega (arith, rest))
      ]
]

pub vacancies_none :
    (s : FrameStore) (n : ℕ) → ((f : ℕ) → f < n → vacant s f ≡ false) → vacancies s n ≡ 0
unfolding vacancies
vacancies_none s zero full = refl
vacancies_none s (suc n) full =
    rw (full n (omega arith)) (ap (λ k. k + 0) (vacancies_none s n (λ f h. full f (omega arith))))
