-- ===== src/Core/Tokens/Words.antt =====
-- A command is taken apart into the words that it was put together from.
use pico_shell.Base.{
  List, Option, [], ap, arith, false, inl, inr, length, length-append, ltb, not, refl, some, subst,
  suc, sym, true, zero, ℕ, ◌&&◌, ◌++◌, ◌+◌, ◌<◌, ◌==◌, ◌||◌, ◌∙◌, ◌∷◌, ◌≡◌, ◌≤◌, ◌⊎◌,
}
use pico_shell.Core.Interpreter.{join_words}
use pico_shell.Core.Tokens.{
  max_user_input, newline, skip_spaces, space, take_word, word_ending, words_after, words_from,
  words_of, words_round,
}
use mathlib.Core.List.{append_assoc}

-- no character of the word ends a word
unfoldable pub IsPlain : List ℕ → Type 0
IsPlain [] = Unit {0}
IsPlain (c ∷ word) = (word_ending c ≡ false) × IsPlain word

-- Words that are not empty, and that `tmp` holds.
unfoldable pub AllWords : List (List ℕ) → Type 0
unfolding IsPlain
AllWords [] = Unit {0}
AllWords (word ∷ words) = IsPlain word × (0 < length word) × (length word < 200) × AllWords words

-- what follows the last word: nothing, or the end of a line
pub data Ending : List ℕ → Type 0 where
  at_nul : Ending []
  at_newline : Ending (newline ∷ [])

take_word_end :
    (c : ℕ) (more : List ℕ) (ix : ℕ)
    → word_ending c ≡ true
    → take_word (c ∷ more) ix ≡ ([], c ∷ more)
unfolding take_word
take_word_end c more ix ends = ground (arith, ends)

take_word_char :
    (c : ℕ) (cmd : List ℕ) (ix : ℕ) (word rest : List ℕ)
    → take_word cmd (ix + 1) ≡ (word, rest)
    → word_ending c ≡ false
    → ix < max_user_input
    → take_word (c ∷ cmd) ix ≡ (c ∷ word, rest)
unfolding take_word
take_word_char c cmd ix word rest e plain h =
    let low : ltb ix max_user_input ≡ true = ground arith in rw (e, plain, low) refl

take_word_lem :
    (word rest : List ℕ) (ix : ℕ)
    → IsPlain word
    → ix + length word ≤ max_user_input
    → (rest ≡ []) ⊎ ((c : ℕ) × (more : List ℕ) × (rest ≡ c ∷ more) × (word_ending c ≡ true))
    → take_word (word ++ rest) ix ≡ (word, rest)
unfolding take_word IsPlain
take_word_lem [] rest ix p h (inl e) = ap (λ r. take_word r ix) e ∙ ap (λ r. ([], r)) (sym e)
take_word_lem [] rest ix p h (inr (c, more, e, ends)) =
    ap (λ r. take_word r ix) e ∙ take_word_end c more ix ends ∙ ap (λ r. ([], r)) (sym e)
take_word_lem (c ∷ word) rest ix p h ends =
    take_word_char c (word ++ rest) ix word rest
      (take_word_lem word rest (ix + 1) p.1 (omega arith) ends) p.0 (omega arith)

-- a round of the loop over a command that begins with a word
words_round_word :
    (more : List ℕ → ℕ → ℕ → Option (List (List ℕ))) (word rest : List ℕ) (ix count : ℕ)
    → IsPlain word
    → 0 < length word
    → length word < 200
    → count < 100
    → ix + length word ≤ max_user_input
    → (rest ≡ []) ⊎ ((c : ℕ) × (t : List ℕ) × (rest ≡ c ∷ t) × (word_ending c ≡ true))
    → words_round more (word ++ rest) ix count ≡ words_after more ix count (word, rest)
unfolding words_round IsPlain word_ending
words_round_word more [] rest ix count p some_char short few h ends = absurd (omega arith)
words_round_word more (c ∷ word) rest ix count p some_char short few h ends =
    let whole = take_word_lem (c ∷ word) rest ix p h ends in
    let inside : (c == newline || not (ltb ix max_user_input)) ≡ false = ground (arith, p.0) in
    let fits : (ltb (length (c ∷ word)) 200 && ltb count 100) ≡ true = ground arith in
    rw (inside, whole, fits) refl

-- the loop over words with a space between two
words_from-join_words :
    (word : List ℕ) (words : List (List ℕ)) (ending : List ℕ) (fuel ix count : ℕ)
    → AllWords (word ∷ words)
    → Ending ending
    → length words + 2 ≤ fuel
    → count + length words < 100
    → ix + length (join_words (word ∷ words)) ≤ max_user_input
    → words_from fuel (join_words (word ∷ words) ++ ending) ix count ≡ some (word ∷ words)
unfolding words_from words_after join_words AllWords word_ending words_round
words_from-join_words word words ending zero ix count w e f few h = absurd (omega arith)
words_from-join_words word [] ending (suc zero) ix count w e f few h = absurd (omega arith)
words_from-join_words word [] ending (suc (suc fuel)) ix count (p, s, b, w) at_nul f few h =
    words_round_word (words_from (suc fuel)) word [] ix count p s b (omega arith) h (inl refl)
words_from-join_words word [] ending (suc (suc fuel)) ix count (p, s, b, w) at_newline f few h =
    words_round_word (words_from (suc fuel)) word (newline ∷ []) ix count p s b (omega arith) h
      (inr (newline, [], refl, refl))
words_from-join_words word (next_word ∷ words) ending (suc fuel) ix count (p, s, b, w) e f few h =
    let tail = join_words (next_word ∷ words) ++ ending in
    let size = length-append word (space ∷ join_words (next_word ∷ words)) in
    ap (λ c. words_from (suc fuel) c ix count)
      (append_assoc word (space ∷ join_words (next_word ∷ words)) ending)
    ∙ words_round_word (words_from fuel) word (space ∷ tail) ix count p s b (omega arith)
        (omega (arith, h, size)) (inr (space, tail, refl, refl))
    ∙ rw
        (words_from-join_words next_word words ending fuel (ix + length word + 1) (count + 1) w e
          (omega arith) (omega arith) (omega (arith, h, size)))
        refl

first_plain :
    (word cmd : List ℕ)
    → IsPlain word
    → 0 < length word
    → skip_spaces (word ++ cmd) 0 ≡ (word ++ cmd, 0)
unfolding skip_spaces IsPlain word_ending
first_plain [] cmd p h = absurd (omega arith)
first_plain (c ∷ word) cmd p h = ground (arith, p.0)

skip_spaces-join_words :
    (word : List ℕ) (words : List (List ℕ)) (ending : List ℕ)
    → AllWords (word ∷ words)
    → skip_spaces (join_words (word ∷ words) ++ ending) 0 ≡ (join_words (word ∷ words) ++ ending, 0)
unfolding AllWords join_words
skip_spaces-join_words word [] ending (p, s, b, w) = first_plain word ending p s
skip_spaces-join_words word (next_word ∷ words) ending (p, s, b, w) =
    let e = append_assoc word (space ∷ join_words (next_word ∷ words)) ending in
    subst (λ c. skip_spaces c 0 ≡ (c, 0)) (sym e)
      (first_plain word (space ∷ join_words (next_word ∷ words) ++ ending) p s)

length-join_words :
    (word : List ℕ) (words : List (List ℕ))
    → AllWords (word ∷ words)
    → length words + 1 ≤ length (join_words (word ∷ words))
unfolding AllWords join_words
length-join_words word [] (p, s, b, w) = omega (arith, s)
length-join_words word (next_word ∷ words) (p, s, b, w) = omega (
  arith,
  length-join_words next_word words w,
  length-append word (space ∷ join_words (next_word ∷ words)),
)

-- A command that is made of at most a hundred words, with a space between two and with or without
-- the end of a line behind them, is taken apart into these words, where they have no space or end of
-- a line in them and fit the arrays of parseInput.
pub words_of-join_words :
    (word : List ℕ) (words : List (List ℕ)) (ending : List ℕ)
    → AllWords (word ∷ words)
    → Ending ending
    → length words < 100
    → length (join_words (word ∷ words)) ≤ max_user_input
    → words_of (join_words (word ∷ words) ++ ending) ≡ some (word ∷ words)
unfolding words_of
words_of-join_words word words ending w e few h =
    let cmd = join_words (word ∷ words) in
    ap (λ r. words_from (suc (length (cmd ++ ending))) r.0 r.1 0)
      (skip_spaces-join_words word words ending w)
    ∙ words_from-join_words word words ending (suc (length (cmd ++ ending))) 0 0 w e
        (omega (arith, length-join_words word words w, length-append cmd ending)) (omega arith)
        (omega (arith, h))
