-- ===== src/Core/Tokens.antt =====
-- The first half of parseInput in core/shell.c: an input's commands, and a command's words. Strings
-- have no terminator here.
pub mod Words
pub mod Commands
use pico_shell.Base.{
  Bool, List, Option, [], and_then, if◌then◌else◌, length, ltb, none, not, some, suc, take, zero, ℕ,
  ◌&&◌, ◌+◌, ◌==◌, ◌||◌, ◌∷◌,
}

abbrev pub max_user_input : ℕ
max_user_input = 1000

abbrev pub max_num_commands : ℕ
max_num_commands = 100

abbrev pub semicolon : ℕ
semicolon = b';'

abbrev pub space : ℕ
space = b' '

abbrev pub newline : ℕ
newline = 10

-- a token, which strtok returns if it is not empty, before the others
unfoldable pub add_token : List ℕ → List (List ℕ) → List (List ℕ)
add_token [] tokens = tokens
add_token (c ∷ token) tokens = (c ∷ token) ∷ tokens

-- the characters up to the next semicolon, and the tokens after it
unfoldable pub strtok_from : List ℕ → List ℕ × List (List ℕ)
unfolding add_token
strtok_from [] = ([], [])
strtok_from (c ∷ inp) =
    let (token, tokens) = strtok_from inp in
    if c == semicolon then ([], add_token token tokens) else (c ∷ token, tokens)

-- the first loop
unfoldable pub split_commands : List ℕ → List (List ℕ)
unfolding strtok_from take
split_commands inp =
    let (token, tokens) = strtok_from inp in take max_num_commands (add_token token tokens)

unfoldable pub word_ending : ℕ → Bool
word_ending c = c == 0 || c == newline || c == space

-- `for (ix = 0; commands[i][ix] == ' ' && ix < MAX_USER_INPUT; ix++)`: what is left, and `ix`
unfoldable pub skip_spaces : List ℕ → ℕ → List ℕ × ℕ
skip_spaces [] ix = ([], ix)
skip_spaces (c ∷ cmd) ix =
    let rest = skip_spaces cmd (ix + 1) in
    if c == space && ltb ix max_user_input then rest else (c ∷ cmd, ix)

-- the loop that extracts a word: the word, and what is left
unfoldable pub take_word : List ℕ → ℕ → List ℕ × List ℕ
unfolding word_ending
take_word [] ix = ([], [])
take_word (c ∷ cmd) ix =
    let (word, rest) = take_word cmd (ix + 1) in
    if not (word_ending c) && ltb ix max_user_input then (c ∷ word, rest) else ([], c ∷ cmd)

-- What follows a word, which is in front of the result; `more` is the next round of the loop.
unfoldable pub words_after :
    (List ℕ → ℕ → ℕ → Option (List (List ℕ))) → ℕ → ℕ → List ℕ × List ℕ → Option (List (List ℕ))
words_after more ix count (word, []) = some (word ∷ [])
words_after more ix count (word, c ∷ rest) =
    and_then (more rest (ix + length word + 1) (count + 1)) λ words. some (word ∷ words)

-- A round of the loop over a command. `none` where a word does not fit `tmp` or there are more than
-- `words` holds: the code writes past their ends.
unfoldable pub words_round :
    (List ℕ → ℕ → ℕ → Option (List (List ℕ))) → List ℕ → ℕ → ℕ → Option (List (List ℕ))
unfolding words_after take_word
words_round more [] ix count = some []
words_round more (c ∷ cmd) ix count =
    if c == newline || not (ltb ix max_user_input)
    then some []
    else if ltb (length (take_word (c ∷ cmd) ix).0) 200 && ltb count 100
    then words_after more ix count (take_word (c ∷ cmd) ix)
    else none

-- the loop; each round shortens the command, so that its length is fuel enough
unfoldable pub words_from : ℕ → List ℕ → ℕ → ℕ → Option (List (List ℕ))
unfolding words_round
words_from zero cmd ix count = none
words_from (suc fuel) cmd ix count = words_round (words_from fuel) cmd ix count

unfoldable pub words_of : List ℕ → Option (List (List ℕ))
unfolding words_from skip_spaces
words_of cmd = let (rest, ix) = skip_spaces cmd 0 in words_from (suc (length cmd)) rest ix 0
