-- ===== src/Core/Tokens/Commands.antt =====
-- An input is taken apart into the commands that it was put together from.
use pico_shell.Base.{
  List, [], ap, ap₂, arith, false, length, refl, suc, sym, take, zero, ℕ, ◌++◌, ◌<◌, ◌==◌, ◌∙◌, ◌∷◌,
  ◌≡◌, ◌≤◌,
}
use pico_shell.Core.Tokens.{add_token, max_num_commands, semicolon, split_commands, strtok_from}
use mathlib.Core.List.{append-nil}

-- no semicolon in the command
unfoldable pub IsWhole : List ℕ → Type 0
IsWhole [] = Unit {0}
IsWhole (c ∷ cmd) = (c == semicolon ≡ false) × IsWhole cmd

-- Commands that are not empty and have no semicolons.
unfoldable pub AllWhole : List (List ℕ) → Type 0
unfolding IsWhole
AllWhole [] = Unit {0}
AllWhole (cmd ∷ commands) = IsWhole cmd × (0 < length cmd) × AllWhole commands

-- the commands, with a semicolon between two
unfoldable pub join_commands : List (List ℕ) → List ℕ
join_commands [] = []
join_commands (cmd ∷ []) = cmd
join_commands (cmd ∷ next_cmd ∷ commands) = cmd ++ semicolon ∷ join_commands (next_cmd ∷ commands)

strtok_from-append :
    (cmd rest : List ℕ)
    → IsWhole cmd
    → strtok_from (cmd ++ rest) ≡ (cmd ++ (strtok_from rest).0, (strtok_from rest).1)
unfolding strtok_from IsWhole
strtok_from-append [] rest w = refl
strtok_from-append (c ∷ cmd) rest w = rw (w.0, strtok_from-append cmd rest w.1) refl

-- a command that is not empty is a token
add_token_some :
    (cmd : List ℕ) (tokens : List (List ℕ)) → 0 < length cmd → add_token cmd tokens ≡ cmd ∷ tokens
unfolding add_token
add_token_some [] tokens h = absurd (omega arith)
add_token_some (c ∷ cmd) tokens h = refl

strtok_from-join_commands :
    (cmd : List ℕ) (commands : List (List ℕ))
    → AllWhole (cmd ∷ commands)
    → strtok_from (join_commands (cmd ∷ commands)) ≡ (cmd, commands)
unfolding AllWhole join_commands strtok_from
strtok_from-join_commands cmd [] (w, s, v) =
    ap strtok_from (sym (append-nil cmd))
    ∙ strtok_from-append cmd [] w
    ∙ ap (λ c. (c, [])) (append-nil cmd)
strtok_from-join_commands cmd (next_cmd ∷ commands) (w, s, v) =
    let rest = strtok_from-join_commands next_cmd commands v in
    strtok_from-append cmd (semicolon ∷ join_commands (next_cmd ∷ commands)) w
    ∙ ap₂ (λ c t. (c, t)) (append-nil cmd)
        (ap (λ r. add_token r.0 r.1) rest ∙ add_token_some next_cmd commands v.1)

take_short : (n : ℕ) (l : List (List ℕ)) → length l ≤ n → take n l ≡ l
unfolding take
take_short zero [] h = refl
take_short zero (a ∷ l) h = absurd (omega arith)
take_short (suc n) [] h = refl
take_short (suc n) (a ∷ l) h = ap (a ∷◌) (take_short n l (omega arith))

-- An input that is made of at most a hundred commands, with a semicolon between two, is taken apart
-- into these commands, where none is empty or has a semicolon in it.
pub split_commands-join_commands :
    (cmd : List ℕ) (commands : List (List ℕ))
    → AllWhole (cmd ∷ commands)
    → length commands < max_num_commands
    → split_commands (join_commands (cmd ∷ commands)) ≡ cmd ∷ commands
unfolding split_commands AllWhole
split_commands-join_commands cmd commands w few =
    ap (λ r. take max_num_commands (add_token r.0 r.1)) (strtok_from-join_commands cmd commands w)
    ∙ ap (take max_num_commands) (add_token_some cmd commands w.1)
    ∙ take_short max_num_commands (cmd ∷ commands) (omega arith)
