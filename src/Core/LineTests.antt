-- ===== src/Core/LineTests.antt =====
-- Lines and commands of the shell.
use pico_shell.Base.{List, [], arith, codes, refl, some, ◌++◌, ◌∷◌, ◌≡◌}
use pico_shell.Core.Interpreter.{cut_newline, interpreter, join_words}
use pico_shell.Core.Shell.{initial_mem, parse_input}
use pico_shell.Core.Shell.Line.{interpreter-set-print, parse_input-join_words}
use pico_shell.Core.Tests.{calm_host, note, started}
use pico_shell.Core.Tokens.{newline, split_commands, word_ending, words_of}
use pico_shell.Core.Tokens.Commands.{AllWhole, IsWhole, join_commands, split_commands-join_commands}
use pico_shell.Core.Tokens.Words.{AllWords, at_newline, words_of-join_words}
use pico_shell.Memory.Variables.{VarEntry, is_free, names_var}
use pico_shell.Memory.Variables.Map.{has_room, knows}
use pico_shell.System.{System, finished}

words_of-join_words_example :
    words_of (join_words (codes "echo" ∷ codes "a" ∷ []) ++ newline ∷ [])
    ≡ some (codes "echo" ∷ codes "a" ∷ [])
unfolding AllWords word_ending join_words
words_of-join_words_example =
    words_of-join_words (codes "echo") (codes "a" ∷ []) (newline ∷ [])
      (
        (refl, (refl, (refl, (refl, tt)))),
        omega arith,
        omega arith,
        ((refl, tt), omega arith, omega arith, tt),
      )
      at_newline (omega arith) (omega arith)

split_commands-join_commands_example :
    split_commands (join_commands (codes "ls" ∷ codes "ls" ∷ [])) ≡ codes "ls" ∷ codes "ls" ∷ []
unfolding AllWhole
split_commands-join_commands_example =
    split_commands-join_commands (codes "ls") (codes "ls" ∷ [])
      ((refl, (refl, tt)), omega arith, ((refl, (refl, tt)), omega arith, tt)) (omega arith)

parse_input-join_words_example :
    parse_input calm_host 3 (join_words (codes "ls" ∷ []) ++ newline ∷ []) started
    ≡ interpreter calm_host (parse_input calm_host 2) 2 (codes "ls" ∷ []) started
unfolding AllWords word_ending IsWhole join_words
parse_input-join_words_example =
    parse_input-join_words calm_host 2 (codes "ls") [] started
      ((refl, (refl, tt)), omega arith, omega arith, tt) (refl, (refl, (refl, tt))) (omega arith)
      (omega arith)

interpreter-set-print_example :
    (vstore : List VarEntry) × (interpreter calm_host note 9
        (codes "set" ∷ codes "x" ∷ codes "a" ∷ codes "b" ∷ [])
        started
      ≡ finished 0 (record started { mem = record initial_mem { vstore = vstore } }))
    × (interpreter calm_host note 9
          (codes "print" ∷ codes "x" ∷ [])
          (record started { mem = record initial_mem { vstore = vstore } })
        ≡ finished 0 (record started {
          mem = record initial_mem { vstore = vstore };
          out = join_words (codes "a" ∷ codes "b" ∷ []) ∷ [];
        }))
unfolding cut_newline knows has_room names_var is_free
interpreter-set-print_example =
    interpreter-set-print calm_host note note 9 9 (codes "x") (codes "a") (codes "b" ∷ []) started
      refl (omega arith) refl
