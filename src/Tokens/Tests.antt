-- ===== src/Tokens/Tests.antt =====
-- `tokenize_command` at "a bc  d".
use doorhinges.Base.{ℕ, ◌≡◌, refl, List, [], ◌∷◌, ◌++◌, map, arith}
use doorhinges.Tokens.{tokenize_command}
use doorhinges.Tokens.Words.{tokenize_command-words}
use doorhinges.Tokens.Places.{words, text, unread}

abbrev line : List ℕ
line = 97 ∷ 32 ∷ 98 ∷ 99 ∷ 32 ∷ 32 ∷ 100 ∷ []

tokenize_command-words_example :
    words line
    ≡ map (text (tokenize_command line 3).chars) (tokenize_command line 3).tokens
      ++ unread (tokenize_command line 3).terminal line
tokenize_command-words_example = tokenize_command-words line 3 refl (omega arith)
