-- ===== src/Tokens.antt =====
-- ngix_module/AIS/ais.c, `tokenize_command`: a command line is cut at its spaces, in place.
--
-- The command is the list of its characters before the NUL, none of which is 0; a pointer into it
-- is an offset from its start.
pub mod Places
pub mod Words
pub mod Tests
use doorhinges.Base.{ℕ, zero, suc, ◌+◌, ◌-◌, Option, none, some, List, [], ◌∷◌, ◌==◌, true, false}

-- `token_t`; the terminal token is not one of these.
pub record Token : Type 0 where
  pub value : ℕ
  pub length : ℕ

-- The tokens with a length, `value` of the terminal token, and the characters after the scan.
pub record Scan : Type 0 where
  pub tokens : List Token
  pub terminal : Option ℕ
  pub chars : List ℕ

abbrev pub space : ℕ
space = 32

-- What the loop does after the token `s` to `e` is added, and after a character is passed.
pub add_token : ℕ → ℕ → Scan → Scan
add_token s e r = record r { tokens = record { value = s; length = e - s } ∷ r.tokens }

pub pass : ℕ → Scan → Scan
pass c r = record r { chars = c ∷ r.chars }

-- The loop, with `room` for that many tokens, at the character `e`, where the current token starts
-- at `s`.
pub scan : ℕ → ℕ → ℕ → List ℕ → Scan
unfolding add_token pass
scan zero s e [] = record { tokens = []; terminal = none; chars = [] }
scan zero s e (c ∷ cs) = record { tokens = []; terminal = some e; chars = c ∷ cs }
scan (suc room) s e [] = elim (s == e) [
  | true ↦ record { tokens = []; terminal = none; chars = [] }
  | false ↦ add_token s e (record { tokens = []; terminal = none; chars = [] })
]
scan (suc room) s e (c ∷ cs) = elim (c == space) [
  | true ↦ elim (s == e) [
    | true ↦ pass c (scan (suc room) (e + 1) (e + 1) cs)
    | false ↦ add_token s e (pass 0 (scan room (e + 1) (e + 1) cs))
  ]
  | false ↦ pass c (scan (suc room) s (e + 1) cs)
]

-- `tokenize_command`. Its result is the number of these tokens and the terminal one.
pub tokenize_command : List ℕ → ℕ → Scan
unfolding scan
tokenize_command command max_tokens = scan (max_tokens - 1) 0 0 command
