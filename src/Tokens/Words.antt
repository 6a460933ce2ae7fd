-- ===== src/Tokens/Words.antt =====
-- The tokens are the words of the command.
use doorhinges.Base.{
  ℕ, zero, suc, ◌+◌, ◌-◌, ◌≤◌, ◌<◌, ◌≡◌, refl, sym, ap, ap₂, subst, ◌∙◌, true, false, List, [], ◌∷◌,
  ◌++◌, map, arith, length, length-append, ◌==◌, ==_iff, eq_nil_of_length, drop, append_assoc,
  Bool-cases, inl, inr,
}
use doorhinges.Links.{has, has-append}
use doorhinges.Tokens.{Scan, space, scan, tokenize_command, add_token, pass}
use doorhinges.Tokens.Places.{
  words_from, words, c_string, text, unread, drop-append, c_string-append, words_from-space,
  words_from-pass, IsAt, IsAt-pass, IsAt-next, IsScanned, scan-zero,
}

split_behind : (b w out : List ℕ) (c : ℕ) → b ++ (w ++ c ∷ out) ≡ (b ++ (w ++ c ∷ [])) ++ out
split_behind b w out c =
    ap (λ x. b ++ x) (sym (append_assoc w (c ∷ []) out)) ∙ sym (append_assoc b (w ++ c ∷ []) out)

split_within : (b w out : List ℕ) (c : ℕ) → b ++ (w ++ c ∷ out) ≡ b ++ ((w ++ c ∷ []) ++ out)
split_within b w out c = ap (λ x. b ++ x) (sym (append_assoc w (c ∷ []) out))

no_nul :
    {command pre w : List ℕ} {s e : ℕ} (cs : List ℕ) → IsAt command pre w cs s e → has 0 w ≡ false
no_nul {w = w} cs i = ground (arith, i.proper, has-append 0 w cs)

-- Adding a token that starts behind `b` and ends before a NUL.
add_token-found :
    {s : ℕ} (n : ℕ) (b w out : List ℕ)
    → length b ≡ s
    → has 0 w ≡ false
    → c_string out ≡ []
    → text (b ++ (w ++ out)) (record { value = s; length = n }) ≡ w
add_token-found n b w out size h e =
    ap c_string (subst (λ n. drop n (b ++ (w ++ out)) ≡ w ++ out) size (drop-append b (w ++ out)))
    ∙ c_string-append w out h e

scan-end :
    {command pre : List ℕ} {s e : ℕ} (room : ℕ) (b w : List ℕ)
    → length b ≡ s
    → IsAt command pre w [] s e
    → IsScanned command b w [] (scan (suc room) s e [])
unfolding scan add_token
scan-end {s = s} {e} room b [] size i = rw (same, scan) (record { found = refl })
  where
    same : (s == e) ≡ true
    same = ground (arith, i.here)
scan-end {s = s} {e} room b (a ∷ w) size i =
    rw (differ, scan)
      (record {
        found =
            ap (λ x. x ∷ []) (sym (add_token-found (e - s) b (a ∷ w) [] size (no_nul [] i) refl));
      })
  where
    differ : (s == e) ≡ false
    differ = ground (arith, i.here)

-- The result for a passed character, from that for what follows it.
pass-IsScanned :
    {command : List ℕ} (b w cs : List ℕ) (c : ℕ) (r : Scan)
    → (c == space) ≡ false
    → IsScanned command b (w ++ c ∷ []) cs r
    → IsScanned command b w (c ∷ cs) (pass c r)
unfolding pass
pass-IsScanned {command} b w cs c r h n = record {
  found =
      words_from-pass w c cs h
      ∙ n.found
      ∙ ap (λ x. map (text x) r.tokens ++ unread r.terminal command)
          (sym (split_within b w r.chars c));
}

blank-IsScanned :
    {command : List ℕ} (b cs : List ℕ) (c : ℕ) (r : Scan)
    → (c == space) ≡ true
    → IsScanned command (b ++ c ∷ []) [] cs r
    → IsScanned command b [] (c ∷ cs) (pass c r)
unfolding pass
blank-IsScanned {command} b cs c r h n = record {
  found =
      rw h n.found
      ∙ ap (λ x. map (text x) r.tokens ++ unread r.terminal command)
          (append_assoc b (c ∷ []) r.chars);
}

token-IsScanned :
    {command : List ℕ} {s : ℕ} (e : ℕ) (b w cs : List ℕ) (c : ℕ) (r : Scan)
    → (c == space) ≡ true
    → (length w == 0) ≡ false
    → length b ≡ s
    → has 0 w ≡ false
    → IsScanned command (b ++ (w ++ 0 ∷ [])) [] cs r
    → IsScanned command b w (c ∷ cs) (add_token s e (pass 0 r))
unfolding pass add_token
token-IsScanned {command} {s} e b w cs c r h long size proper n = record {
  found =
      ap (λ x. words_from w (x ∷ cs)) ((==_iff c space).0 h)
      ∙ words_from-space w cs long
      ∙ ap₂ ◌∷◌ (sym (add_token-found (e - s) b w (0 ∷ r.chars) size proper refl)) (
          n.found
          ∙ ap (λ x. map (text x) r.tokens ++ unread r.terminal command)
              (sym (split_behind b w r.chars 0)));
}

module _ {command : List ℕ} (room c : ℕ) (cs : List ℕ) where
  -- The scan of one character, from the scans of what follows it.
  scan-step :
      ((pre b w : List ℕ) (s e : ℕ)
        → length b ≡ s
        → IsAt command pre w cs s e
        → IsScanned command b w cs (scan (suc room) s e cs))
      → ((pre b : List ℕ) (e : ℕ)
          → length b ≡ e
          → IsAt command pre [] cs e e
          → IsScanned command b [] cs (scan room e e cs))
      → (pre b w : List ℕ) (s e : ℕ) → length b ≡ s
      → IsAt command pre w (c ∷ cs) s e
      → IsScanned command b w (c ∷ cs) (scan (suc room) s e (c ∷ cs))
  unfolding scan
  scan-step more less pre b w s e size i = elim (Bool-cases (c == space)) [
    | inr h ↦
        rw (h, scan)
          (pass-IsScanned b w cs c (scan (suc room) s (e + 1) cs) h
            (more pre b (w ++ c ∷ []) s (e + 1) size (IsAt-pass c cs i)))
    | inl h ↦ elim (Bool-cases (s == e)) [
      | inl same ↦
          let none_yet : w ≡ [] = eq_nil_of_length w (ground (arith, i.here)) in
          subst (λ v. IsScanned command b v (c ∷ cs) (scan (suc room) s e (c ∷ cs))) (sym none_yet)
            (rw (h, same, scan)
              (blank-IsScanned b cs c (scan (suc room) (e + 1) (e + 1) cs) h (
                more (pre ++ (w ++ c ∷ [])) (b ++ c ∷ []) [] (e + 1) (e + 1)
                  (ground (arith, size, length-append b (c ∷ []))) (IsAt-next c cs i))))
      | inr differ ↦
          rw (h, differ, scan)
            (token-IsScanned e b w cs c (scan room (e + 1) (e + 1) cs) h (ground (arith, i.here))
              size (no_nul (c ∷ cs) i)
              (less (pre ++ (w ++ c ∷ [])) (b ++ (w ++ 0 ∷ [])) (e + 1)
                (omega
                  (arith, size, i.here, length-append b (w ++ 0 ∷ []), length-append w (0 ∷ [])))
                (IsAt-next c cs i)))
    ]
  ]

scan-words :
    {command : List ℕ} (room : ℕ) (cs pre b w : List ℕ) (s e : ℕ)
    → length b ≡ s
    → IsAt command pre w cs s e
    → IsScanned command b w cs (scan (suc room) s e cs)
scan-words room [] pre b w s e size i = scan-end room b w size i
scan-words zero (c ∷ cs) pre b w s e size i =
    scan-step zero c cs (scan-words zero cs) (λ pre b e size i. scan-zero b cs i) pre b w s e size i
scan-words (suc room) (c ∷ cs) pre b w s e size i =
    scan-step (suc room) c cs (scan-words (suc room) cs)
      (λ pre b e size i. scan-words room cs pre b [] e e size i) pre b w s e size i

-- `tokenize_command` of a command with no NUL in it, for at least one token: the strings that its
-- tokens point to, in the buffer as it is afterwards, and the words behind the terminal token, if
-- that points anywhere, are the words of the command, in their order. A word is a longest run of
-- characters that are not spaces.
pub tokenize_command-words :
    (command : List ℕ) (max_tokens : ℕ)
    → has 0 command ≡ false
    → 1 < max_tokens
    → (let r = tokenize_command command max_tokens in
        words command ≡ map (text r.chars) r.tokens ++ unread r.terminal command)
unfolding tokenize_command
tokenize_command-words command max_tokens proper more =
    let room : max_tokens - 1 ≡ suc (max_tokens - 2) = omega arith in
    rw room
      (scan-words (max_tokens - 2) command [] [] [] 0 0 refl
        (record { whole = refl; start = refl; here = omega arith; proper = proper })).found

scan-room : (room s e : ℕ) (cs : List ℕ) → length (scan room s e cs).tokens ≤ room
unfolding scan add_token pass
scan-room zero s e [] = ground arith
scan-room zero s e (c ∷ cs) = ground arith
scan-room (suc room) s e [] = ground arith
scan-room (suc room) s e (c ∷ cs) = ground (
  arith,
  scan-room room (e + 1) (e + 1) cs,
  scan-room (suc room) (e + 1) (e + 1) cs,
  scan-room (suc room) s (e + 1) cs,
)

-- `tokenize_command` fills at most `max_tokens - 1` places, so that the terminal token has one.
pub tokenize_command-room :
    (command : List ℕ) (max_tokens : ℕ)
    → length (tokenize_command command max_tokens).tokens ≤ max_tokens - 1
unfolding tokenize_command
tokenize_command-room command max_tokens = scan-room (max_tokens - 1) 0 0 command
