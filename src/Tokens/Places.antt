-- ===== src/Tokens/Places.antt =====
-- Words of a line, and the places between which `tokenize_command` looks for one (ngix_module/AIS/ais.c).
use doorhinges.Base.{
  ℕ, ◌+◌, ◌≡◌, refl, sym, ap, subst, ◌∙◌, false, Option, none, some, List, [], ◌∷◌, ◌++◌, map,
  arith, length, length-append, if◌then◌else◌, ◌==◌, drop, append_assoc,
}
use doorhinges.Links.{has, has-append}
use doorhinges.Tokens.{Token, Scan, space, scan}

-- The non-empty runs of characters between spaces, the first one starting with `w`.
abbrev pub words_from : List ℕ → List ℕ → List (List ℕ)
words_from [] [] = []
words_from (a ∷ w) [] = (a ∷ w) ∷ []
words_from [] (c ∷ cs) = if c == space then words_from [] cs else words_from (c ∷ []) cs
words_from (a ∷ w) (c ∷ cs) =
    if c == space then (a ∷ w) ∷ words_from [] cs else words_from ((a ∷ w) ++ c ∷ []) cs

abbrev pub words : List ℕ → List (List ℕ)
words cs = words_from [] cs

-- The string that starts with a list of characters: those before the first NUL.
abbrev pub c_string : List ℕ → List ℕ
c_string [] = []
c_string (c ∷ cs) = if c == 0 then [] else c ∷ c_string cs

-- The string that a token of a scan points to.
abbrev pub text : List ℕ → Token → List ℕ
text chars t = c_string (drop t.value chars)

-- The words behind the terminal token.
abbrev pub unread : Option ℕ → List ℕ → List (List ℕ)
unread none command = []
unread (some p) command = words (drop p command)

pub drop-append : (xs ys : List ℕ) → drop (length xs) (xs ++ ys) ≡ ys
drop-append [] ys = refl
drop-append (x ∷ xs) ys = drop-append xs ys

pub c_string-append : (w cs : List ℕ) → has 0 w ≡ false → c_string cs ≡ [] → c_string (w ++ cs) ≡ w
c_string-append [] cs h e = e
c_string-append (c ∷ w) cs h e = ground (arith, c_string-append w cs)

pub words_from-space :
    (w cs : List ℕ) → (length w == 0) ≡ false → words_from w (space ∷ cs) ≡ w ∷ words cs
words_from-space [] cs h = absurd (ground arith)
words_from-space (a ∷ w) cs h = refl

words_from-end : (w : List ℕ) → (length w == 0) ≡ false → words_from w [] ≡ w ∷ []
words_from-end [] h = absurd (ground arith)
words_from-end (a ∷ w) h = refl

pub words_from-pass :
    (w : List ℕ) (c : ℕ) (cs : List ℕ)
    → (c == space) ≡ false
    → words_from w (c ∷ cs) ≡ words_from (w ++ c ∷ []) cs
words_from-pass [] c cs h = rw h refl
words_from-pass (a ∷ w) c cs h = rw h refl

-- Where a scan stands: `pre` and `w` are passed, `cs` is to come, and `out` is what became of `pre`.
pub record IsAt (command pre w cs : List ℕ) (s e : ℕ) : Type 0 where
  pub whole : command ≡ pre ++ (w ++ cs)
  pub start : length pre ≡ s
  pub here : s + length w ≡ e
  pub proper : has 0 (w ++ cs) ≡ false

pub IsAt-pass :
    {command pre w : List ℕ} {s e : ℕ} (c : ℕ) (cs : List ℕ)
    → IsAt command pre w (c ∷ cs) s e
    → IsAt command pre (w ++ c ∷ []) cs s (e + 1)
IsAt-pass {command} {pre} {w} c cs i = record {
  whole = i.whole ∙ ap (λ x. pre ++ x) (sym (append_assoc w (c ∷ []) cs));
  start = i.start;
  here = omega (arith, i.here, length-append w (c ∷ []));
  proper = rw (append_assoc w (c ∷ []) cs) i.proper;
}

pub IsAt-next :
    {command pre w : List ℕ} {s e : ℕ} (c : ℕ) (cs : List ℕ)
    → IsAt command pre w (c ∷ cs) s e
    → IsAt command (pre ++ (w ++ c ∷ [])) [] cs (e + 1) (e + 1)
IsAt-next {command} {pre} {w} c cs i = record {
  whole =
      i.whole
      ∙ sym (append_assoc pre (w ++ c ∷ []) cs ∙ ap (λ x. pre ++ x) (append_assoc w (c ∷ []) cs));
  start = omega (arith, i.here, i.start, length-append pre (w ++ c ∷ []), length-append w (c ∷ []));
  here = omega arith;
  proper = ground (arith, i.proper, has-append 0 w (c ∷ cs));
}

-- What the scan of the rest finds out: `b` stands for the characters that became of `pre`.
pub record IsScanned (command b w cs : List ℕ) (r : Scan) : Type 0 where
  pub found :
      words_from w cs ≡ map (text (b ++ (w ++ r.chars))) r.tokens ++ unread r.terminal command

pub scan-zero :
    {command pre : List ℕ} {s : ℕ} (b cs : List ℕ)
    → IsAt command pre [] cs s s
    → IsScanned command b [] cs (scan 0 s s cs)
unfolding scan
scan-zero {command} {pre} {s} b [] i = record { found = refl }
scan-zero {command} {pre} {s} b (c ∷ cs) i = record {
  found = ap words (
      sym (subst (λ n. drop n command ≡ c ∷ cs) i.start (rw (i.whole) (drop-append pre (c ∷ cs)))));
}
