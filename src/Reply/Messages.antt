-- ===== src/Reply/Messages.antt =====
-- Lists of messages: the last one, and what all of them satisfy.
use mathlib.Core.List.{flatten}
use doorhinges.Base.{
  ℕ, zero, suc, ◌+◌, ◌-◌, ◌≤◌, ◌≡◌, refl, sym, ap, ◌∙◌, Bool, true, false, List, [], ◌∷◌, ◌++◌,
  arith, length, drop, append_assoc, append-nil, length-append,
}
use doorhinges.Reply.{take, last_message, append_last}
use doorhinges.Output.Pending.{flatten-append}

-- How many bytes a message has.
abbrev pub size : List (List ℕ) → ℕ
size m = length (flatten m)

-- Every message of a list has a property.
abbrev pub Each : (List (List ℕ) → Type 0) → List (List (List ℕ)) → Type 0
Each P [] = Unit {0}
Each P (m ∷ ms) = P m × Each P ms

-- A message without the header that a datagram has.
abbrev pub body : Bool → List (List ℕ) → List (List ℕ)
body true m = drop 1 m
body false m = m

-- What the messages carry, without the headers that datagrams have.
abbrev pub payload : Bool → List (List (List ℕ)) → List ℕ
payload udp [] = []
payload udp (m ∷ ms) = flatten (body udp m) ++ payload udp ms

-- A datagram has its header and fits; elsewhere a message may be anything.
abbrev pub Datagram : Bool → List (List ℕ) → Type 0
Datagram true m = (1 ≤ length m) × (size m ≤ 1400)
Datagram false m = Unit {0}

abbrev pub fragments : List (List (List ℕ)) → ℕ
fragments msgs = length (flatten msgs)

module _ (P : List (List ℕ) → Type 0) where
  pub Each-append :
      (ms : List (List (List ℕ))) (m : List (List ℕ)) → Each P ms → P m → Each P (ms ++ m ∷ [])
  Each-append [] m a p = (p, tt)
  Each-append (n ∷ ns) m a p = (a.0, Each-append ns m a.1 p)

  pub Each-append_last :
      (b : List ℕ) (ms : List (List (List ℕ)))
      → Each P ms
      → P (last_message ms ++ b ∷ [])
      → Each P (append_last b ms)
  Each-append_last b [] a p = tt
  Each-append_last b (m ∷ []) a p = (p, tt)
  Each-append_last b (m ∷ n ∷ ms) a p = (a.0, Each-append_last b (n ∷ ms) a.1 p)

  pub Each-last_message :
      (ms : List (List (List ℕ))) → 1 ≤ length ms → Each P ms → P (last_message ms)
  Each-last_message [] h a = absurd (omega arith)
  Each-last_message (m ∷ []) h a = a.0
  Each-last_message (m ∷ n ∷ ms) h a = Each-last_message (n ∷ ms) (omega arith) a.1

pub last_message-append :
    (ms : List (List (List ℕ))) (m : List (List ℕ)) → last_message (ms ++ m ∷ []) ≡ m
last_message-append [] m = refl
last_message-append (n ∷ []) m = refl
last_message-append (n ∷ k ∷ ns) m = last_message-append (k ∷ ns) m

pub last_message-append_last :
    (b : List ℕ) (ms : List (List (List ℕ)))
    → 1 ≤ length ms
    → last_message (append_last b ms) ≡ last_message ms ++ b ∷ []
last_message-append_last b [] h = absurd (omega arith)
last_message-append_last b (m ∷ []) h = refl
last_message-append_last b (m ∷ n ∷ []) h = refl
last_message-append_last b (m ∷ n ∷ k ∷ ms) h =
    last_message-append_last b (n ∷ k ∷ ms) (omega arith)

pub length-append_last :
    (b : List ℕ) (ms : List (List (List ℕ))) → length (append_last b ms) ≡ length ms
length-append_last b [] = refl
length-append_last b (m ∷ []) = refl
length-append_last b (m ∷ n ∷ ms) = ap suc (length-append_last b (n ∷ ms))

flatten_one : (b : List ℕ) → flatten (b ∷ []) ≡ b
unfolding flatten
flatten_one b = append-nil b

pub flatten-snoc : (m : List (List ℕ)) (b : List ℕ) → flatten (m ++ b ∷ []) ≡ flatten m ++ b
flatten-snoc m b = flatten-append m (b ∷ []) ∙ ap (λ l. flatten m ++ l) (flatten_one b)

pub size-snoc : (m : List (List ℕ)) (b : List ℕ) → size (m ++ b ∷ []) ≡ size m + length b
size-snoc m b = ap length (flatten-snoc m b) ∙ length-append (flatten m) b

pub length-snoc : (m : List (List ℕ)) (b : List ℕ) → length (m ++ b ∷ []) ≡ length m + 1
length-snoc m b = length-append m (b ∷ [])

body-snoc :
    (udp : Bool) (m : List (List ℕ)) (b : List ℕ)
    → Datagram udp m
    → body udp (m ++ b ∷ []) ≡ body udp m ++ b ∷ []
body-snoc true [] b d = absurd (omega arith)
body-snoc true (x ∷ m) b d = refl
body-snoc false m b d = refl

-- A fragment at the end of the last message comes behind what the messages carry.
pub payload-append_last :
    (udp : Bool) (b : List ℕ) (ms : List (List (List ℕ)))
    → 1 ≤ length ms
    → Each (Datagram udp) ms
    → payload udp (append_last b ms) ≡ payload udp ms ++ b
payload-append_last udp b [] h a = absurd (omega arith)
payload-append_last udp b (m ∷ []) h a =
    append-nil (flatten (body udp (m ++ b ∷ [])))
    ∙ ap flatten (body-snoc udp m b a.0)
    ∙ flatten-snoc (body udp m) b
    ∙ ap (λ l. l ++ b) (sym (append-nil (flatten (body udp m))))
payload-append_last udp b (m ∷ n ∷ ms) h a =
    ap (λ l. flatten (body udp m) ++ l) (payload-append_last udp b (n ∷ ms) (omega arith) a.1)
    ∙ sym (append_assoc (flatten (body udp m)) (payload udp (n ∷ ms)) b)

-- A message that carries nothing changes nothing.
pub payload-append :
    (udp : Bool) (ms : List (List (List ℕ))) (m : List (List ℕ))
    → flatten (body udp m) ≡ []
    → payload udp (ms ++ m ∷ []) ≡ payload udp ms
payload-append udp [] m e = append-nil (flatten (body udp m)) ∙ e
payload-append udp (n ∷ ns) m e = ap (λ l. flatten (body udp n) ++ l) (payload-append udp ns m e)

length-flatten : (xs ys : List (List (List ℕ))) → fragments (xs ++ ys) ≡ fragments xs + fragments ys
unfolding flatten
length-flatten [] ys = omega arith
length-flatten (x ∷ xs) ys = omega (
  arith,
  length-append x (flatten (xs ++ ys)),
  length-append x (flatten xs),
  length-flatten xs ys,
)

pub fragments-append :
    (ms : List (List (List ℕ))) (m : List (List ℕ))
    → fragments (ms ++ m ∷ []) ≡ fragments ms + length m
unfolding flatten
fragments-append ms m =
    length-flatten ms (m ∷ []) ∙ ap (λ k. fragments ms + length k) (append-nil m)

pub fragments-append_last :
    (b : List ℕ) (ms : List (List (List ℕ)))
    → 1 ≤ length ms
    → fragments (append_last b ms) ≡ fragments ms + 1
unfolding flatten
fragments-append_last b [] h = absurd (omega arith)
fragments-append_last b (m ∷ []) h =
    ap length (append-nil (m ++ b ∷ []))
    ∙ length-snoc m b
    ∙ ap (λ l. length l + 1) (sym (append-nil m))
fragments-append_last b (m ∷ n ∷ ms) h = omega (
  arith,
  length-append m (flatten (append_last b (n ∷ ms))),
  length-append m (flatten (n ∷ ms)),
  fragments-append_last b (n ∷ ms) (omega arith),
)

pub take-drop : (n : ℕ) (xs : List ℕ) → take n xs ++ drop n xs ≡ xs
take-drop zero xs = refl
take-drop (suc n) [] = refl
take-drop (suc n) (x ∷ xs) = ap (λ l. x ∷ l) (take-drop n xs)

pub length-take : (n : ℕ) (xs : List ℕ) → n ≤ length xs → length (take n xs) ≡ n
length-take zero xs h = refl
length-take (suc n) [] h = absurd (omega arith)
length-take (suc n) (x ∷ xs) h = ap suc (length-take n xs (omega arith))

pub length-drop : (n : ℕ) (xs : List ℕ) → length (drop n xs) ≡ length xs - n
length-drop zero xs = omega arith
length-drop (suc n) [] = omega arith
length-drop (suc n) (x ∷ xs) = length-drop n xs ∙ less
  where
    less : length xs - n ≡ suc (length xs) - suc n
    less = omega arith
