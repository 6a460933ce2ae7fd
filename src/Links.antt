-- ===== src/Links.antt =====
-- Linked nodes on a store: where a `next` function leads, and lists of distinct addresses.
use doorhinges.Base.{
  ℕ, ◌≡◌, refl, sym, ap₂, subst, ==_refl, Bool, true, false, ◌||◌, List, [], ◌∷◌, ◌++◌, map, arith,
  if◌then◌else◌, ◌==◌,
}

-- A write to one place of a store.
abbrev pub update {ℓ} : {A : Type ℓ} → (ℕ → A) → ℕ → A → ℕ → A
update f p x q = if p == q then x else f q

-- `next` leads from `p` through the nodes of a list to `q`.
abbrev pub Leads : (ℕ → ℕ) → ℕ → List ℕ → ℕ → Type 0
Leads next p [] q = p ≡ q
Leads next p (a ∷ as') q = (p ≡ a) × Leads next (next a) as' q

abbrev pub has : ℕ → List ℕ → Bool
has p [] = false
has p (a ∷ as') = a == p || has p as'

abbrev pub Distinct : List ℕ → Type 0
Distinct [] = Unit {0}
Distinct (a ∷ as') = (has a as' ≡ false) × Distinct as'

pub Leads-append :
    (next : ℕ → ℕ) (p q r : ℕ) (as' bs : List ℕ)
    → Leads next p as' q
    → Leads next q bs r
    → Leads next p (as' ++ bs) r
Leads-append next p q r [] bs l m = subst (λ x. Leads next x bs r) (sym l) m
Leads-append next p q r (a ∷ as') bs l m = (l.0, Leads-append next (next a) q r as' bs l.1 m)

-- A write to a node outside the list does not change where it leads.
pub Leads-update :
    (next : ℕ → ℕ) (w x p q : ℕ) (as' : List ℕ)
    → has w as' ≡ false
    → Leads next p as' q
    → Leads (update next w x) p as' q
Leads-update next w x p q [] h l = l
Leads-update next w x p q (a ∷ as') h l =
    let keeps : update next w x a ≡ next a = ground arith in
    (l.0, rw keeps (Leads-update next w x (next a) q as' (ground arith) l.1))

pub has-append : (p : ℕ) (as' bs : List ℕ) → has p (as' ++ bs) ≡ (has p as' || has p bs)
has-append p [] bs = refl
has-append p (a ∷ as') bs = ground (arith, has-append p as' bs)

-- A node outside a list is outside its parts.
pub has-append_parts :
    (p : ℕ) (as' bs : List ℕ) → has p (as' ++ bs) ≡ false → (has p as' ≡ false) × (has p bs ≡ false)
has-append_parts p as' bs h = ground (arith, has-append p as' bs)

-- A node may move from the front to the end.
pub Distinct-snoc :
    (a : ℕ) (as' : List ℕ) → has a as' ≡ false → Distinct as' → Distinct (as' ++ a ∷ [])
Distinct-snoc a [] h d = (refl, tt)
Distinct-snoc a (b ∷ bs) h d =
    (ground (arith, has-append b bs (a ∷ [])), Distinct-snoc a bs (ground arith) d.1)

pub Distinct-right : (as' bs : List ℕ) → Distinct (as' ++ bs) → Distinct bs
Distinct-right [] bs d = d
Distinct-right (a ∷ as') bs d = Distinct-right as' bs d.1

-- A node of the second part is not in the first.
pub Distinct-apart :
    (p : ℕ) (as' bs : List ℕ) → Distinct (as' ++ bs) → has p bs ≡ true → has p as' ≡ false
Distinct-apart p [] bs d h = refl
Distinct-apart p (a ∷ as') bs d h =
    ground (arith, Distinct-apart p as' bs d.1, has-append a as' bs, d.0)

pub map-update {ℓ} :
    {A : Type ℓ} (f : ℕ → A) (p : ℕ) (x : A) (as' : List ℕ)
    → has p as' ≡ false
    → map (update f p x) as' ≡ map f as'
map-update f p x [] h = refl
map-update f p x (a ∷ as') h = ground (arith, map-update f p x as')

pub map_congr {ℓ} :
    {A : Type ℓ} (f g : ℕ → A) (as' : List ℕ)
    → ((p : ℕ) → has p as' ≡ true → f p ≡ g p)
    → map f as' ≡ map g as'
map_congr f g [] same = refl
map_congr f g (a ∷ as') same =
    ap₂ ◌∷◌ (same a (rw (==_refl a) refl)) (map_congr f g as' (λ p h. same p (ground arith)))

-- Where `next` is unchanged on the list, it leads the same way.
pub Leads-congr :
    (next next' : ℕ → ℕ) (p q : ℕ) (as' : List ℕ)
    → ((a : ℕ) → has a as' ≡ true → next' a ≡ next a)
    → Leads next p as' q
    → Leads next' p as' q
Leads-congr next next' p q [] same l = l
Leads-congr next next' p q (a ∷ as') same l = (
  l.0,
  rw (same a (rw (==_refl a) refl))
      (Leads-congr next next' (next a) q as' (λ b h. same b (ground arith)) l.1),
)

pub Distinct-append :
    (as' bs : List ℕ)
    → Distinct as'
    → Distinct bs
    → ((p : ℕ) → has p as' ≡ true → has p bs ≡ false)
    → Distinct (as' ++ bs)
Distinct-append [] bs d e apart = e
Distinct-append (a ∷ as') bs d e apart = (
  ground (arith, has-append a as' bs, d.0, apart a (rw (==_refl a) refl)),
  Distinct-append as' bs d.1 e (λ p h. apart p (ground arith)),
)

pub Distinct-left : (as' bs : List ℕ) → Distinct (as' ++ bs) → Distinct as'
Distinct-left [] bs d = tt
Distinct-left (a ∷ as') bs d = ((has-append_parts a as' bs d.0).0, Distinct-left as' bs d.1)
