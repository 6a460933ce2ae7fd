-- ===== src/Pools/Refill.antt =====
-- What a pool gives, and how it is filled again.
use doorhinges.Base.{
  ℕ, zero, suc, ◌+◌, ◌≤◌, ◌<◌, ◌≡◌, refl, sym, ap, ◌∙◌, Bool, true, false, not, ◌&&◌, Option, none,
  some, List, [], ◌∷◌, ◌++◌, map, arith, length, ◌==◌, subst, map-append, length-map,
  eq_nil_of_length, get_or, drop,
}
use doorhinges.CycleQueue.{CycleQueue, Alloc, eg_cq_push, eg_cq_pop, is_spare}
use doorhinges.CycleQueue.Ring.{IsRing, elements_of}
use doorhinges.CycleQueue.Push.{eg_cq_push_lem, eg_cq_push-bt_index}
use doorhinges.CycleQueue.Pop.{eg_cq_pop_lem, eg_cq_pop_nil, eg_cq_pop-bt_index, eg_cq_pop-size}
use doorhinges.Pools.{
  CachePool, unset, block, head_size, set_head_buf, conns_from, create_with, create_conn,
  cache_pool_destroy, pop_or_create, cp_pop, cp_push,
}
use doorhinges.Pools.Created.{Contains, Holds, fill}

-- A queue with an element.
queue_pop :
    (cq : CycleQueue ℕ) (c t : ℕ) (cs used spare : List ℕ)
    → IsRing cq used (t ∷ spare)
    → elements_of cq.val used ≡ map some (c ∷ cs)
    → ((eg_cq_pop cq).1 ≡ some c)
      × (used' : List ℕ) × (a : ℕ) × IsRing (eg_cq_pop cq).0 used' (t ∷ (spare ++ a ∷ []))
      × (elements_of (eg_cq_pop cq).0.val used' ≡ map some cs)
queue_pop cq c t cs [] spare r e = absurd (omega (arith, ap length e))
queue_pop cq c t cs (a ∷ used) spare r e =
    let (given, shown, ring, same) = eg_cq_pop_lem {cq = cq} a t used spare r in
    (given ∙ some_first e, used, a, ring, same ∙ others e)
  where
    some_first : cq.val a ∷ elements_of cq.val used ≡ some c ∷ map some cs → cq.val a ≡ some c
    some_first p = ap (λ l. get_or l 0 none) p

    others :
        cq.val a ∷ elements_of cq.val used ≡ some c ∷ map some cs
        → elements_of cq.val used ≡ map some cs
    others p = ap (drop 1) p

gives :
    (bucket : Bool) (create_obj : CachePool → CachePool × Bool) (cp : CachePool) (cq : CycleQueue ℕ)
    (c : ℕ)
    → pop_or_create bucket create_obj cp (cq, some c) ≡ (record cp { cq = cq }, some c)
unfolding pop_or_create
gives true create_obj cp cq c = refl
gives false create_obj cp cq c = refl

-- `cp_pop` of a pool that has an object gives it.
pub cp_pop_lem :
    (bucket : Bool) (create_obj : CachePool → CachePool × Bool) (cp : CachePool) (c : ℕ)
    (cs : List ℕ)
    → Holds cp (c ∷ cs)
    → ((cp_pop bucket create_obj cp).1 ≡ some c) × Holds (cp_pop bucket create_obj cp).0 cs
unfolding cp_pop
cp_pop_lem bucket create_obj cp c cs h =
    let k = h.contained in
    let (given, used, a, ring, same) =
      queue_pop cp.cq c k.next_node cs k.used k.spare k.ring k.free in
    let out : cp_pop bucket create_obj cp ≡ (record cp { cq = (eg_cq_pop cp.cq).0 }, some c) =
      ap (λ o. pop_or_create bucket create_obj cp ((eg_cq_pop cp.cq).0, o)) given
      ∙ gives bucket create_obj cp (eg_cq_pop cp.cq).0 c in
    rw out (
      refl,
      record {
        contained = record {
          used = used;
          next_node = k.next_node;
          spare = k.spare ++ a ∷ [];
          ring = ring;
          free = same;
        };
        not_grown = eg_cq_pop-bt_index cp.cq ∙ h.not_grown;
      },
    )

same_length :
    (val : ℕ → Option ℕ) (used cs : List ℕ)
    → elements_of val used ≡ map some cs
    → length used ≡ length cs
same_length val used cs e = sym (length-map val used) ∙ ap length e ∙ length-map (λ c. some c) cs

-- Behind it there is a node to spare.
pub cp_pop-room :
    (bucket : Bool) (create_obj : CachePool → CachePool × Bool) (cp : CachePool) (c : ℕ)
    (cs : List ℕ)
    → Holds cp (c ∷ cs)
    → length cs + 2 ≤ (cp_pop bucket create_obj cp).0.cq.size
unfolding cp_pop
cp_pop-room bucket create_obj cp c cs h =
    let k = h.contained in
    let (given, used, a, ring, same) =
      queue_pop cp.cq c k.next_node cs k.used k.spare k.ring k.free in
    let out : cp_pop bucket create_obj cp ≡ (record cp { cq = (eg_cq_pop cp.cq).0 }, some c) =
      ap (λ o. pop_or_create bucket create_obj cp ((eg_cq_pop cp.cq).0, o)) given
      ∙ gives bucket create_obj cp (eg_cq_pop cp.cq).0 c in
    rw out (
      omega
        (arith, k.ring.counted, same_length cp.cq.val k.used (c ∷ cs) k.free, eg_cq_pop-size cp.cq))

-- `cp_push` of a pool with a node to spare adds the object behind the others.
pub cp_push_lem :
    (a : Alloc) (cp : CachePool) (c : ℕ) (cs : List ℕ)
    → Holds cp cs
    → length cs + 2 ≤ cp.cq.size
    → ((cp_push a cp c).1 ≡ 1) × Holds (cp_push a cp c).0 (cs ++ c ∷ [])
unfolding cp_push
cp_push_lem a cp c cs h room = with_node h.contained.spare h.contained.ring
  where
    with_node :
        (spare : List ℕ)
        → IsRing cp.cq h.contained.used (h.contained.next_node ∷ spare)
        → ((eg_cq_push a cp.cq (some c)).1 ≡ 1)
          × Holds (record cp { cq = (eg_cq_push a cp.cq (some c)).0 }) (cs ++ c ∷ [])
    with_node [] r =
        absurd
          (omega (arith, r.counted, same_length cp.cq.val h.contained.used cs h.contained.free))
    with_node (f ∷ spare) r =
        let keeps : (not (cp.cq.bt_index == 0) && is_spare cp.cq.btlist cp.cq) ≡ false =
          rw h.not_grown refl in
        let k = h.contained in
        let (one, p) = eg_cq_push_lem a (some c) k.next_node f k.used spare r keeps in
        (
          one,
          record {
            contained = record {
              used = k.used ++ k.next_node ∷ [];
              next_node = f;
              spare = spare;
              ring = p.ring;
              free =
                  p.elements
                  ∙ ap (λ l. l ++ some c ∷ []) k.free
                  ∙ sym (map-append some cs (c ∷ []));
            };
            not_grown =
                eg_cq_push-bt_index a (some c) k.next_node f k.used spare r keeps ∙ h.not_grown;
          },
        )

split_at :
    (n : ℕ) (xs : List ℕ)
    → n < length xs
    → (ts : List ℕ) × (f : ℕ) × (rest : List ℕ) × (xs ≡ ts ++ f ∷ rest) × (length ts ≡ n)
split_at n [] h = absurd (omega arith)
split_at zero (x ∷ xs) h = ([], x, xs, refl, refl)
split_at (suc n) (x ∷ xs) h =
    let (ts, f, rest, same, number) = split_at n xs (omega arith) in
    (x ∷ ts, f, rest, ap (λ l. x ∷ l) same, ap suc number)

-- `cp_pop` of an empty pool with one bucket of nodes, where the memory is there: it creates as many
-- objects as the newest bucket has, gives the first, and holds the others.
pub cp_pop-create_conn :
    (a : Alloc) (stride buf n : ℕ) (cp : CachePool)
    → Holds cp []
    → head_size cp.buckets ≡ suc n
    → suc n < cp.cq.size
    → let r = cp_pop true (create_conn stride a (some buf)) cp in
      (r.1 ≡ some buf)
      × Holds r.0 (conns_from stride (buf + stride) n)
      × (r.0.buckets ≡ record { size = suc n; buf = block buf } ∷ cp.buckets)
unfolding set_head_buf head_size conns_from cp_pop pop_or_create
cp_pop-create_conn a stride buf n cp h size room =
    let k = h.contained in
    let nothing : k.used ≡ [] = eq_nil_of_length k.used (same_length cp.cq.val k.used [] k.free) in
    let ring = subst (λ l. IsRing cp.cq l (k.next_node ∷ k.spare)) nothing k.ring in
    let (ts, f, rest, same, number) =
      split_at (suc n) (k.next_node ∷ k.spare) (omega (arith, ring.counted)) in
    let mid : CachePool = record cp {
      buckets = record { size = suc n; buf = unset } ∷ cp.buckets;
    } in
    let (ok, holds, buckets) =
      fill a stride buf (suc n) f ts rest mid number refl h.not_grown
        (subst (IsRing cp.cq []) same ring) in
    let made = (create_conn stride a (some buf) mid).0 in
    let left_in = holds.contained in
    let (given, used, p, ring', left) =
      queue_pop made.cq buf left_in.next_node (conns_from stride (buf + stride) n) left_in.used
        left_in.spare left_in.ring left_in.free in
    rw
      (
        ap (pop_or_create true (create_conn stride a (some buf)) cp)
            (eg_cq_pop_nil {cq = cp.cq} (k.next_node ∷ k.spare) ring).0,
        size,
        ok,
        given,
      )
      (
        refl,
        record {
          contained = record {
            used = used;
            next_node = left_in.next_node;
            spare = left_in.spare ++ p ∷ [];
            ring = ring';
            free = left;
          };
          not_grown = eg_cq_pop-bt_index made.cq ∙ holds.not_grown;
        },
        buckets,
      )

-- `cp_pop` of an empty pool when the memory for new objects is not there: it gives nothing, and the
-- pool keeps the bucket that it has made for them, whose `buf` has no value, so that
-- `cache_pool_destroy` frees what it finds there.
pub cp_pop_fail :
    (a : Alloc) (stride : ℕ) (cp : CachePool)
    → Contains cp []
    → let r = cp_pop true (create_conn stride a none) cp in
      (r.1 ≡ none)
      × (cache_pool_destroy r.0 ≡ ((cache_pool_destroy cp).0, unset ∷ (cache_pool_destroy cp).1))
unfolding cache_pool_destroy cp_pop pop_or_create create_conn create_with
cp_pop_fail a stride cp h =
    let nothing : h.used ≡ [] = eq_nil_of_length h.used (same_length cp.cq.val h.used [] h.free) in
    let ring = subst (λ l. IsRing cp.cq l (h.next_node ∷ h.spare)) nothing h.ring in
    rw
      (ap (pop_or_create true (create_conn stride a none) cp)
        (eg_cq_pop_nil {cq = cp.cq} (h.next_node ∷ h.spare) ring).0)
      (refl, refl)
