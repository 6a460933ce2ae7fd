-- ===== src/CycleQueue/Tests.antt =====
-- The theorems on the cycle queue at small rings of numbers.
use doorhinges.Base.{
  ℕ, ◌+◌, ◌≡◌, refl, true, false, none, some, [], ◌∷◌, ◌++◌, arith, if◌then◌else◌, ◌==◌,
}
use doorhinges.CycleQueue.{
  CycleQueue, Bucket, Alloc, allocate, newest_size, eg_cq_capity, eg_cq_empty, eg_cq_push,
  eg_cq_pop, eg_cq_head,
}
use doorhinges.CycleQueue.Ring.{IsRing, range, elements_of}
use doorhinges.CycleQueue.Pop.{eg_cq_pop_lem}
use doorhinges.CycleQueue.Push.{IsPushed, eg_cq_push_lem}
use doorhinges.CycleQueue.Grow.{eg_cq_push_grow}
use doorhinges.CycleQueue.Shrink.{eg_cq_push_shrink, eg_cq_push_lost}

-- A queue of two nodes, empty and with one element, which makes it full.
abbrev two_nodes : CycleQueue ℕ
two_nodes = record {
  size = 2;
  bt_index = 0;
  elements = 0;
  val_size = 0;
  head = 10;
  tail = 10;
  btlist = record { head = 0; node = 10; buf = none; size = 2 } ∷ [];
  next = λ p. if p == 10 then 11 else 10;
  buf = λ p. none;
  val = λ p. none;
}

abbrev one_used : CycleQueue ℕ
one_used = record two_nodes { tail = 11; val = λ p. if p == 10 then some 5 else none }

two_nodes-IsRing : IsRing two_nodes [] (10 ∷ 11 ∷ [])
two_nodes-IsRing = record {
  filled = refl;
  empties = (refl, (refl, refl));
  distinct = (refl, (refl, tt));
  counted = refl;
  cleared = (refl, (refl, tt));
}

one_used-IsRing : IsRing one_used (10 ∷ []) (11 ∷ [])
one_used-IsRing = record {
  filled = (refl, refl);
  empties = (refl, refl);
  distinct = (refl, (refl, tt));
  counted = refl;
  cleared = (refl, tt);
}

-- The queue with a second bucket behind the node 11, empty and with one element.
abbrev newest : Bucket
newest = record { head = 11; node = 20; buf = none; size = 2 }

abbrev four_nodes : CycleQueue ℕ
four_nodes = record two_nodes {
  size = 4;
  bt_index = 1;
  btlist = newest ∷ record { head = 0; node = 10; buf = none; size = 2 } ∷ [];
  next = λ p. if p == 10 then 11 else if p == 11 then 20 else if p == 20 then 21 else 10;
}

abbrev at_bucket : CycleQueue ℕ
at_bucket = record four_nodes { tail = 11; val = λ p. if p == 10 then some 5 else none }

four_nodes-IsRing : IsRing four_nodes [] ((10 ∷ []) ++ 11 ∷ (range 20 2 ++ []))
unfolding range
four_nodes-IsRing = record {
  filled = refl;
  empties = (refl, (refl, (refl, (refl, refl))));
  distinct = (refl, (refl, (refl, (refl, tt))));
  counted = refl;
  cleared = (refl, (refl, (refl, (refl, tt))));
}

at_bucket-IsRing : IsRing at_bucket (10 ∷ []) (11 ∷ range 20 2)
unfolding range
at_bucket-IsRing = record {
  filled = (refl, refl);
  empties = (refl, (refl, (refl, refl)));
  distinct = (refl, (refl, (refl, (refl, tt))));
  counted = refl;
  cleared = (refl, (refl, (refl, tt)));
}

-- Memory for two nodes at 20, and no memory.
abbrev at_20 : Alloc
at_20 = record { bucket = true; nodes = some 20; buffer = none }

abbrev no_memory : Alloc
no_memory = record { bucket = false; nodes = none; buffer = none }

eg_cq_pop_lem_example :
    ((eg_cq_pop one_used).1 ≡ some 5)
    × (eg_cq_head one_used ≡ some 5)
    × IsRing (eg_cq_pop one_used).0 [] (11 ∷ 10 ∷ [])
    × (elements_of (eg_cq_pop one_used).0.val [] ≡ elements_of one_used.val [])
eg_cq_pop_lem_example = eg_cq_pop_lem {cq = one_used} 10 11 [] [] one_used-IsRing

eg_cq_push_lem_example :
    ((eg_cq_push no_memory two_nodes (some 7)).1 ≡ 1)
    × IsPushed (some 7) two_nodes (eg_cq_push no_memory two_nodes (some 7)).0 [] 10 (11 ∷ [])
eg_cq_push_lem_example = eg_cq_push_lem no_memory (some 7) 10 11 [] [] two_nodes-IsRing refl

eg_cq_push_grow_example :
    ((eg_cq_push at_20 one_used (some 7)).1 ≡ 1)
    × IsPushed (some 7) one_used (eg_cq_push at_20 one_used (some 7)).0 (10 ∷ []) 11 (range 20 2)
    × (eg_cq_capity (eg_cq_push at_20 one_used (some 7)).0 ≡ eg_cq_capity one_used + 2)
unfolding newest_size allocate
eg_cq_push_grow_example =
    eg_cq_push_grow 20 1 none 11 (10 ∷ []) one_used-IsRing (λ p h. ground arith) at_20 (some 7) refl
      refl

eg_cq_push_shrink_example :
    ((eg_cq_push no_memory four_nodes (some 7)).1 ≡ 1)
    × IsPushed (some 7) four_nodes (eg_cq_push no_memory four_nodes (some 7)).0 [] 10 (11 ∷ [])
    × (eg_cq_capity (eg_cq_push no_memory four_nodes (some 7)).0 + 2 ≡ eg_cq_capity four_nodes)
eg_cq_push_shrink_example =
    eg_cq_push_shrink no_memory (some 7) newest
      (record { head = 0; node = 10; buf = none; size = 2 } ∷ []) 1 (10 ∷ []) [] [] 10 11 []
      four_nodes-IsRing refl refl (λ e. absurd (omega (arith, e))) refl

eg_cq_push_lost_example :
    ((eg_cq_push no_memory at_bucket (some 7)).1 ≡ 1)
    × (eg_cq_empty (eg_cq_push no_memory at_bucket (some 7)).0 ≡ true)
    × ((eg_cq_pop (eg_cq_push no_memory at_bucket (some 7)).0).1 ≡ none)
eg_cq_push_lost_example =
    eg_cq_push_lost no_memory (some 7) newest
      (record { head = 0; node = 10; buf = none; size = 2 } ∷ []) 1 (10 ∷ []) at_bucket-IsRing refl
      refl (λ e. absurd (omega (arith, e)))
