-- ===== src/Cache/Index.antt =====
-- What entity_cache relies on: boost::multi_index_container with an ordered unique index, in a
-- boost::interprocess segment. `K` is the type of whole keys, `Q` that of the keys or parts of keys
-- that a range is asked for, `E` that of the elements and `C` that of the containers.
use mathlib.Core.List.{Mem}
use vanilla_rtb.Base.{◌≡◌, ◌≢◌, All, filter, Bool, true, false, List, Option, none, some}

-- An operation that allocates, in a segment that can be full.
pub data Allocated (A : Type 0) : Type 0 where
  allocated : A → Allocated A
  bad_alloc : Allocated A

pub record UniqueIndex (K Q E C : Type 0) : Type 0 where
  pub key : E → K
  pub matches : Q → K → Bool
  pub find : K → C → Option E
  pub equal_range : Q → C → List E
  pub elements : C → List E
  pub insert : E → C → Allocated (C × Bool)
  -- `modify` on the element with the given key.
  pub modify : K → E → C → Allocated (C × Bool)
  pub erase : K → C → C
  pub clear : C → C
  -- Memory::grow and the attachment to the larger segment.
  pub grow : C → C

-- The documented behaviour.
pub record IsLawful {K Q E C : Type 0} (ix : UniqueIndex K Q E C) : Type 0 where
  pub find-key : (k : K) (c : C) (e : E) → ix.find k c ≡ some e → ix.key e ≡ k
  pub elements-found : (c : C) → All (λ e. ix.find (ix.key e) c ≡ some e) (ix.elements c)
  pub found_mem : (k : K) (c : C) (e : E) → ix.find k c ≡ some e → Mem e (ix.elements c)
  pub range-elements :
      (q : Q) (c : C) → ix.equal_range q c ≡ filter (λ e. ix.matches q (ix.key e)) (ix.elements c)
  -- An element is inserted unless its key is taken, and then nothing changes.
  pub insert_new :
      (e : E) (c c' : C) (ok : Bool)
      → ix.insert e c ≡ allocated (c', ok)
      → ix.find (ix.key e) c ≡ none
      → (ok ≡ true)
        × (ix.find (ix.key e) c' ≡ some e)
        × ((k : K) → k ≢ ix.key e → ix.find k c' ≡ ix.find k c)
  pub insert_taken :
      (e x : E) (c c' : C) (ok : Bool)
      → ix.insert e c ≡ allocated (c', ok)
      → ix.find (ix.key e) c ≡ some x
      → (ok ≡ false) × ((k : K) → ix.find k c' ≡ ix.find k c)
  -- A modified element takes its new key, unless another has it.
  pub modify_free :
      (k : K) (e x : E) (c c' : C) (ok : Bool)
      → ix.modify k e c ≡ allocated (c', ok)
      → ix.find k c ≡ some x
      → (ix.key e ≢ k → ix.find (ix.key e) c ≡ none)
      → (ok ≡ true)
        × (ix.find (ix.key e) c' ≡ some e)
        × (ix.key e ≢ k → ix.find k c' ≡ none)
        × ((j : K) → j ≢ ix.key e → j ≢ k → ix.find j c' ≡ ix.find j c)
  -- If another has it, the element is erased.
  pub modify_taken :
      (k : K) (e x y : E) (c c' : C) (ok : Bool)
      → ix.modify k e c ≡ allocated (c', ok)
      → ix.find k c ≡ some x
      → ix.key e ≢ k
      → ix.find (ix.key e) c ≡ some y
      → (ok ≡ false) × (ix.find k c' ≡ none) × ((j : K) → j ≢ k → ix.find j c' ≡ ix.find j c)
  pub erase_self : (k : K) (c : C) → ix.find k (ix.erase k c) ≡ none
  pub erase_other : (k j : K) (c : C) → j ≢ k → ix.find j (ix.erase k c) ≡ ix.find j c
  pub clear_all : (k : K) (c : C) → ix.find k (ix.clear c) ≡ none
  pub grow_keeps : (k : K) (c : C) → ix.find k (ix.grow c) ≡ ix.find k c
