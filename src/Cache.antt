-- ===== src/Cache.antt =====
-- rtb/datacache/entity_cache.hpp: a named cache of entities in a memory segment that can run full.
-- The container and the segment are Boost's: they are the index of Cache/Index.antt. The named mutex
-- makes every operation atomic, so an operation is a function of the container; the names of the
-- segment and the debug log are left out.
pub mod Index
pub mod Entities
pub mod Laws
pub mod Campaigns
pub mod Loader
pub mod Matchers
pub mod Ico
use vanilla_rtb.Base.{
  ℕ, Bool, true, false, not, List, [], ◌∷◌, ◌++◌, map, Option, none, some, is_empty,
}
use Index.{Allocated, allocated, bad_alloc, UniqueIndex}
use Entities.{Entity}

-- How an operation that writes ends: with the container and its answer; by the exception of a segment
-- that is full also after it has grown; or, in `update`, with the iterator past the elements it was to
-- change, where the code goes on outside of its range.
pub data Written (C : Type 0) : Type 0 where
  written : C → Bool → Written C
  throws : C → Written C
  escaped : C → Written C

module _ {K Q D E C : Type 0} (ix : UniqueIndex K Q E C) (en : Entity K D E) where
  -- insert_data
  unfoldable pub insert_data : K → D → C → Allocated (C × Bool)
  insert_data key data' c = ix.insert (en.store key data') c

  -- insert: once more after the segment has grown.
  unfoldable pub insert : K → D → C → Written C
  insert key data' c = elim (insert_data key data' c) [
    | allocated (c', ok) ↦ written c' ok
    | bad_alloc ↦ elim (insert_data key data' (ix.grow c)) [
      | allocated (c', ok) ↦ written c' ok
      | bad_alloc ↦ throws (ix.grow c)
    ]
  ]

  -- update_data, at the element with key `at`.
  unfoldable pub update_data : K → K → D → C → Allocated (C × Bool)
  update_data at key data' c = ix.modify at (en.store key data') c

  -- update of the element with key `arg`, by a whole key: the range holds that element or none. The
  -- argument `p.first++` moves the iterator on before update_data is called, and the handler of
  -- bad_alloc moves it on once more.
  unfoldable pub update : K → K → D → C → Written C
  update arg key data' c = elim (ix.find arg c) [
    | none ↦ written c false
    | some e ↦ elim (update_data arg key data' c) [
      | allocated (c', ok) ↦ written c' ok
      | bad_alloc ↦ escaped (ix.grow c)
    ]
  ]

  -- retriever, for one entry, which is overwritten if there is an element: every caller in the program
  -- passes a fresh one, so that a member which the archive does not carry comes out as in a fresh value.
  unfoldable pub retrieve : K → D → C → D × Bool
  retrieve key entry c = elim (ix.find key c) [
    | none ↦ (entry, false)
    | some e ↦ (en.retrieve e, true)
  ]

  -- retriever, for a vector: the elements in range are appended, and the answer is whether the vector
  -- holds anything.
  unfoldable pub retrieve_range : Q → List D → C → List D × Bool
  retrieve_range q entries c =
      let entries' = entries ++ map en.retrieve (ix.equal_range q c) in
      (entries', not (is_empty entries'))

  -- retrieve_raw
  unfoldable pub retrieve_raw : Q → C → List E
  retrieve_raw q c = ix.equal_range q c

  -- retrieve, of every element.
  unfoldable pub retrieve_all : List D → C → List D × Bool
  retrieve_all entries c =
      let entries' = entries ++ map en.retrieve (ix.elements c) in
      (entries', not (is_empty entries'))

  -- remove, by a whole key.
  unfoldable pub remove : K → C → C
  remove key c = ix.erase key c

  -- clear
  unfoldable pub clear : C → C
  clear c = ix.clear c
