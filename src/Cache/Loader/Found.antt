-- ===== src/Cache/Loader/Found.antt =====
-- What a loaded cache answers to the question for a range.
use mathlib.Core.List.{Mem, mem-map_of_mem, mem-cons, mem-cons_self, mem-cons_of_mem, not-mem-nil}
use mathlib.Core.Logic.Or
use vanilla_rtb.Base.{
  ◌≡◌, ◌↔◌, ◌⊎◌, inl, inr, refl, sym, ap, ◌∙◌, subst, Bool, true, List, [], ◌∷◌, map, filter, All,
  Option, none, some, if◌then◌else◌, arith, Bool-cases, Option-cases,
}
use vanilla_rtb.Cache.Index.{allocated, UniqueIndex, IsLawful}
use vanilla_rtb.Cache.Entities.{Entity}
use vanilla_rtb.Cache.{written, insert_data, insert, clear}
use vanilla_rtb.Cache.Campaigns.{loaded}
use vanilla_rtb.Cache.Loader.{insert_records, load_records, append_range}

module _ {K D : Type 0} (same : K → K → Bool) (keys : D → K) where
  -- The first of the records under a key.
  abbrev pub first_under : K → List D → Option D
  first_under k [] = none
  first_under k (d ∷ ds) = let rest = first_under k ds in if same k (keys d) then some d else rest

-- What stands in a range of the records, by the first record under each key.
-- An entity keeps of it what `kept` says.
module _ {K Q D : Type 0} (same : K → K → Bool) (keys : D → K) (kept : D → D)
    (matches : Q → K → Bool) where
  abbrev pub InRange : Q → List D → D → Type 0
  InRange q ds x =
      (k : K) × (d : D) × (matches q k ≡ true)
      × (first_under same keys k ds ≡ some d)
      × (kept d ≡ x)

-- Items that are found under their own keys, and give back what is kept of the record.
pub record IsItem {K Q D E C : Type 0} (ix : UniqueIndex K Q E C) (en : Entity K D E) (keys : D → K)
    (kept : D → D) : Type 0 where
  pub key-item : (d : D) → ix.key (en.store (keys d) d) ≡ keys d
  pub retrieve-item : (d : D) → en.retrieve (en.store (keys d) d) ≡ kept d

-- What is found under a key, once a record has been offered.
abbrev or_else : {E : Type 0} → Option E → Option E → Option E
or_else none new = new
or_else (some e) new = some e

mem_left :
    {E : Type 0} (p : E → Bool) (e : E) (es : List E) → Mem e es → p e ≡ true → Mem e (filter p es)
mem_left p e [] m fits = absurd (not-mem-nil m)
mem_left p e (x ∷ xs) m fits = elim (Bool-cases (p x)) [
  | inl px ↦ rw px (
      Or.elim (hlevel) (mem-cons.0 m) (λ same. rw same mem-cons_self)
        (λ later. mem-cons_of_mem x (mem_left p e xs later fits)))
  | inr nx ↦ rw nx (
      Or.elim (hlevel) (mem-cons.0 m) (λ same. let also = ap p same in cc)
        (λ later. mem_left p e xs later fits))
]

or_else-none : {E : Type 0} (o : Option E) → or_else o none ≡ o
or_else-none none = refl
or_else-none (some e) = refl

or_else_assoc : {E : Type 0} (a b c : Option E) → or_else (or_else a b) c ≡ or_else a (or_else b c)
or_else_assoc none b c = refl
or_else_assoc (some e) b c = refl

module _ {K Q D E C : Type 0} (ix : UniqueIndex K Q E C) (en : Entity K D E) (law : IsLawful ix)
    (same : K → K → Bool) (same_iff : (j k : K) → (same j k ≡ true) ↔ (j ≡ k)) (keys : D → K)
    (kept : D → D) (items : IsItem ix en keys kept) where
  abbrev pub item : D → E
  item d = en.store (keys d) d

  abbrev offered : K → D → Option E
  offered k d = if same k (keys d) then some (item d) else none

  insert_data-find :
      (d : D) (c c' : C) (ok : Bool)
      → insert_data ix en (keys d) d c ≡ allocated (c', ok)
      → (k : K) → ix.find k c' ≡ or_else (ix.find k c) (offered k d)
  unfolding insert_data
  insert_data-find d c c' ok h k = elim (Option-cases (ix.find (keys d) c)) [
    | inl free ↦
        let (done, there, rest) =
          rw (items.key-item d) at
            (law.insert_new (item d) c c' ok h (rw (items.key-item d) free)) in
        elim (Bool-cases (same k (keys d))) [
          | inl e ↦ rw e (
              subst (λ j. ix.find j c' ≡ or_else (ix.find j c) (some (item d)))
                (sym ((same_iff k (keys d)).0 e)) (rw free there))
          | inr e ↦ rw e (
              rest k (λ eq. let also = (same_iff k (keys d)).1 eq in cc)
              ∙ sym (or_else-none (ix.find k c)))
        ]
    | inr (x, taken) ↦
        let (done, rest) = law.insert_taken (item d) x c c' ok h (rw (items.key-item d) taken) in
        elim (Bool-cases (same k (keys d))) [
          | inl e ↦ rw e (
              subst (λ j. ix.find j c' ≡ or_else (ix.find j c) (some (item d)))
                (sym ((same_iff k (keys d)).0 e)) (rest (keys d) ∙ rw taken refl))
          | inr e ↦ rw e (rest k ∙ sym (or_else-none (ix.find k c)))
        ]
  ]

  insert-tries :
      (d : D) (c c' : C) (ok : Bool)
      → insert ix en (keys d) d c ≡ written c' ok
      → (insert_data ix en (keys d) d c ≡ allocated (c', ok))
        ⊎ (insert_data ix en (keys d) d (ix.grow c) ≡ allocated (c', ok))
  unfolding insert
  insert-tries d c c' ok h = ground arith

  insert-find :
      (d : D) (c c' : C) (ok : Bool)
      → insert ix en (keys d) d c ≡ written c' ok
      → (k : K) → ix.find k c' ≡ or_else (ix.find k c) (offered k d)
  insert-find d c c' ok h k = elim (insert-tries d c c' ok h) [
    | inl at_once ↦ insert_data-find d c c' ok at_once k
    | inr grown ↦
        insert_data-find d (ix.grow c) c' ok grown k
        ∙ ap (λ o. or_else o (offered k d)) (law.grow_keeps k c)
  ]

  -- What is found under a key after the loading of records.
  abbrev pub held : Option D → Option E
  held none = none
  held (some d) = some (item d)

  abbrev pub first_item : K → List D → Option E
  first_item k ds = held (first_under same keys k ds)

  first_item_step :
      (k : K) (d : D) (ds : List D)
      → or_else (offered k d) (first_item k ds) ≡ first_item k (d ∷ ds)
  first_item_step k d ds = elim (Bool-cases (same k (keys d))) [
    | inl e ↦ rw e refl
    | inr e ↦ rw e refl
  ]

  insert_records-nil : (c c' : C) → insert_records ix en keys [] c ≡ loaded c' → c ≡ c'
  unfolding insert_records
  insert_records-nil c c' h = cc

  insert_records-cons :
      (d : D) (ds : List D) (c c' : C)
      → insert_records ix en keys (d ∷ ds) c ≡ loaded c'
      → (c1 : C) × (ok : Bool) × (insert ix en (keys d) d c ≡ written c1 ok)
        × (insert_records ix en keys ds c1 ≡ loaded c')
  unfolding insert_records
  insert_records-cons d ds c c' h = ground arith

  insert_records-find :
      (ds : List D) (c c' : C)
      → insert_records ix en keys ds c ≡ loaded c'
      → (k : K) → ix.find k c' ≡ or_else (ix.find k c) (first_item k ds)
  insert_records-find [] c c' h k =
      ap (ix.find k) (sym (insert_records-nil c c' h)) ∙ sym (or_else-none (ix.find k c))
  insert_records-find (d ∷ ds) c c' h k =
      let (c1, ok, e, later) = insert_records-cons d ds c c' h in
      insert_records-find ds c1 c' later k
      ∙ ap (λ o. or_else o (first_item k ds)) (insert-find d c c1 ok e k)
      ∙ or_else_assoc (ix.find k c) (offered k d) (first_item k ds)
      ∙ ap (or_else (ix.find k c)) (first_item_step k d ds)

  pub load_records-find :
      (ds : List D) (c c' : C)
      → load_records ix en keys (some ds) c ≡ loaded c'
      → (k : K) → ix.find k c' ≡ first_item k ds
  unfolding load_records clear
  load_records-find ds c c' h k =
      insert_records-find ds (clear ix en c) c' h k
      ∙ ap (λ o. or_else o (first_item k ds)) (law.clear_all k c)

  found_first :
      (ds : List D) (c' : C)
      → ((k : K) → ix.find k c' ≡ first_item k ds)
      → (k : K) (e : E) → ix.find k c' ≡ some e
      → (d : D) × (first_under same keys k ds ≡ some d) × (kept d ≡ en.retrieve e)
  found_first ds c' loaded_ k e there = elim (Option-cases (first_under same keys k ds)) [
    | inl missing ↦
        let empty_ : first_item k ds ≡ none = ap held missing in let clash = loaded_ k in cc
    | inr (d, first) ↦
        let here : first_item k ds ≡ some (item d) = ap held first in
        let clash = loaded_ k in
        let same_item : e ≡ item d = cc in
        (d, first, sym (ap en.retrieve same_item ∙ items.retrieve-item d))
  ]

  abbrev left : Q → C → List E
  left q c = filter (λ e. ix.matches q (ix.key e)) (ix.elements c)

  in_range :
      (ds : List D) (c' : C) (q : Q)
      → ((k : K) → ix.find k c' ≡ first_item k ds)
      → (es : List E) → All (λ e. ix.find (ix.key e) c' ≡ some e) es
      → All
          (InRange same keys kept ix.matches q ds)
          (map en.retrieve (filter (λ e. ix.matches q (ix.key e)) es))
  in_range ds c' q loaded_ [] all = tt
  in_range ds c' q loaded_ (e ∷ es) all = elim (Bool-cases (ix.matches q (ix.key e))) [
    | inl hit ↦
        let (d, first, keeps) = found_first ds c' loaded_ (ix.key e) e all.0 in
        rw hit ((ix.key e, d, hit, first, keeps), in_range ds c' q loaded_ es all.1)
    | inr miss ↦ rw miss (in_range ds c' q loaded_ es all.1)
  ]

  -- A cache that has been loaded from records answers a question for a range with what is kept of the
  -- first record under each key that fits the question, and with nothing else; what was in the cache
  -- before plays no part.
  pub load_records-range :
      (ds : List D) (c c' : C) (q : Q)
      → load_records ix en keys (some ds) c ≡ loaded c'
      → All (InRange same keys kept ix.matches q ds) (append_range ix en q [] c').0
        × ((x : D)
            → InRange same keys kept ix.matches q ds x
            → Mem x (append_range ix en q [] c').0)
  unfolding append_range
  load_records-range ds c c' q h =
      let loaded_ = load_records-find ds c c' h in
      let range = ap (map en.retrieve) (law.range-elements q c') in
      (
        subst (All (InRange same keys kept ix.matches q ds)) (sym range)
            (in_range ds c' q loaded_ (ix.elements c') (law.elements-found c')),
        λ x (k, d, fits, first, keeps).
            let there = loaded_ k ∙ ap held first in
            let key = law.find-key k c' (item d) there in
            subst (Mem x) (sym range) (
              subst (λ y. Mem y (map en.retrieve (left q c'))) (items.retrieve-item d ∙ keeps)
                (mem-map_of_mem en.retrieve (
                  mem_left (λ e. ix.matches q (ix.key e)) (item d) (ix.elements c')
                    (law.found_mem k c' (item d) there) (ap (ix.matches q) key ∙ fits)))),
      )
