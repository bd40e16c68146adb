-- ===== src/Tests/Slot.antt =====
-- A container with room for one element, and an archive of one number: they obey the laws of
-- Cache/Index.antt and Cache/Entities.antt.
use mathlib.Core.List.{Mem, mem-cons_self}
use vanilla_rtb.Base.{
  ℕ, ◌≡◌, ◌≢◌, ◌↔◌, filter, All, Bool-cases, ==_iff, inl, inr, sym, subst, refl, ap, ◌∙◌, Bool,
  true, false, List, [], ◌∷◌, Option, none, some, ◌==◌, if◌then◌else◌,
}
use vanilla_rtb.Cache.Index.{Allocated, allocated, bad_alloc, UniqueIndex, IsLawful}
use vanilla_rtb.Cache.Entities.{CampaignEntity, Archive, IsArchive, campaigns, campaigns-Keeps}
use vanilla_rtb.Cache.Laws.{IsCache}

abbrev pub number : Archive ℕ
number = record { write = λ d. d ∷ []; read = λ t. elim t [ [] ↦ 0 | d ∷ _ ↦ d ] }

pub number-IsArchive : IsArchive number (λ d. d)
number-IsArchive = record { read-write = λ d rest. refl }

module _ {K Q E : Type 0} (key : E → K) (same : K → K → Bool) (matches : Q → K → Bool)
    (same_iff : (j k : K) → (same j k ≡ true) ↔ (j ≡ k)) where
  abbrev find : K → Option E → Option E
  find k none = none
  find k (some e) = if same k (key e) then some e else none

  abbrev insert : E → Option E → Allocated (Option E × Bool)
  insert e none = allocated (some e, true)
  insert e (some x) = if same (key e) (key x) then allocated (some x, false) else bad_alloc

  abbrev modify : K → E → Option E → Allocated (Option E × Bool)
  modify k e none = allocated (none, false)
  modify k e (some x) =
      if same k (key x) then allocated (some e, true) else allocated (some x, false)

  abbrev erase : K → Option E → Option E
  erase k none = none
  erase k (some e) = if same k (key e) then none else some e

  abbrev elements : Option E → List E
  elements none = []
  elements (some e) = e ∷ []

  abbrev pub room : UniqueIndex K Q E (Option E)
  room = record {
    key = key;
    matches = matches;
    find = find;
    equal_range = λ q c. filter (λ e. matches q (key e)) (elements c);
    elements = elements;
    insert = insert;
    modify = modify;
    erase = erase;
    clear = λ _. none;
    grow = λ c. c;
  }

  -- What is found is what is held, and it has the key.
  find-holds : (k : K) (x e : E) → find k (some x) ≡ some e → (x ≡ e) × (same k (key x) ≡ true)
  find-holds k x e h = elim (Bool-cases (same k (key x))) [
    | inl eq ↦ let here : some x ≡ some e = rw eq at h in (cc, eq)
    | inr ne ↦ let gone : none ≡ some e = rw ne at h in cc
  ]

  find-key : (k : K) (c : Option E) (e : E) → find k c ≡ some e → key e ≡ k
  find-key k none e h = cc
  find-key k (some x) e h =
      let (held_, fits) = find-holds k x e h in
      ap key (sym held_) ∙ sym ((same_iff k (key x)).0 fits)

  same_self : (k : K) → same k k ≡ true
  same_self k = (same_iff k k).1 refl

  find_apart : (e : E) (j : K) → j ≢ key e → find j (some e) ≡ none
  find_apart e j ne = elim (Bool-cases (same j (key e))) [
    | inl eq ↦ absurd (ne ((same_iff j (key e)).0 eq))
    | inr ne' ↦ rw ne' refl
  ]

  elements-found : (c : Option E) → All (λ e. find (key e) c ≡ some e) (elements c)
  elements-found none = tt
  elements-found (some x) = (rw (same_self (key x)) refl, tt)

  found_mem : (k : K) (c : Option E) (e : E) → find k c ≡ some e → Mem e (elements c)
  found_mem k none e h = cc
  found_mem k (some x) e h = subst (λ y. Mem y (x ∷ [])) (find-holds k x e h).0 mem-cons_self

  allocated-inj : {r r' : Option E × Bool} → allocated r ≡ allocated r' → r ≡ r'
  allocated-inj e =
      ap
        (λ (a : Allocated (Option E × Bool)). elim a [
          | allocated r ↦ r
          | bad_alloc ↦ (none, false)
        ])
        e

  no_room :
      {P : Type 0} (c : Option E) (ok : Bool)
      → ◌≡◌ {A = Allocated (Option E × Bool)} bad_alloc (allocated (c, ok))
      → P
  no_room c ok h = cc

  insert_new :
      (e : E) (c c' : Option E) (ok : Bool)
      → insert e c ≡ allocated (c', ok)
      → find (key e) c ≡ none
      → (ok ≡ true) × (find (key e) c' ≡ some e) × ((k : K) → k ≢ key e → find k c' ≡ find k c)
  insert_new e none c' ok h free =
      subst
        (λ (r : Option E × Bool).
          (r.1 ≡ true) × (find (key e) r.0 ≡ some e) × ((k : K) → k ≢ key e → find k r.0 ≡ none))
        (allocated-inj h) (refl, rw (same_self (key e)) refl, find_apart e)
  insert_new e (some x) c' ok h free = elim (Bool-cases (same (key e) (key x))) [
    | inl eq ↦ let clash : some x ≡ none = rw eq at free in cc
    | inr ne ↦ no_room c' ok (rw ne at h)
  ]

  insert_taken :
      (e x : E) (c c' : Option E) (ok : Bool)
      → insert e c ≡ allocated (c', ok)
      → find (key e) c ≡ some x
      → (ok ≡ false) × ((k : K) → find k c' ≡ find k c)
  insert_taken e x none c' ok h taken = cc
  insert_taken e x (some y) c' ok h taken = elim (Bool-cases (same (key e) (key y))) [
    | inl eq ↦
        subst (λ (r : Option E × Bool). (r.1 ≡ false) × ((k : K) → find k r.0 ≡ find k (some y)))
          (allocated-inj (rw eq at h)) (refl, λ k. refl)
    | inr ne ↦ no_room c' ok (rw ne at h)
  ]

  modify_free :
      (k : K) (e x : E) (c c' : Option E) (ok : Bool)
      → modify k e c ≡ allocated (c', ok)
      → find k c ≡ some x
      → (key e ≢ k → find (key e) c ≡ none)
      → (ok ≡ true)
        × (find (key e) c' ≡ some e)
        × (key e ≢ k → find k c' ≡ none)
        × ((j : K) → j ≢ key e → j ≢ k → find j c' ≡ find j c)
  modify_free k e x none c' ok h found free = cc
  modify_free k e x (some y) c' ok h found free = elim (Bool-cases (same k (key y))) [
    | inl eq ↦
        subst
          (λ (r : Option E × Bool).
            (r.1 ≡ true)
            × (find (key e) r.0 ≡ some e)
            × (key e ≢ k → find k r.0 ≡ none)
            × ((j : K) → j ≢ key e → j ≢ k → find j r.0 ≡ find j (some y)))
          (allocated-inj (rw eq at h))
          (
            refl,
            rw (same_self (key e)) refl,
            λ ne. find_apart e k (λ same_. ne (sym same_)),
            λ j n m.
                find_apart e j n
                ∙ sym (find_apart y j (λ same_. m (same_ ∙ sym ((same_iff k (key y)).0 eq)))),
          )
    | inr ne ↦ let clash : none ≡ some x = rw ne at found in cc
  ]

  modify_taken :
      (k : K) (e x y : E) (c c' : Option E) (ok : Bool)
      → modify k e c ≡ allocated (c', ok)
      → find k c ≡ some x
      → key e ≢ k
      → find (key e) c ≡ some y
      → (ok ≡ false) × (find k c' ≡ none) × ((j : K) → j ≢ k → find j c' ≡ find j c)
  modify_taken k e x y none c' ok h found ne taken = cc
  modify_taken k e x y (some z) c' ok h found ne taken = absurd (
      ne (
        (same_iff (key e) (key z)).0 (find-holds (key e) z y taken).1
        ∙ sym ((same_iff k (key z)).0 (find-holds k z x found).1)))

  erase_self : (k : K) (c : Option E) → find k (erase k c) ≡ none
  erase_self k none = refl
  erase_self k (some x) = elim (Bool-cases (same k (key x))) [
    | inl e ↦ rw e refl
    | inr e ↦ rw e (rw e refl)
  ]

  erase_other : (k j : K) (c : Option E) → j ≢ k → find j (erase k c) ≡ find j c
  erase_other k j none ne = refl
  erase_other k j (some x) ne = elim (Bool-cases (same k (key x))) [
    | inl e ↦ rw e (sym (find_apart x j (λ same_. ne (same_ ∙ sym ((same_iff k (key x)).0 e)))))
    | inr e ↦ rw e refl
  ]

  pub room-IsLawful : IsLawful room
  room-IsLawful = record {
    find-key = find-key;
    elements-found = elements-found;
    found_mem = found_mem;
    range-elements = λ q c. refl;
    insert_new = insert_new;
    insert_taken = insert_taken;
    modify_free = modify_free;
    modify_taken = modify_taken;
    erase_self = erase_self;
    erase_other = erase_other;
    clear_all = λ k c. refl;
    grow_keeps = λ k c. refl;
  }

abbrev pub Slot : Type 0
Slot = Option CampaignEntity

abbrev pub slot : UniqueIndex ℕ ℕ CampaignEntity Slot
slot = room (λ e. e.campaign_id) ◌==◌ ◌==◌ ==_iff

pub slot-IsCache :
    {D : Type 0} {kept : D → D} (ar : Archive D)
    → IsArchive ar kept
    → IsCache slot (campaigns ar) kept
unfolding campaigns
slot-IsCache ar lawful = record {
  index_law = room-IsLawful (λ e. e.campaign_id) ◌==◌ ◌==◌ ==_iff;
  entity_law = campaigns-Keeps ar lawful;
  same_key = λ e. refl;
}
