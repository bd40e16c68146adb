-- ===== src/Manager/Listing.antt =====
-- What the campaign manager answers, by what its book says.
use mathlib.Core.List.{Mem, mem-map_of_mem, not-mem-nil, mem-cons}
use mathlib.Core.Logic.Or
use vanilla_rtb.Base.{
  ℕ, ◌≡◌, ◌↔◌, ◌⊎◌, inl, inr, refl, sym, ap, ◌∙◌, subst, Bool, true, List, [], ◌∷◌, map, filter,
  All, Option, none, some, Bool-cases, Option-cases, List-cases,
}
use vanilla_rtb.Budget.{CampaignBudget, kept_budget, default_budget}
use vanilla_rtb.Cache.Index.{UniqueIndex}
use vanilla_rtb.Cache.Entities.{Entity}
use vanilla_rtb.Cache.{retrieve_range, retrieve_all}
use vanilla_rtb.Cache.Laws.{IsCache, retrieve-some, retrieve-none}
use vanilla_rtb.Manager.{Answer, one, many, compose}
use vanilla_rtb.Manager.Book.{Book, book, book-some, book-none}

abbrev pub found : Option CampaignBudget → Answer
found none = many []
found (some d) = one d

-- The budgets of the book, each at least once, and no others.
abbrev pub Lists : Book → List CampaignBudget → Type 0
Lists m ds =
    All (λ d. (k : ℕ) × (m k ≡ some d)) ds
    × ((k : ℕ) (d : CampaignBudget) → m k ≡ some d → Mem d ds)

module _ {E : Type 0} (p : E → Bool) where
  none_left : (e : E) (es : List E) → filter p es ≡ [] → Mem e es → p e ≡ true → ⊥
  none_left e [] h m t = not-mem-nil m
  none_left e (x ∷ xs) h m t = elim (Bool-cases (p x)) [
    | inl px ↦ let full = rw px at h in cc
    | inr nx ↦
        Or.elim (hlevel) (mem-cons.0 m) (λ same. let also = ap p same in cc)
          (λ later. none_left e xs (rw nx at h) later t)
  ]

  first_left :
      (P : E → Type 0) (es : List E) (x : E) (xs : List E)
      → All P es
      → filter p es ≡ x ∷ xs
      → (p x ≡ true) × P x
  first_left P [] x xs all h = cc
  first_left P (e ∷ es) x xs all h = elim (Bool-cases (p e)) [
    | inl pe ↦
        let same : e ≡ x = ap (λ (l : List E). elim l [ [] ↦ e | y ∷ _ ↦ y ]) (rw pe at h) in
        subst (λ y. (p y ≡ true) × P y) same (pe, all.0)
    | inr ne ↦ first_left P es x xs all.1 (rw ne at h)
  ]

module _ {E C : Type 0} (ix : UniqueIndex ℕ ℕ E C) (en : Entity ℕ CampaignBudget E)
    (law : IsCache ix en kept_budget) (whole : (q k : ℕ) → (ix.matches q k ≡ true) ↔ (q ≡ k)) where
  -- The range of an id is empty, or begins with the element of that id.
  range_cases :
      (k : ℕ) (c : C)
      → ((ix.equal_range k c ≡ []) × (ix.find k c ≡ none))
        ⊎ ((e : E) × (es : List E) × (ix.equal_range k c ≡ e ∷ es) × (ix.find k c ≡ some e))
  range_cases k c =
      let same = law.index_law.range-elements k c in
      elim (List-cases (ix.equal_range k c)) [
        | inl nothing ↦ elim (Option-cases (ix.find k c)) [
          | inl free ↦ inl (nothing, free)
          | inr (e, there) ↦ absurd (
              none_left (λ x. ix.matches k (ix.key x)) e (ix.elements c) (sym same ∙ nothing)
                (law.index_law.found_mem k c e there)
                ((whole k (ix.key e)).1 (sym (law.index_law.find-key k c e there))))
        ]
        | inr (x, xs, range) ↦
            let (fits, there) =
              first_left (λ y. ix.matches k (ix.key y)) (λ y. ix.find (ix.key y) c ≡ some y)
                (ix.elements c) x xs (law.index_law.elements-found c) (sym same ∙ range) in
            inr (
              x,
              xs,
              range,
              subst (λ i. ix.find i c ≡ some x) (sym ((whole k (ix.key x)).0 fits)) there,
            )
      ]

  book-found :
      (k : ℕ) (c : C) (e : E) → ix.find k c ≡ some e → book ix en c k ≡ some (en.retrieve e)
  book-found k c e there =
      book-some ix en law c k (en.retrieve e) (retrieve-some ix en law k default_budget c e there)

  book-free : (k : ℕ) (c : C) → ix.find k c ≡ none → book ix en c k ≡ none
  book-free k c free =
      book-none ix en law c k
        (ap (λ (r : CampaignBudget × Bool). r.1) (retrieve-none ix en law k default_budget c free))

  All-in_book :
      (c : C) (es : List E)
      → All (λ e. ix.find (ix.key e) c ≡ some e) es
      → All (λ d. (k : ℕ) × (book ix en c k ≡ some d)) (map en.retrieve es)
  All-in_book c [] all = tt
  All-in_book c (e ∷ es) all = ((ix.key e, book-found (ix.key e) c e all.0), All-in_book c es all.1)

  pub compose-found :
      (k : ℕ) (c : C) → compose (some k) (retrieve_range ix en k [] c).0 ≡ found (book ix en c k)
  unfolding retrieve_range compose
  compose-found k c = elim (range_cases k c) [
    | inl (nothing, free) ↦ rw nothing (rw (book-free k c free) refl)
    | inr (e, es, range, there) ↦ rw range (rw (book-found k c e there) refl)
  ]

  pub all_listed : (c : C) → Lists (book ix en c) (retrieve_all ix en [] c).0
  unfolding retrieve_all
  all_listed c = (
    All-in_book c (ix.elements c) (law.index_law.elements-found c),
    λ k d listed. elim (Option-cases (ix.find k c)) [
      | inl free ↦ let none_there = book-free k c free in cc
      | inr (e, there) ↦
          let in_book = book-found k c e there in
          let same : en.retrieve e ≡ d = cc in
          subst (λ x. Mem x (map en.retrieve (ix.elements c))) same
            (mem-map_of_mem en.retrieve (law.index_law.found_mem k c e there))
    ],
  )
