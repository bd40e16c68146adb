-- ===== src/Manager/Book.antt =====
-- The campaign manager as a book of budgets: what the requests do to the cache, and what they answer.

use vanilla_rtb.Base.{
  ℕ, ◌≡◌, ◌≢◌, inl, inr, refl, sym, ap, ◌∙◌, subst, Bool, true, false, Option, none, some, ◌==◌,
  if◌then◌else◌, arith, Bool-cases, ==_iff,
}
use vanilla_rtb.Budget.{CampaignBudget, kept_budget, default_budget}
use vanilla_rtb.Cache.Index.{UniqueIndex}
use vanilla_rtb.Cache.Entities.{Entity}
use vanilla_rtb.Cache.{written, throws, insert, update, retrieve, remove}
use vanilla_rtb.Cache.Laws.{
  IsCache, Inserted, Updated, insert-Inserted, update-Updated, retrieve-remove, retrieve-grow,
}
use vanilla_rtb.Manager.{Request, put, post, del, get, Reading}

abbrev pub Book : Type 0
Book = ℕ → Option CampaignBudget

-- A budget is entered under an id that has none, replaced under one that has one, and struck out. The
-- book holds what the archive keeps of a budget.
abbrev pub enter : ℕ → CampaignBudget → Book → Book
enter k b m j = if j == k then elim (m k) [ some x ↦ some x | none ↦ some (kept_budget b) ] else m j

abbrev pub replace : ℕ → CampaignBudget → Book → Book
replace k b m j = if j == k then elim (m k) [ some _ ↦ some (kept_budget b) | none ↦ none ] else m j

abbrev pub strike : ℕ → Book → Book
strike k m j = if j == k then none else m j

-- What an answered request makes of the book; a command of another name is not answered.
module _ (rd : Reading) where
  abbrev pub apply_request : Request → Book → Book
  apply_request (put key id body) m = elim (rd.extract_request body) [
    | none ↦ m
    | some b ↦ elim (rd.to_uint32 id) [ none ↦ m | some k ↦ enter k b m ]
  ]
  apply_request (post key id body) m = elim (rd.extract_request body) [
    | none ↦ m
    | some b ↦ elim (rd.to_uint32 id) [ none ↦ m | some k ↦ replace k b m ]
  ]
  apply_request (del key id) m = elim (rd.to_uint32 id) [ none ↦ m | some k ↦ strike k m ]
  apply_request (get key id) m = m

-- What `retrieve` answers for each id.
module _ {E C : Type 0} (ix : UniqueIndex ℕ ℕ E C) (en : Entity ℕ CampaignBudget E) where
  unfoldable pub book : C → Book
  book c k = let r = retrieve ix en k default_budget c in if r.1 then some r.0 else none

  module _ (law : IsCache ix en kept_budget) where
    pub book-some :
        (c : C) (k : ℕ) (d : CampaignBudget)
        → retrieve ix en k default_budget c ≡ (d, true)
        → book c k ≡ some d
    unfolding book
    book-some c k d h = rw h refl

    pub book-same :
        (c c' : C) (k : ℕ)
        → retrieve ix en k default_budget c' ≡ retrieve ix en k default_budget c
        → book c' k ≡ book c k
    unfolding book
    book-same c c' k h = ap (λ (r : CampaignBudget × Bool). if r.1 then some r.0 else none) h

    pub book-none :
        (c : C) (k : ℕ) → (retrieve ix en k default_budget c).1 ≡ false → book c k ≡ none
    unfolding book
    book-none c k h = rw h refl

    book-taken :
        (c : C) (k : ℕ)
        → (retrieve ix en k default_budget c).1 ≡ true
        → (d : CampaignBudget) × (book c k ≡ some d)
    unfolding book
    book-taken c k h = ((retrieve ix en k default_budget c).0, rw h refl)

    -- Off the key, a change of the other entries is none.
    elsewhere :
        (k : ℕ) (x : Option CampaignBudget) (c c' : C)
        → (book c' k ≡ x)
        → ((j : ℕ) → j ≢ k → retrieve ix en j default_budget c' ≡ retrieve ix en j default_budget c)
        → (j : ℕ) → book c' j ≡ (if j == k then x else book c j)
    elsewhere k x c c' here others j = elim (Bool-cases (j == k)) [
      | inl e ↦ rw e (subst (λ i. book c' i ≡ x) (sym ((==_iff j k).0 e)) here)
      | inr e ↦ rw e (book-same c c' j (others j (λ same. ground (arith, same))))
    ]

    pub insert-enters :
        (k : ℕ) (b : CampaignBudget) (c c' : C) (ok : Bool)
        → insert ix en k b c ≡ written c' ok
        → (j : ℕ) → book c' j ≡ enter k b (book c) j
    insert-enters k b c c' ok h =
        let done = insert-Inserted ix en law k b c c' ok h in
        elsewhere k _ c c' (entered ok done) (λ j ne. done.others j default_budget ne)
      where
        entered :
            (ok : Bool)
            → Inserted ix en law k b c c' ok
            → book c' k ≡ elim (book c k) [ some x ↦ some x | none ↦ some (kept_budget b) ]
        entered true d =
            let free =
              book-none c k
                (ap (λ (r : CampaignBudget × Bool). r.1) (d.was_free default_budget refl)) in
            rw free (book-some c' k (kept_budget b) (d.stored default_budget refl))
        entered false d =
            let (x, there) = book-taken c k (d.was_taken default_budget refl) in
            rw there (book-same c c' k (d.refused default_budget refl) ∙ there)

    pub update-replaces :
        (k : ℕ) (b : CampaignBudget) (c c' : C) (ok : Bool)
        → update ix en k k b c ≡ written c' ok
        → (j : ℕ) → book c' j ≡ replace k b (book c) j
    update-replaces k b c c' ok h =
        let done = update-Updated ix en law k b c c' ok h in
        elsewhere k _ c c' (replaced ok done) (λ j ne. done.others j default_budget ne)
      where
        replaced :
            (ok : Bool)
            → Updated ix en law k b c c' ok
            → book c' k ≡ elim (book c k) [ some _ ↦ some (kept_budget b) | none ↦ none ]
        replaced true d =
            let (x, there) = book-taken c k (d.answered default_budget) in
            rw there (book-some c' k (kept_budget b) (d.stored default_budget refl))
        replaced false d =
            let free = book-none c k (d.answered default_budget) in
            rw free (
              book-none c' k
                (ap (λ (r : CampaignBudget × Bool). r.1) (d.missing default_budget refl)))

    pub remove-strikes : (k : ℕ) (c : C) (j : ℕ) → book (remove ix en k c) j ≡ strike k (book c) j
    remove-strikes k c =
        let (gone, others) = retrieve-remove ix en law k default_budget c in
        elsewhere k none c (remove ix en k c)
          (book-none (remove ix en k c) k (ap (λ (r : CampaignBudget × Bool). r.1) gone)) others

    pub insert-throws :
        (k : ℕ) (b : CampaignBudget) (c c' : C) → insert ix en k b c ≡ throws c' → c' ≡ ix.grow c
    unfolding insert
    insert-throws k b c c' h = ground arith

    pub book-grow : (c : C) (j : ℕ) → book (ix.grow c) j ≡ book c j
    book-grow c j = book-same c (ix.grow c) j (retrieve-grow ix en law j default_budget c)
