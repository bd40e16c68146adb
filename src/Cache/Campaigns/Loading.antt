-- ===== src/Cache/Campaigns/Loading.antt =====
-- What the cache of the campaigns answers once it is loaded.
use vanilla_rtb.Base.{
  ℕ, ◌≡◌, refl, sym, ap, ◌∙◌, Bool, true, false, List, [], ◌∷◌, map, some, ◌==◌, if◌then◌else◌,
  arith, inl, inr, Bool-cases, ==_iff, subst,
}
use vanilla_rtb.Budget.{CampaignBudget, kept_budget, default_budget, authorize}
use vanilla_rtb.Selection.{banker_authorize}
use vanilla_rtb.Cache.Index.{UniqueIndex}
use vanilla_rtb.Cache.Entities.{Entity}
use vanilla_rtb.Cache.{written, insert, retrieve, clear}
use vanilla_rtb.Cache.Laws.{IsCache, Inserted, insert-Inserted, retrieve-clear, retrieve_missing}
use vanilla_rtb.Cache.Campaigns.{Loaded, loaded, failed, insert_all, load, retrieve_budget}

-- The first record of a campaign in a file, or `entry`.
abbrev pub first_record : ℕ → CampaignBudget → List CampaignBudget → CampaignBudget × Bool
first_record k entry [] = (entry, false)
first_record k entry (b ∷ bs) =
    let rest = first_record k entry bs in if b.campaign_id == k then (b, true) else rest

module _ {Q E C : Type 0} (ix : UniqueIndex ℕ Q E C) (en : Entity ℕ CampaignBudget E)
    (law : IsCache ix en kept_budget) where
  insert_all-cons :
      (b : CampaignBudget) (bs : List CampaignBudget) (c c' : C)
      → insert_all ix en (b ∷ bs) c ≡ loaded c'
      → (d : C) × (ok : Bool) × (insert ix en b.campaign_id b c ≡ written d ok)
        × (insert_all ix en bs d ≡ loaded c')
  unfolding insert_all
  insert_all-cons b bs c c' h = ground arith

  insert_all-nil : (c c' : C) → insert_all ix en [] c ≡ loaded c' → c ≡ c'
  unfolding insert_all
  insert_all-nil c c' h = ap (λ (r : Loaded C). elim r [ loaded x ↦ x | failed x ↦ x ]) h

  -- What `loaded_answer` says of a key: the answer from before, or the file's.
  abbrev loaded_answer : ℕ → CampaignBudget → List CampaignBudget → C → CampaignBudget × Bool
  loaded_answer k entry bs c =
      if (retrieve ix en k entry c).1
      then retrieve ix en k entry c
      else first_record k entry (map kept_budget bs)

  insert-first_same :
      (entry : CampaignBudget) (b : CampaignBudget) (bs : List CampaignBudget) (c d : C) (ok : Bool)
      → Inserted ix en law b.campaign_id b c d ok
      → loaded_answer b.campaign_id entry bs d ≡ loaded_answer b.campaign_id entry (b ∷ bs) c
  insert-first_same entry b bs c d ok done = elim (Bool-cases ok) [
    | inl yes_ ↦
        rw
          (
            done.stored entry yes_,
            done.was_free entry yes_,
            (==_iff b.campaign_id b.campaign_id).1 refl,
          )
          refl
    | inr no_ ↦ rw (done.refused entry no_, done.was_taken entry no_) refl
  ]

  insert-first :
      (k : ℕ) (entry : CampaignBudget) (b : CampaignBudget) (bs : List CampaignBudget) (c d : C)
      (ok : Bool)
      → Inserted ix en law b.campaign_id b c d ok
      → loaded_answer k entry bs d ≡ loaded_answer k entry (b ∷ bs) c
  insert-first k entry b bs c d ok done = elim (Bool-cases (b.campaign_id == k)) [
    | inl e ↦
        subst (λ j. loaded_answer j entry bs d ≡ loaded_answer j entry (b ∷ bs) c)
          ((==_iff b.campaign_id k).0 e) (insert-first_same entry b bs c d ok done)
    | inr e ↦ rw (done.others k entry (λ p. ground (arith, e)), e) refl
  ]

  insert_all-first :
      (k : ℕ) (entry : CampaignBudget) (bs : List CampaignBudget) (c c' : C)
      → insert_all ix en bs c ≡ loaded c'
      → retrieve ix en k entry c' ≡ loaded_answer k entry bs c
  insert_all-first k entry [] c c' h = elim (Bool-cases (retrieve ix en k entry c).1) [
    | inl e ↦ rw e (same ∙ ap (λ ok. ((retrieve ix en k entry c).0, ok)) e)
    | inr e ↦ rw e (same ∙ retrieve_missing ix en law k entry c e)
  ]
    where
      same : retrieve ix en k entry c' ≡ retrieve ix en k entry c
      same = ap (retrieve ix en k entry) (sym (insert_all-nil c c' h))
  insert_all-first k entry (b ∷ bs) c c' h =
      let (d, ok, e, rest) = insert_all-cons b bs c c' h in
      insert_all-first k entry bs d c' rest
      ∙ insert-first k entry b bs c d ok (insert-Inserted ix en law b.campaign_id b c d ok e)

  -- The overdraft plays no part in what a budget allows.
  authorize-kept :
      (k : ℕ) (entry : CampaignBudget) (bs : List CampaignBudget)
      → authorize (first_record k entry (map kept_budget bs)).0
        ≡ authorize (first_record k entry bs).0
  unfolding authorize
  authorize-kept k entry [] = refl
  authorize-kept k entry (b ∷ bs) = elim (Bool-cases (b.campaign_id == k)) [
    | inl e ↦ rw e refl
    | inr e ↦ rw e (authorize-kept k entry bs)
  ]

  -- A loaded cache authorises for each campaign what the first record of it in the file allows, and
  -- nothing for a campaign without one; the contents before loading play no part.
  pub load-authorize :
      (bs : List CampaignBudget) (c c' : C) (k : ℕ)
      → load ix en (some bs) c ≡ loaded c'
      → banker_authorize (retrieve_budget ix en c') k
        ≡ authorize (first_record k default_budget bs).0
  unfolding load retrieve_budget banker_authorize
  load-authorize bs c c' k h =
      let answer = insert_all-first k default_budget bs (clear ix en c) c' h in
      ap (λ (r : CampaignBudget × Bool). authorize r.0)
        (rw (retrieve-clear ix en law k default_budget c) at answer)
      ∙ authorize-kept k default_budget bs
