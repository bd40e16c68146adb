-- ===== src/Notices/Charged.antt =====
-- What a win notice does to the budgets of the master and of those that follow it.
use vanilla_rtb.Base.{
  ℕ, ◌≡◌, ◌≢◌, refl, sym, ap, ◌∙◌, Bool, true, [], ◌∷◌, ◌++◌, inl, inr, arith, ◌⊎◌,
}
use vanilla_rtb.Budget.{CampaignBudget, kept_budget, update_price}
use vanilla_rtb.Cache.{Written, written, throws, escaped, retrieve, update}
use vanilla_rtb.Cache.Index.{UniqueIndex}
use vanilla_rtb.Cache.Entities.{Entity}
use vanilla_rtb.Cache.Laws.{IsCache, update-Updated}
use vanilla_rtb.Cache.Campaigns.{replace_budget}
use vanilla_rtb.Notices.{Service, Ended, replied, retrieve_list, charge}

Written-cases :
    {C : Type 0} (w : Written C)
    → ((c : C) × (ok : Bool) × (w ≡ written c ok))
      ⊎ (((c : C) × (w ≡ throws c)) ⊎ ((c : C) × (w ≡ escaped c)))
Written-cases (written c ok) = inl (c, ok, refl)
Written-cases (throws c) = inr (inl (c, refl))
Written-cases (escaped c) = inr (inr (c, refl))

module _ {Q E C : Type 0} (ix : UniqueIndex ℕ Q E C) (en : Entity ℕ CampaignBudget E) where
  retrieve_list-one :
      (k : ℕ) (entry b : CampaignBudget) (c : C)
      → retrieve ix en k entry c ≡ (b, true)
      → retrieve_list ix en k c ≡ b ∷ []
  unfolding retrieve retrieve_list
  retrieve_list-one k entry b c h = ground arith

  -- A reply to a notice for a campaign that is there comes with an update of the cache.
  charge-written :
      (k price : ℕ) (b : CampaignBudget) (s s' : Service C)
      → retrieve_list ix en k s.cache ≡ b ∷ []
      → charge ix en k price s ≡ (s', replied)
      → (ok : Bool) × (update ix en k k (update_price b price) s.cache ≡ written s'.cache ok)
        × (s'.distributed ≡ s.distributed ++ kept_budget (update_price b price) ∷ [])
  unfolding charge replace_budget
  charge-written k price b s s' there h =
      elim (Written-cases (update ix en k k (update_price b price) s.cache)) [
        | inl (c, ok, e) ↦
            let same = rw e at (rw (there, charge) at h) in
            (
              ok,
              e ∙ ap (λ (r : Service C × Ended). written r.0.cache ok) same,
              ap (λ (r : Service C × Ended). r.0.distributed) (sym same),
            )
        | inr (inl (c, e)) ↦ absurd (let same = rw e at (rw (there, charge) at h) in cc)
        | inr (inr (c, e)) ↦ absurd (let same = rw e at (rw (there, charge) at h) in cc)
      ]

module _ {Q E C : Type 0} (ix : UniqueIndex ℕ Q E C) (en : Entity ℕ CampaignBudget E)
    (law : IsCache ix en kept_budget) where
  -- What a notice for `price` has done for campaign `k`, whose budget was `b`.
  pub record Charged (k price : ℕ) (b entry : CampaignBudget) (s s' : Service C) : Type 0 where
    pub stored : retrieve ix en k entry s'.cache ≡ (kept_budget (update_price b price), true)
    pub others : (j : ℕ) → j ≢ k → retrieve ix en j entry s'.cache ≡ retrieve ix en j entry s.cache
    pub told : s'.distributed ≡ s.distributed ++ kept_budget (update_price b price) ∷ []

  -- If the handler of a win notice replies, the budget of a campaign that the cache holds is charged with
  -- the price, and stored and told to the other bankers without the overdraft, which the archive loses;
  -- no other budget has changed.
  pub charge-Charged :
      (k price : ℕ) (b entry : CampaignBudget) (s s' : Service C)
      → retrieve ix en k entry s.cache ≡ (b, true)
      → charge ix en k price s ≡ (s', replied)
      → Charged k price b entry s s'
  charge-Charged k price b entry s s' there h =
      let (ok, e, told) =
        charge-written ix en k price b s s' (retrieve_list-one ix en k entry b s.cache there) h in
      let done = update-Updated ix en law k (update_price b price) s.cache s'.cache ok e in
      record {
        stored =
            done.stored entry
              (sym (done.answered entry) ∙ ap (λ (r : CampaignBudget × Bool). r.1) there);
        others = λ j ne. done.others j entry ne;
        told = told;
      }
