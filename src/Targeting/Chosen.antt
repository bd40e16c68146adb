-- ===== src/Targeting/Chosen.antt =====
-- Which ad the selectors of the bidders answer, and what it may cost.
use mathlib.Core.List.{Mem, mem-cons_self, mem-cons_of_mem}
use vanilla_rtb.Base.{
  ℕ, ◌≡◌, ◌≤◌, refl, sym, ap, ◌∙◌, List, [], ◌∷◌, ◌++◌, map, Option, none, some, arith, inl, inr,
  true, All, subst,
}
use vanilla_rtb.OpenRtb.{Banner, BidRequest, Impression}
use vanilla_rtb.Selection.{Ad, bid_micros, bids_less}
use vanilla_rtb.Selection.Maximum.{
  FirstMax, max_element-FirstMax, IsAuthorised, bids_less_authorised,
}
use vanilla_rtb.Targeting.{
  Geo, GeoCampaign, BidderCaches, Checked, value, empty_optional, authorise, get_geo,
  authorize_campaign, campaign_ads, max_bid, choose_ad, select_for, select,
}
use vanilla_rtb.Targeting.Authorised.{own_ads, all_own_ads, campaign_ads-own}

module _ {A : Type 0} (P : A → Type 0) where
  pub All-append : (xs ys : List A) → All P xs → All P ys → All P (xs ++ ys)
  All-append [] ys hs gs = gs
  All-append (x ∷ xs) ys (h, hs) gs = (h, All-append xs ys hs gs)

  pub FirstMax-All : (key : A → ℕ) (r : A) (xs : List A) → FirstMax key r xs → All P xs → P r
  FirstMax-All key r [] h _ = absurd h
  FirstMax-All key r (x ∷ xs) (inl (e, _)) (h, hs) = subst P e h
  FirstMax-All key r (x ∷ xs) (inr (_, rest)) (h, hs) = FirstMax-All key r xs rest hs

-- No ad if there is none, and otherwise the first with the highest bid.
abbrev pub Chosen : Option Ad → List Ad → Type 0
Chosen none ads = ads ≡ []
Chosen (some ad) ads = FirstMax bid_micros ad ads

choose_ad-Chosen : (ads : List Ad) → All IsAuthorised ads → Chosen (choose_ad none ads) ads
unfolding choose_ad max_bid
choose_ad-Chosen [] h = refl
choose_ad-Chosen (ad ∷ ads) (h, hs) =
    max_element-FirstMax bid_micros IsAuthorised bids_less bids_less_authorised ad ads h hs

module _ (caches : BidderCaches) (banner : Banner) where
  own_ads-IsAuthorised :
      (budget : ℕ) (ads : List Ad) → All IsAuthorised (map (authorise budget) ads)
  own_ads-IsAuthorised budget [] = tt
  own_ads-IsAuthorised budget (ad ∷ ads) = (refl, own_ads-IsAuthorised budget ads)

  all_own_ads-IsAuthorised :
      (cs : List GeoCampaign) → All IsAuthorised (all_own_ads caches banner cs)
  all_own_ads-IsAuthorised [] = tt
  all_own_ads-IsAuthorised (c ∷ cs) =
      All-append IsAuthorised (own_ads caches banner c.campaign_id) _ (own_ads-IsAuthorised _ _)
        (all_own_ads-IsAuthorised cs)

  -- What an ad of one of the campaigns may cost.
  abbrev pub WithinBudget : List GeoCampaign → Ad → Type 0
  WithinBudget cs ad =
      (bid_micros ad ≤ ad.max_bid_micros)
      × ((c : GeoCampaign) × Mem c cs × (bid_micros ad ≤ authorize_campaign caches c.campaign_id))

  own_ads-WithinBudget :
      (c : GeoCampaign) (cs : List GeoCampaign) (ads : List Ad)
      → Mem c cs
      → All (WithinBudget cs) (map (authorise (authorize_campaign caches c.campaign_id)) ads)
  own_ads-WithinBudget c cs [] h = tt
  own_ads-WithinBudget c cs (ad ∷ ads) h =
      ((omega arith, (c, h, omega arith)), own_ads-WithinBudget c cs ads h)

  all_own_ads-WithinBudget :
      (all cs : List GeoCampaign)
      → ((c : GeoCampaign) → Mem c cs → Mem c all)
      → All (WithinBudget all) (all_own_ads caches banner cs)
  all_own_ads-WithinBudget all [] h = tt
  all_own_ads-WithinBudget all (c ∷ cs) h =
      All-append (WithinBudget all) (own_ads caches banner c.campaign_id) _
        (own_ads-WithinBudget c all _ (h c mem-cons_self))
        (all_own_ads-WithinBudget all cs (λ d m. h d (mem-cons_of_mem c m)))

module _ (caches : BidderCaches) where
  select_for-choose :
      (cs : List GeoCampaign) (imp : Impression) (banner : Banner)
      → imp.banner ≡ some banner
      → select_for caches none cs imp ≡ value (choose_ad none (campaign_ads caches banner cs []))
  unfolding select_for choose_ad campaign_ads
  select_for-choose [] imp banner e = refl
  select_for-choose (c ∷ cs) imp banner e = rw (e, select_for)

  select-found :
      (req : BidRequest) (imp : Impression) (geo : Geo)
      → get_geo caches req ≡ (geo, true)
      → select caches none req imp ≡ select_for caches none (caches.geo_campaign geo.geo_id) imp
  unfolding select
  select-found req imp geo e = rw (e, select)

  -- For an impression with a banner, in a place that the cache knows, the selector answers the first ad
  -- with the highest bid among those of the campaigns that target the place, each with the bid that its
  -- own campaign's budget allows; and it answers none only if they have no ad for the banner.
  pub select-Chosen :
      (req : BidRequest) (imp : Impression) (geo : Geo) (banner : Banner)
      → get_geo caches req ≡ (geo, true)
      → imp.banner ≡ some banner
      → (r : Option Ad) × (select caches none req imp ≡ value r)
        × Chosen r (all_own_ads caches banner (caches.geo_campaign geo.geo_id))
  select-Chosen req imp geo banner found shown =
      let cs = caches.geo_campaign geo.geo_id in
      (
        choose_ad none (all_own_ads caches banner cs),
        select-found req imp geo found
            ∙ select_for-choose cs imp banner shown
            ∙ ap (λ ads. value (choose_ad none ads)) (campaign_ads-own caches banner cs []),
        choose_ad-Chosen (all_own_ads caches banner cs) (all_own_ads-IsAuthorised caches banner cs),
      )

  value-inj : {r r' : Option Ad} → value r ≡ value r' → r ≡ r'
  value-inj e = ap (λ (c : Checked (Option Ad)). elim c [ value r ↦ r | empty_optional ↦ none ]) e

  -- The ad that the selector answers costs at most its own maximum, and at most what the budget of one
  -- of the campaigns that target the place allows.
  pub select-WithinBudget :
      (req : BidRequest) (imp : Impression) (geo : Geo) (banner : Banner) (ad : Ad)
      → get_geo caches req ≡ (geo, true)
      → imp.banner ≡ some banner
      → select caches none req imp ≡ value (some ad)
      → WithinBudget caches banner (caches.geo_campaign geo.geo_id) ad
  select-WithinBudget req imp geo banner ad found shown answer =
      let cs = caches.geo_campaign geo.geo_id in
      let (r, e, chosen) = select-Chosen req imp geo banner found shown in
      FirstMax-All (WithinBudget caches banner cs) bid_micros ad (all_own_ads caches banner cs)
        (subst (λ s. Chosen s (all_own_ads caches banner cs)) (value-inj (sym e ∙ answer)) chosen)
        (all_own_ads-WithinBudget caches banner cs cs (λ c m. m))
