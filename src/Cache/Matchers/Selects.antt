-- ===== src/Cache/Matchers/Selects.antt =====
-- What AdSelector (examples/bidder/ad_selector.hpp) answers over the loaded caches of the bidder, by the
-- records of the files.
use mathlib.Core.List.{
  Mem, mem-cons, mem-map_of_mem, mem-append_left, mem-append_right, not-mem-nil,
}
use mathlib.Core.Logic.Or
use native.Mathlib.Bridge.{le_prop}
use vanilla_rtb.Base.{
  ℕ, ◌≡◌, ◌≤◌, refl, sym, ap, ◌∙◌, subst, true, List, [], ◌∷◌, map, All, Option, none, some, arith,
  inl, inr,
}
use vanilla_rtb.OpenRtb.{Banner, BidRequest, Impression}
use vanilla_rtb.OpenRtb
use vanilla_rtb.Budget.{CampaignBudget, default_budget, authorize}
use vanilla_rtb.Selection.{Ad, kept_ad, bid_micros}
use vanilla_rtb.Selection.Maximum.{FirstMax}
use vanilla_rtb.Targeting.{
  Geo, GeoCampaign, BidderCaches, value, to_lower, authorise, authorize_campaign, get_geo, select,
}
use vanilla_rtb.Targeting.Authorised.{own_ads, all_own_ads}
use vanilla_rtb.Targeting.Chosen.{All-append, FirstMax-All, Chosen, select-Chosen}
use vanilla_rtb.Cache.Campaigns.Loading.{first_record}
use vanilla_rtb.Cache.Loader.Found.{first_under, InRange}
use vanilla_rtb.Cache.Matchers.{ad_keys, geo_keys, geo_campaign_keys, AdSize}
use vanilla_rtb.Cache.Matchers.Serves.{
  same_ad, same_city, same_geo_campaign, fits_ad, fits_geo, kept_geo, Serves,
}

abbrev pub size_of : ℕ → Banner → AdSize
size_of campaign banner = record { campaign = campaign; width = banner.w; height = banner.h }

module _ (as_ : List Ad) (cs : List GeoCampaign) (bs : List CampaignBudget) (geo_id : ℕ)
    (banner : Banner) where
  -- An ad of the files that is of the banner's size, of a campaign for the place, with the bid that the
  -- campaign's budget allows.
  abbrev pub Candidate : Ad → Type 0
  Candidate ad =
      (c : GeoCampaign) × (d : Ad) × InRange same_geo_campaign geo_campaign_keys (λ g. g) fits_geo
        geo_id cs c
      × InRange same_ad ad_keys kept_ad fits_ad (size_of c.campaign_id banner) as_ d
      × (authorise (authorize (first_record c.campaign_id default_budget bs).0) d ≡ ad)

  -- No ad if there is no candidate, and otherwise a candidate with the highest bid.
  abbrev pub IsBest : Option Ad → Type 0
  IsBest none = (ad : Ad) → Candidate ad → ⊥
  IsBest (some ad) =
      Candidate ad × ((other : Ad) → Candidate other → bid_micros other ≤ bid_micros ad)

module _ {A : Type 0} (key : A → ℕ) where
  All-Mem : (m : ℕ) (x : A) (xs : List A) → All (λ y. key y ≤ m) xs → Mem x xs → key x ≤ m
  All-Mem m x [] all mem = absurd (not-mem-nil mem)
  All-Mem m x (y ∷ ys) all mem =
      Or.elim (hlevel (le_prop)) (mem-cons.0 mem) (λ e. subst (λ z. key z ≤ m) (sym e) all.0)
        (λ later. All-Mem m x ys all.1 later)

  FirstMax-Mem : (r x : A) (xs : List A) → FirstMax key r xs → Mem x xs → key x ≤ key r
  FirstMax-Mem r x [] h mem = absurd h
  FirstMax-Mem r x (y ∷ ys) (inl (e, rest)) mem =
      All-Mem (key r) x (y ∷ ys) (ground (arith, ap key e), rest) mem
  FirstMax-Mem r x (y ∷ ys) (inr (lt, rest)) mem =
      Or.elim (hlevel (le_prop)) (mem-cons.0 mem) (λ e. ground (arith, ap key e))
        (λ later. FirstMax-Mem r x ys rest later)

module _ (as_ : List Ad) (gs : List Geo) (cs : List GeoCampaign) (bs : List CampaignBudget)
    (caches : BidderCaches) (served : Serves as_ gs cs bs caches) (banner : Banner)
    (geo_id : ℕ) where
  abbrev Fits : GeoCampaign → Type 0
  Fits c = InRange same_geo_campaign geo_campaign_keys (λ g. g) fits_geo geo_id cs c

  own_ads-Candidate :
      (c : GeoCampaign) (ds : List Ad)
      → Fits c
      → All (InRange same_ad ad_keys kept_ad fits_ad (size_of c.campaign_id banner) as_) ds
      → All
          (Candidate as_ cs bs geo_id banner)
          (map (authorise (authorize_campaign caches c.campaign_id)) ds)
  own_ads-Candidate c [] fits all = tt
  own_ads-Candidate c (d ∷ ds) fits (h, hs) = (
    (c, d, fits, h, ap (λ b. authorise b d) (sym (served.budgets c.campaign_id))),
    own_ads-Candidate c ds fits hs,
  )

  all_own_ads-Candidate :
      (campaigns : List GeoCampaign)
      → All Fits campaigns
      → All (Candidate as_ cs bs geo_id banner) (all_own_ads caches banner campaigns)
  all_own_ads-Candidate [] all = tt
  all_own_ads-Candidate (c ∷ rest) (h, hs) =
      All-append (Candidate as_ cs bs geo_id banner) (own_ads caches banner c.campaign_id)
        (all_own_ads caches banner rest)
        (own_ads-Candidate c (caches.ad_data c.campaign_id banner.w banner.h) h
          (served.ads_only c.campaign_id banner.w banner.h))
        (all_own_ads-Candidate rest hs)

  all_own_ads-Mem :
      (c : GeoCampaign) (d : Ad) (campaigns : List GeoCampaign)
      → Mem c campaigns
      → Mem d (caches.ad_data c.campaign_id banner.w banner.h)
      → Mem
          (authorise (authorize_campaign caches c.campaign_id) d)
          (all_own_ads caches banner campaigns)
  all_own_ads-Mem c d [] mem there = absurd (not-mem-nil mem)
  all_own_ads-Mem c d (x ∷ rest) mem there =
      Or.elim (hlevel) (mem-cons.0 mem)
        (λ e.
          subst
            (λ (y : GeoCampaign).
              Mem (authorise (authorize_campaign caches c.campaign_id) d)
                (all_own_ads caches banner (y ∷ rest)))
            e
            (mem-append_left (all_own_ads caches banner rest)
              (mem-map_of_mem (authorise (authorize_campaign caches c.campaign_id)) there)))
        (λ later.
          mem-append_right (own_ads caches banner x.campaign_id)
            (all_own_ads-Mem c d rest later there))

  Candidate-Mem :
      (ad : Ad)
      → Candidate as_ cs bs geo_id banner ad
      → Mem ad (all_own_ads caches banner (caches.geo_campaign geo_id))
  Candidate-Mem ad (c, d, fits, sized, e) =
      subst (λ x. Mem x (all_own_ads caches banner (caches.geo_campaign geo_id)))
        (ap (λ b. authorise b d) (served.budgets c.campaign_id) ∙ e)
        (all_own_ads-Mem c d (caches.geo_campaign geo_id) (served.campaigns_all geo_id c fits)
          (served.ads_all c.campaign_id banner.w banner.h d sized))

  Chosen-IsBest :
      (r : Option Ad)
      → Chosen r (all_own_ads caches banner (caches.geo_campaign geo_id))
      → IsBest as_ cs bs geo_id banner r
  Chosen-IsBest none empty_ =
      λ ad candidate. not-mem-nil (subst (Mem ad) empty_ (Candidate-Mem ad candidate))
  Chosen-IsBest (some ad) first = (
    FirstMax-All (Candidate as_ cs bs geo_id banner) bid_micros ad
        (all_own_ads caches banner (caches.geo_campaign geo_id)) first
        (all_own_ads-Candidate (caches.geo_campaign geo_id) (served.campaigns_only geo_id)),
    λ other candidate.
        FirstMax-Mem bid_micros ad other (all_own_ads caches banner (caches.geo_campaign geo_id))
          first (Candidate-Mem other candidate),
  )

module _ (as_ : List Ad) (gs : List Geo) (cs : List GeoCampaign) (bs : List CampaignBudget)
    (caches : BidderCaches) (served : Serves as_ gs cs bs caches) where
  get_geo-first :
      (req : BidRequest) (user : OpenRtb.User) (g : OpenRtb.Geo) (place : Geo)
      → req.user ≡ some user
      → user.geo ≡ some g
      → first_under same_city geo_keys
          (record { city = map to_lower g.city; country = map to_lower g.country })
          gs
        ≡ some place
      → get_geo caches req ≡ (kept_geo place, true)
  unfolding get_geo
  get_geo-first req user g place known located first =
      let there = served.places (map to_lower g.city) (map to_lower g.country) in
      rw (known, located, there, first) refl

  -- Over caches that answer by the records of the files: for an impression with a banner and a user in a
  -- place of the files, AdSelector::select, without an algorithm set, answers a candidate of the files with
  -- the highest bid, and none only if there is no candidate.
  pub select-IsBest :
      (req : BidRequest) (imp : Impression) (user : OpenRtb.User) (g : OpenRtb.Geo) (place : Geo)
      (banner : Banner)
      → req.user ≡ some user
      → user.geo ≡ some g
      → first_under same_city geo_keys
          (record { city = map to_lower g.city; country = map to_lower g.country })
          gs
        ≡ some place
      → imp.banner ≡ some banner
      → (r : Option Ad) × (select caches none req imp ≡ value r)
        × IsBest as_ cs bs place.geo_id banner r
  select-IsBest req imp user g place banner known located first shown =
      let found = get_geo-first req user g place known located first in
      let (r, e, chosen) = select-Chosen caches req imp (kept_geo place) banner found shown in
      (r, e, Chosen-IsBest as_ gs cs bs caches served banner place.geo_id r chosen)
