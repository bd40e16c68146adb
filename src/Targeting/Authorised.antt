-- ===== src/Targeting/Authorised.antt =====
-- Which bid each ad is given.
use mathlib.Core.List.{map-append, map-map, append_assoc, append-nil}
use vanilla_rtb.Base.{
  ℕ, ◌≡◌, refl, sym, ap, ◌∙◌, List, [], ◌∷◌, ◌++◌, map, length, inl, inr, List-cases, ◌≢◌,
}
use vanilla_rtb.OpenRtb.{Banner}
use vanilla_rtb.Selection.{Ad}
use vanilla_rtb.Targeting.{
  GeoCampaign, BidderCaches, authorise, transform_from, authorize_campaign, add_campaign_ads,
  campaign_ads, add_ico_ads, ico_ads,
}

-- What stands before the offset stays as it is.
transform_from-append :
    {A : Type 0} (f : A → A) (xs ys : List A)
    → transform_from (length xs) f (xs ++ ys) ≡ xs ++ map f ys
unfolding transform_from
transform_from-append f [] ys = refl
transform_from-append f (x ∷ xs) ys = rw (transform_from-append f xs ys)

module _ (caches : BidderCaches) (banner : Banner) where
  -- A campaign's ads for the banner, with the bids that its own budget allows.
  abbrev pub own_ads : ℕ → List Ad
  own_ads campaign =
      map (authorise (authorize_campaign caches campaign))
        (caches.ad_data campaign banner.w banner.h)

  abbrev pub all_own_ads : List GeoCampaign → List Ad
  all_own_ads [] = []
  all_own_ads (c ∷ cs) = own_ads c.campaign_id ++ all_own_ads cs

  add_campaign_ads-append :
      (c : GeoCampaign) (ads : List Ad)
      → add_campaign_ads caches banner c ads ≡ ads ++ own_ads c.campaign_id
  unfolding add_campaign_ads
  add_campaign_ads-append c ads =
      elim (List-cases (caches.ad_data c.campaign_id banner.w banner.h)) [
        | inl e ↦ rw (e, append-nil ads)
        | inr (x, xs, e) ↦ rw e (transform_from-append _ ads (x ∷ xs))
      ]

  -- The selector of the bidder gives each ad of each campaign the bid that this campaign's own budget
  -- allows, campaign by campaign.
  pub campaign_ads-own :
      (cs : List GeoCampaign) (ads : List Ad)
      → campaign_ads caches banner cs ads ≡ ads ++ all_own_ads cs
  unfolding campaign_ads
  campaign_ads-own [] ads = sym (append-nil ads)
  campaign_ads-own (c ∷ cs) ads =
      campaign_ads-own cs (add_campaign_ads caches banner c ads)
      ∙ rw (add_campaign_ads-append c ads)
          (append_assoc ads (own_ads c.campaign_id) (all_own_ads cs))

  -- The ads of campaigns as the cache holds them.
  abbrev pub raw_ads : List ℕ → List Ad
  raw_ads [] = []
  raw_ads (c ∷ cs) = caches.ad_data c banner.w banner.h ++ raw_ads cs

  -- A bid that is given to an ad hides what it was given before.
  map-add_ico_ads :
      (c budget : ℕ) (ads : List Ad)
      → map (authorise budget) (add_ico_ads caches banner c ads)
        ≡ map (authorise budget) (ads ++ caches.ad_data c banner.w banner.h)
  unfolding add_ico_ads transform_from
  map-add_ico_ads c budget ads = elim (List-cases (caches.ad_data c banner.w banner.h)) [
    | inl e ↦ rw (e, append-nil ads)
    | inr (x, xs, e) ↦ rw (e, map-map (authorise budget) (authorise (authorize_campaign caches c)))
  ]

  pub map-ico_ads :
      (budget : ℕ) (cs : List ℕ) (ads : List Ad)
      → map (authorise budget) (ico_ads caches banner cs ads)
        ≡ map (authorise budget) (ads ++ raw_ads cs)
  unfolding ico_ads
  map-ico_ads budget [] ads = rw (append-nil ads)
  map-ico_ads budget (c ∷ cs) ads =
      map-ico_ads budget cs (add_ico_ads caches banner c ads)
      ∙ map-append (authorise budget) (add_ico_ads caches banner c ads) (raw_ads cs)
      ∙ rw (map-add_ico_ads c budget ads) (
          sym (
            map-append (authorise budget) (ads ++ caches.ad_data c banner.w banner.h) (raw_ads cs)))
      ∙ ap (map (authorise budget))
          (append_assoc ads (caches.ad_data c banner.w banner.h) (raw_ads cs))

  ico_ads-append :
      (cs ds : List ℕ) (ads : List Ad)
      → ico_ads caches banner (cs ++ ds) ads
        ≡ ico_ads caches banner ds (ico_ads caches banner cs ads)
  unfolding ico_ads
  ico_ads-append [] ds ads = refl
  ico_ads-append (c ∷ cs) ds ads = ico_ads-append cs ds (add_ico_ads caches banner c ads)

  -- The chained matchers of the ICO bidder give every ad of every campaign the bid that the budget of
  -- the last campaign allows, if that campaign has an ad for the banner.
  pub ico_ads-last :
      (cs : List ℕ) (last : ℕ)
      → caches.ad_data last banner.w banner.h ≢ []
      → ico_ads caches banner (cs ++ last ∷ []) []
        ≡ map
            (authorise (authorize_campaign caches last))
            (raw_ads cs ++ caches.ad_data last banner.w banner.h)
  unfolding ico_ads add_ico_ads transform_from
  ico_ads-last cs last ne = elim (List-cases (caches.ad_data last banner.w banner.h)) [
    | inl e ↦ absurd (ne e)
    | inr (x, xs, e) ↦
        ico_ads-append cs (last ∷ []) []
        ∙ rw (e, map-append _ (ico_ads caches banner cs []), map-ico_ads _ cs [])
            (sym (map-append _ (raw_ads cs) (x ∷ xs)))
  ]
