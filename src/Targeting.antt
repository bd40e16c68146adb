-- ===== src/Targeting.antt =====
-- examples/bidder/ad_selector.hpp and the chained matchers of
-- examples/bidder_experimental/ico_campaign_bidder_test.cpp: from a request's place or domain to the
-- ads of the campaigns that target it, each with the bid that its campaign's budget allows.
pub mod Authorised
pub mod Chosen
use vanilla_rtb.Base.{
  ℕ, zero, suc, ◌+◌, ◌&&◌, min, Bool, true, false, not, List, [], ◌∷◌, ◌++◌, map, Option, none,
  some, Text, leb, length, is_empty, if◌then◌else◌,
}
use vanilla_rtb.OpenRtb.{BidRequest, Impression, Banner, User}
use vanilla_rtb.OpenRtb
use vanilla_rtb.Budget.{CampaignBudget, authorize}
use vanilla_rtb.Selection.{Ad, bids_less, max_element, banker_authorize}

-- examples/matchers/geo.hpp
pub record Geo : Type 0 where
  pub geo_id : ℕ
  pub city : Text
  pub country : Text
  pub line : Text

-- Geo::Geo()
abbrev pub default_geo : Geo
default_geo = record { geo_id = 0; city = []; country = []; line = [] }

-- examples/matchers/geo_campaign.hpp
pub record GeoCampaign : Type 0 where
  pub geo_id : ℕ
  pub campaign_id : ℕ

-- examples/bidder/bidder_caches.hpp: what each cache answers to a key.
pub record BidderCaches : Type 0 where
  pub geo_data : Text → Text → Option Geo
  pub geo_campaign : ℕ → List GeoCampaign
  pub ad_data : ℕ → ℕ → ℕ → List Ad
  pub budget_cache : ℕ → CampaignBudget

-- A value, or the undefined `get` of an empty boost::optional.
pub data Checked (A : Type 0) : Type 0 where
  value : A → Checked A
  empty_optional : Checked A

-- boost::algorithm::to_lower_copy, on ASCII.
abbrev pub to_lower : ℕ → ℕ
to_lower c = if leb b'A' c && leb c b'Z' then c + 32 else c

-- `[budget_bid](Ad & ad) { ad.auth_bid_micros = std::min(budget_bid, ad.max_bid_micros); ... }`
abbrev pub authorise : ℕ → Ad → Ad
authorise budget_bid ad = record ad { auth_bid_micros = some (min budget_bid ad.max_bid_micros) }

-- std::transform of a vector in place, from an offset on.
module _ {A : Type 0} where
  unfoldable pub transform_from : ℕ → (A → A) → List A → List A
  transform_from zero f xs = map f xs
  transform_from (suc n) f [] = []
  transform_from (suc n) f (x ∷ xs) = x ∷ transform_from n f xs

-- AdSelector::max_bid
unfoldable pub max_bid : List Ad → Option Ad
max_bid [] = none
max_bid (ad ∷ ads) = some (max_element bids_less ad ads)

-- getCampaignAds and the choice among its ads.
unfoldable pub choose_ad : Option (List Ad → Option Ad) → List Ad → Option Ad
choose_ad alg ads = elim ads [
  | [] ↦ none
  | ad ∷ rest ↦ elim alg [ some f ↦ f (ad ∷ rest) | none ↦ max_bid (ad ∷ rest) ]
]

module _ (caches : BidderCaches) where
  -- getGeo: without a user or the user's place the answer is the default Geo.
  unfoldable pub get_geo : BidRequest → Geo × Bool
  get_geo req = elim req.user [
    | none ↦ (default_geo, true)
    | some user ↦ elim user.geo [
      | none ↦ (default_geo, true)
      | some g ↦ elim (caches.geo_data (map to_lower g.city) (map to_lower g.country)) [
        | none ↦ (default_geo, false)
        | some geo ↦ (geo, true)
      ]
    ]
  ]

  -- AdSelector::authorize
  abbrev pub authorize_campaign : ℕ → ℕ
  authorize_campaign campaign_id = banker_authorize caches.budget_cache campaign_id

  -- One round of the loop of getCampaignAds. AdDataEntity::retrieve appends, and answers whether it
  -- found anything.
  unfoldable pub add_campaign_ads : Banner → GeoCampaign → List Ad → List Ad
  add_campaign_ads banner campaign ads =
      let found = caches.ad_data campaign.campaign_id banner.w banner.h in
      if is_empty found
      then ads
      else transform_from (length ads) (authorise (authorize_campaign campaign.campaign_id))
          (ads ++ found)

  unfoldable pub campaign_ads : Banner → List GeoCampaign → List Ad → List Ad
  campaign_ads banner [] ads = ads
  campaign_ads banner (campaign ∷ rest) ads =
      campaign_ads banner rest (add_campaign_ads banner campaign ads)

  unfoldable pub select_for :
      Option (List Ad → Option Ad) → List GeoCampaign → Impression → Checked (Option Ad)
  select_for alg [] imp = value none
  select_for alg (campaign ∷ rest) imp = elim imp.banner [
    | none ↦ empty_optional
    | some banner ↦ value (choose_ad alg (campaign_ads banner (campaign ∷ rest) []))
  ]

  -- AdSelector::select, with the algorithm that `alg` may have set. Null is `none`.
  unfoldable pub select :
      Option (List Ad → Option Ad) → BidRequest → Impression → Checked (Option Ad)
  select alg req imp =
      let (geo, found) = get_geo req in
      if found then select_for alg (caches.geo_campaign geo.geo_id) imp else value none

  -- The lambda retrieve_campaign_ads_f of the ICO bidder, one round of its loop and the whole.
  unfoldable pub add_ico_ads : Banner → ℕ → List Ad → List Ad
  add_ico_ads banner campaign_id ads =
      let found = caches.ad_data campaign_id banner.w banner.h in
      if is_empty found
      then ads
      else transform_from 0 (authorise (authorize_campaign campaign_id)) (ads ++ found)

  unfoldable pub ico_ads : Banner → List ℕ → List Ad → List Ad
  ico_ads banner [] ads = ads
  ico_ads banner (campaign_id ∷ rest) ads = ico_ads banner rest (add_ico_ads banner campaign_id ads)
