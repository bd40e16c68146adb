-- ===== src/Tests/Targets.antt =====
-- Runs of examples/bidder/ad_selector.hpp and of the ICO bidder's matchers.
use vanilla_rtb.Base.{
  ℕ, ◌≡◌, refl, true, List, [], ◌∷◌, ◌++◌, map, Option, none, some, codes, ◌==◌, if◌then◌else◌,
}
use vanilla_rtb.Budget.{CampaignBudget, default_budget, cpc, authorize}
use vanilla_rtb.OpenRtb.{Impression}
use vanilla_rtb.Selection.{Ad, max_element, bids_less, banker_authorize}
use vanilla_rtb.Targeting.{
  GeoCampaign, BidderCaches, value, default_geo, authorise, authorize_campaign, get_geo,
  campaign_ads, add_campaign_ads, ico_ads, add_ico_ads, transform_from, max_bid, choose_ad, select,
  select_for,
}
use vanilla_rtb.Targeting.Authorised.{all_own_ads, campaign_ads-own, raw_ads, ico_ads-last}
use vanilla_rtb.Targeting.Chosen.{Chosen, select-Chosen}
use vanilla_rtb.Tests.Samples.{ad_of, banner_of, impression_of, two_impressions}

abbrev budget_of : ℕ → CampaignBudget
budget_of amount = record default_budget {
  day_budget_limit = 1000;
  metric = record { type = cpc; value = amount };
}

-- Campaign 1 offers 300 and campaign 2 offers 200; each has one ad, of at most 250.
abbrev caches : BidderCaches
caches = record {
  geo_data = λ _ _. none;
  geo_campaign =
      λ _. record { geo_id = 0; campaign_id = 1 } ∷ record { geo_id = 0; campaign_id = 2 } ∷ [];
  ad_data = λ campaign _ _. ad_of campaign 250 none ∷ [];
  budget_cache = λ campaign. budget_of (if campaign == 1 then 300 else 200);
}

abbrev targeting : List GeoCampaign
targeting = caches.geo_campaign 0

abbrev top : Impression
top = impression_of (codes "top") (some (banner_of 728 90))

own :
    campaign_ads caches (banner_of 728 90) targeting []
    ≡ ad_of 1 250 (some 250) ∷ ad_of 2 250 (some 200) ∷ []
unfolding campaign_ads add_campaign_ads transform_from banker_authorize authorize
own = refl

-- The matchers of the ICO bidder give both ads what campaign 2 allows.
ico :
    ico_ads caches (banner_of 728 90) (1 ∷ 2 ∷ []) []
    ≡ ad_of 1 250 (some 200) ∷ ad_of 2 250 (some 200) ∷ []
unfolding ico_ads add_ico_ads transform_from banker_authorize authorize
ico = refl

selected : select caches none two_impressions top ≡ value (some (ad_of 1 250 (some 250)))
unfolding select get_geo select_for campaign_ads add_campaign_ads transform_from choose_ad max_bid
    max_element bids_less banker_authorize authorize
selected = refl

located : get_geo caches two_impressions ≡ (default_geo, true)
unfolding get_geo
located = refl

campaign_ads-own_example :
    campaign_ads caches (banner_of 728 90) targeting []
    ≡ [] ++ all_own_ads caches (banner_of 728 90) targeting
campaign_ads-own_example = campaign_ads-own caches (banner_of 728 90) targeting []

ico_ads-last_example :
    ico_ads caches (banner_of 728 90) (1 ∷ 2 ∷ []) []
    ≡ map
        (authorise (authorize_campaign caches 2))
        (raw_ads caches (banner_of 728 90) (1 ∷ []) ++ ad_of 2 250 none ∷ [])
ico_ads-last_example = ico_ads-last caches (banner_of 728 90) (1 ∷ []) 2 (λ e. cc)

select-Chosen_example :
    (r : Option Ad) × (select caches none two_impressions top ≡ value r)
    × Chosen r (all_own_ads caches (banner_of 728 90) targeting)
select-Chosen_example =
    select-Chosen caches two_impressions top default_geo (banner_of 728 90) located refl
