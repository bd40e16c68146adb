-- ===== src/Cache/Matchers.antt =====
-- The caches of the geo targeting bidder: AdDataEntity (examples/matchers/ad.hpp), GeoDataEntity
-- (geo.hpp, over examples/datacache/city_country_entity.hpp) and GeoCampaignEntity (geo_campaign.hpp),
-- and BidderCaches of examples/bidder/bidder_caches.hpp, which holds them and the cache of the budgets.
-- The records are those that the readers make of the files; the timers are left out.
pub mod Serves
pub mod Selects
use vanilla_rtb.Base.{
  ℕ, ◌&&◌, ◌==◌, Bool, List, [], map, Option, none, some, Text, text_eq, if◌then◌else◌,
}
use vanilla_rtb.Budget.{CampaignBudget}
use vanilla_rtb.Selection.{Ad}
use vanilla_rtb.Targeting.{Geo, default_geo, GeoCampaign, BidderCaches, to_lower}
use vanilla_rtb.Cache.Index.{UniqueIndex}
use vanilla_rtb.Cache.Entities.{Entity, Archive, AdKey, AdEntity, CampaignEntity, ads, campaigns}
use vanilla_rtb.Cache.{retrieve}
use vanilla_rtb.Cache.Campaigns.{Loaded, loaded, failed, load, retrieve_budget}
use vanilla_rtb.Cache.Loader.{load_records, append_range}

-- The keys of a city, and city_country_entity.
pub record CityKey : Type 0 where
  pub city : Text
  pub country : Text

pub record CityCountry : Type 0 where
  pub city : Text
  pub country : Text
  pub geo_id : ℕ

-- city_country_entity::store
unfoldable pub store_city : CityKey → Geo → CityCountry
store_city key geo = record { city = key.city; country = key.country; geo_id = geo.geo_id }

-- city_country_entity::retrieve, into a Geo().
unfoldable pub retrieve_city : CityCountry → Geo
retrieve_city e = record default_geo { geo_id = e.geo_id; city = e.city; country = e.country }

unfoldable pub cities : Entity CityKey Geo CityCountry
unfolding store_city retrieve_city
cities = record {
  store = store_city;
  retrieve = retrieve_city;
  key_of = λ e. record { city = e.city; country = e.country };
}

-- GeoCampaign::store and retrieve. The key of the index has the campaign too, which Keys leaves out.
unfoldable pub geo_campaigns : Entity GeoCampaign GeoCampaign GeoCampaign
geo_campaigns = record {
  store = λ key g. record { geo_id = key.geo_id; campaign_id = g.campaign_id };
  retrieve = λ e. e;
  key_of = λ e. e;
}

-- The Keys that `load` makes of a record.
abbrev pub ad_keys : Ad → AdKey
ad_keys ad = record {
  campaign = ad.campaign_id;
  width = ad.width;
  height = ad.height;
  ad_id = ad.ad_id;
}

abbrev pub geo_keys : Geo → CityKey
geo_keys g = record { city = map to_lower g.city; country = map to_lower g.country }

abbrev pub geo_campaign_keys : GeoCampaign → GeoCampaign
geo_campaign_keys g = g

-- What retrieve_raw is asked for.
pub record AdSize : Type 0 where
  pub campaign : ℕ
  pub width : ℕ
  pub height : ℕ

-- BidderCaches: its four containers.
pub record Containers (CA CG CC CB : Type 0) : Type 0 where
  pub ad_data : CA
  pub geo_data : CG
  pub geo_campaign : CC
  pub budget : CB

-- The records of its four files; `none` is a file that does not open.
pub record Files : Type 0 where
  pub ads_source : Option (List Ad)
  pub geo_source : Option (List Geo)
  pub geo_campaign_source : Option (List GeoCampaign)
  pub campaign_budget_source : Option (List CampaignBudget)

module _ {CA CG CC CB Q EB : Type 0} (ads_ix : UniqueIndex AdKey AdSize AdEntity CA)
    (geo_ix : UniqueIndex CityKey CityKey CityCountry CG)
    (geo_campaign_ix : UniqueIndex GeoCampaign ℕ GeoCampaign CC) (budget_ix : UniqueIndex ℕ Q EB CB)
    (ads_archive : Archive Ad) (budgets : Entity ℕ CampaignBudget EB) where
  -- BidderCaches::load
  unfoldable pub load_caches : Files → Containers CA CG CC CB → Loaded (Containers CA CG CC CB)
  load_caches files c =
      elim (load_records ads_ix (ads ads_archive) ad_keys files.ads_source c.ad_data) [
        | failed a ↦ failed (record c { ad_data = a })
        | loaded a ↦ elim (load_records geo_ix cities geo_keys files.geo_source c.geo_data) [
          | failed g ↦ failed (record c { ad_data = a; geo_data = g })
          | loaded g ↦
              elim (load_records geo_campaign_ix geo_campaigns geo_campaign_keys
                files.geo_campaign_source c.geo_campaign) [
                  | failed gc ↦ failed (record c { ad_data = a; geo_data = g; geo_campaign = gc })
                  | loaded gc ↦
                      elim (load budget_ix budgets files.campaign_budget_source c.budget) [
                        | failed b ↦
                            failed
                              (record { ad_data = a; geo_data = g; geo_campaign = gc; budget = b })
                        | loaded b ↦
                            loaded
                              (record { ad_data = a; geo_data = g; geo_campaign = gc; budget = b })
                      ]
                ]
        ]
      ]

  -- GeoDataEntity::retrieve, of one Geo; GeoCampaignEntity::retrieve and AdDataEntity::retrieve, into an
  -- empty vector; CampaignCache::retrieve.
  unfoldable pub serve_caches : Containers CA CG CC CB → BidderCaches
  serve_caches c = record {
    geo_data = λ city country.
        let r =
          retrieve geo_ix cities (record { city = city; country = country }) default_geo
            c.geo_data in
        if r.1 then some r.0 else none;
    geo_campaign =
        λ geo_id. (append_range geo_campaign_ix geo_campaigns geo_id [] c.geo_campaign).0;
    ad_data = λ campaign_id width height.
        (append_range ads_ix (ads ads_archive)
          (record { campaign = campaign_id; width = width; height = height }) [] c.ad_data).0;
    budget_cache = retrieve_budget budget_ix budgets c.budget;
  }
