-- ===== src/Tests/Loaded.antt =====
-- A run of the loading of the caches of examples/bidder/bidder_caches.hpp, over containers with room for
-- one element each.
use vanilla_rtb.Base.{
  ℕ, ◌≡◌, refl, [], ◌∷◌, ◌++◌, length, take, take-append_exact, Option, none, some, Text, codes,
  pos,
}
use vanilla_rtb.Budget.{CampaignBudget, default_budget, cpc}
use vanilla_rtb.Selection.{Ad, kept_ad, default_ad}
use vanilla_rtb.OpenRtb.{BidRequest, Impression, GeoType}
use vanilla_rtb.OpenRtb
use vanilla_rtb.Targeting.{Geo, default_geo, GeoCampaign, value, select}
use vanilla_rtb.Cache.Index.{UniqueIndex}
use vanilla_rtb.Cache.Entities.{
  Archive, IsArchive, AdKey, AdEntity, campaigns, ads, store_campaign, store_base, store_ad,
}
use vanilla_rtb.Cache.{insert, insert_data, clear}
use vanilla_rtb.Cache.Campaigns.{loaded, load, insert_all}
use vanilla_rtb.Cache.Loader.{insert_records, load_records}
use vanilla_rtb.Cache.Matchers.{
  CityKey, CityCountry, store_city, cities, geo_campaigns, AdSize, Containers, load_caches,
  serve_caches,
}
use vanilla_rtb.Cache.Loader.Fits.{IsIndex}
use vanilla_rtb.Cache.Matchers.Serves.{
  same_ad, same_ad_iff, same_city, same_city_iff, same_geo_campaign, same_geo_campaign_iff, fits_ad,
  fits_geo, Serves, load_caches-Serves,
}
use vanilla_rtb.Cache.Matchers.Selects.{IsBest, select-IsBest}
use vanilla_rtb.Tests.Samples.{banner_of, impression_of, two_impressions}
use vanilla_rtb.Tests.Slot.{room, room-IsLawful, Slot, slot, slot-IsCache}
use vanilla_rtb.Tests.Caches.{budgets, budgets-IsArchive, loaded_seven}

-- An archive of ads: the numbers, and the code behind its length.
abbrev pub ad_numbers : Ad → Text
ad_numbers d =
    d.ad_id
    ∷ d.campaign_id
    ∷ d.width
    ∷ d.height
    ∷ d.position
    ∷ d.max_bid_micros
    ∷ length d.code
    ∷ d.code

abbrev ad_from : Text → Ad
ad_from (i ∷ c ∷ w ∷ h ∷ p ∷ m ∷ n ∷ rest) = record {
  ad_id = i;
  campaign_id = c;
  width = w;
  height = h;
  position = p;
  max_bid_micros = m;
  auth_bid_micros = none;
  code = take n rest;
}
ad_from _ = default_ad

abbrev pub ad_archive : Archive Ad
ad_archive = record { write = ad_numbers; read = ad_from }

read-write : (d : Ad) (rest : Text) → ad_from (ad_numbers d ++ rest) ≡ kept_ad d
read-write d rest = rw (take-append_exact d.code rest) refl

pub ad_archive-IsArchive : IsArchive ad_archive kept_ad
ad_archive-IsArchive = record { read-write = read-write }

abbrev ad_key : AdEntity → AdKey
ad_key e = record { campaign = e.campaign_id; width = e.width; height = e.height; ad_id = e.ad_id }

abbrev pub ad_room : UniqueIndex AdKey AdSize AdEntity (Option AdEntity)
ad_room = room ad_key same_ad fits_ad same_ad_iff

pub ad_room-IsIndex : IsIndex ad_room (ads ad_archive) fits_ad
unfolding ads
ad_room-IsIndex = record {
  index_law = room-IsLawful ad_key same_ad fits_ad same_ad_iff;
  same_key = λ e. refl;
  same_fits = λ q k. refl;
}

abbrev city_key : CityCountry → CityKey
city_key e = record { city = e.city; country = e.country }

abbrev city_room : UniqueIndex CityKey CityKey CityCountry (Option CityCountry)
city_room = room city_key same_city same_city same_city_iff

city_room-IsIndex : IsIndex city_room cities same_city
unfolding cities
city_room-IsIndex = record {
  index_law = room-IsLawful city_key same_city same_city same_city_iff;
  same_key = λ e. refl;
  same_fits = λ q k. refl;
}

abbrev place_room : UniqueIndex GeoCampaign ℕ GeoCampaign (Option GeoCampaign)
place_room = room (λ g. g) same_geo_campaign fits_geo same_geo_campaign_iff

place_room-IsIndex : IsIndex place_room geo_campaigns fits_geo
unfolding geo_campaigns
place_room-IsIndex = record {
  index_law = room-IsLawful (λ g. g) same_geo_campaign fits_geo same_geo_campaign_iff;
  same_key = λ e. refl;
  same_fits = λ q k. refl;
}

-- The files: an ad of campaign 7, the city of Boston twice, the campaign of the place, and its budget.
abbrev pub banner : Ad
banner = record default_ad {
  ad_id = 3;
  campaign_id = 7;
  width = 728;
  height = 90;
  code = codes "x";
}

abbrev boston : ℕ → Geo
boston id = record default_geo { geo_id = id; city = codes "BOSTON"; country = codes "US" }

abbrev in_boston : GeoCampaign
in_boston = record { geo_id = 5; campaign_id = 7 }

abbrev pub seven : CampaignBudget
seven = record default_budget {
  campaign_id = 7;
  day_budget_limit = 100;
  metric = record { type = cpc; value = 9 };
}

abbrev Rooms : Type 0
Rooms = Containers (Option AdEntity) (Option CityCountry) (Option GeoCampaign) Slot

abbrev old : Rooms
old = record {
  ad_data = none;
  geo_data = some (record { city = codes "rome"; country = codes "it"; geo_id = 1 });
  geo_campaign = none;
  budget = none;
}

abbrev new : Rooms
new = record {
  ad_data = some (record {
    base = record { blob = ad_numbers banner };
    campaign_id = 7;
    width = 728;
    height = 90;
    ad_id = 3;
  });
  geo_data = some (record { city = codes "boston"; country = codes "us"; geo_id = 5 });
  geo_campaign = some in_boston;
  budget = some loaded_seven;
}

all_loaded :
    load_caches ad_room city_room place_room slot ad_archive
      (campaigns budgets)
      (record {
        ads_source = some (banner ∷ []);
        geo_source = some (boston 5 ∷ boston 6 ∷ []);
        geo_campaign_source = some (in_boston ∷ []);
        campaign_budget_source = some (seven ∷ []);
      })
      old
    ≡ loaded new
unfolding load_caches load_records insert_records insert insert_data clear ads store_ad store_base
    cities store_city geo_campaigns load insert_all campaigns store_campaign
all_loaded = refl

load_caches-Serves_example :
    Serves
      (banner ∷ [])
      (boston 5 ∷ boston 6 ∷ [])
      (in_boston ∷ [])
      (seven ∷ [])
      (serve_caches ad_room city_room place_room slot ad_archive (campaigns budgets) new)
load_caches-Serves_example =
    load_caches-Serves ad_room city_room place_room slot ad_archive (campaigns budgets)
      ad_room-IsIndex ad_archive-IsArchive city_room-IsIndex place_room-IsIndex
      (slot-IsCache budgets budgets-IsArchive) (banner ∷ []) (boston 5 ∷ boston 6 ∷ [])
      (in_boston ∷ []) (seven ∷ []) old new all_loaded

-- A user in Boston.
abbrev in_town : OpenRtb.Geo
in_town = record {
  lat = pos 0;
  lon = pos 0;
  type = GeoType.gps;
  utcoffset = pos 0;
  city = codes "Boston";
  country = codes "US";
  region = [];
  regionfips104 = [];
  metro = [];
  zip = [];
  ext = [];
}

abbrev townsman : OpenRtb.User
townsman = record {
  yob = pos 0;
  id = codes "u";
  buyeruid = [];
  gender = [];
  keywords = [];
  customdata = [];
  geo = some in_town;
  user_data = [];
  ext = [];
}

abbrev from_town : BidRequest
from_town = record two_impressions { user = some townsman }

abbrev pub top : Impression
top = impression_of (codes "top") (some (banner_of 728 90))

select-IsBest_example :
    (r : Option Ad) × (select
        (serve_caches ad_room city_room place_room slot ad_archive (campaigns budgets) new)
        none
        from_town
        top
      ≡ value r)
    × IsBest (banner ∷ []) (in_boston ∷ []) (seven ∷ []) 5 (banner_of 728 90) r
select-IsBest_example =
    select-IsBest (banner ∷ []) (boston 5 ∷ boston 6 ∷ []) (in_boston ∷ []) (seven ∷ [])
      (serve_caches ad_room city_room place_room slot ad_archive (campaigns budgets) new)
      (load_caches-Serves ad_room city_room place_room slot ad_archive (campaigns budgets)
        ad_room-IsIndex ad_archive-IsArchive city_room-IsIndex place_room-IsIndex
        (slot-IsCache budgets budgets-IsArchive) (banner ∷ []) (boston 5 ∷ boston 6 ∷ [])
        (in_boston ∷ []) (seven ∷ []) old new all_loaded)
      from_town top townsman in_town (boston 5) (banner_of 728 90) refl refl refl refl
