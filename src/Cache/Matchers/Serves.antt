-- ===== src/Cache/Matchers/Serves.antt =====
-- What the loaded caches of the bidder answer, by the records of their files.
use mathlib.Core.List.{Mem}
use vanilla_rtb.Base.{
  ℕ, ◌&&◌, ◌==◌, ◌≡◌, ◌↔◌, refl, ◌∙◌, Bool, true, List, map, All, Option-cases, inl, inr, none,
  some, Text, text_eq, text_eq_iff, if◌then◌else◌, arith,
}
use vanilla_rtb.Budget.{CampaignBudget, kept_budget, default_budget, authorize}
use vanilla_rtb.Selection.{Ad, kept_ad, banker_authorize}
use vanilla_rtb.Targeting.{Geo, default_geo, GeoCampaign, BidderCaches, to_lower}
use vanilla_rtb.Cache.Index.{UniqueIndex}
use vanilla_rtb.Cache.Entities.{Entity, Archive, IsArchive, AdKey, AdEntity, ads, ads-Keeps}
use vanilla_rtb.Cache.{retrieve}
use vanilla_rtb.Cache.Laws.{IsCache}
use vanilla_rtb.Cache.Campaigns.{loaded, load}
use vanilla_rtb.Cache.Campaigns.Loading.{first_record, load-authorize}
use vanilla_rtb.Cache.Loader.{load_records}
use vanilla_rtb.Cache.Loader.Found.{first_under, InRange, IsItem, load_records-find}
use vanilla_rtb.Cache.Loader.Fits.{IsIndex, load_records-fits}
use vanilla_rtb.Cache.Matchers.{
  CityKey, CityCountry, store_city, retrieve_city, cities, geo_campaigns, ad_keys, geo_keys,
  geo_campaign_keys, AdSize, Containers, Files, load_caches, serve_caches,
}

-- Equality of the keys, and what fits a question.
abbrev pub same_ad : AdKey → AdKey → Bool
same_ad j k =
    j.campaign == k.campaign && (j.width == k.width && (j.height == k.height && j.ad_id == k.ad_id))

abbrev pub same_city : CityKey → CityKey → Bool
same_city j k = text_eq j.city k.city && text_eq j.country k.country

abbrev pub same_geo_campaign : GeoCampaign → GeoCampaign → Bool
same_geo_campaign j k = j.geo_id == k.geo_id && j.campaign_id == k.campaign_id

abbrev pub fits_ad : AdSize → AdKey → Bool
fits_ad q k = q.campaign == k.campaign && (q.width == k.width && q.height == k.height)

abbrev pub fits_geo : ℕ → GeoCampaign → Bool
fits_geo q k = q == k.geo_id

pub same_ad_iff : (j k : AdKey) → (same_ad j k ≡ true) ↔ (j ≡ k)
same_ad_iff j k = ground arith

pub same_city_iff : (j k : CityKey) → (same_city j k ≡ true) ↔ (j ≡ k)
same_city_iff j k = ground (arith, text_eq_iff j.city k.city, text_eq_iff j.country k.country)

pub same_geo_campaign_iff : (j k : GeoCampaign) → (same_geo_campaign j k ≡ true) ↔ (j ≡ k)
same_geo_campaign_iff j k = ground arith

-- A city comes back in lower case, without its line.
abbrev pub kept_geo : Geo → Geo
kept_geo g = record default_geo {
  geo_id = g.geo_id;
  city = map to_lower g.city;
  country = map to_lower g.country;
}

-- The answers by the records: of each city the first record; the campaigns of a place, and the ads of a
-- campaign and a size, by the first record under each whole key; the budget by the first record of the
-- campaign.
pub record Serves (as_ : List Ad) (gs : List Geo) (cs : List GeoCampaign) (bs : List CampaignBudget)
    (b : BidderCaches) : Type 0 where
  pub places :
      (city country : Text)
      → b.geo_data city country
        ≡ elim (first_under same_city geo_keys (record { city = city; country = country }) gs) [
          | none ↦ none
          | some g ↦ some (kept_geo g)
        ]
  pub campaigns_only :
      (geo_id : ℕ)
      → All
          (InRange same_geo_campaign geo_campaign_keys (λ g. g) fits_geo geo_id cs)
          (b.geo_campaign geo_id)
  pub campaigns_all :
      (geo_id : ℕ) (g : GeoCampaign)
      → InRange same_geo_campaign geo_campaign_keys (λ g. g) fits_geo geo_id cs g
      → Mem g (b.geo_campaign geo_id)
  pub ads_only :
      (campaign width height : ℕ)
      → All
          (InRange same_ad ad_keys kept_ad fits_ad
            (record { campaign = campaign; width = width; height = height })
            as_)
          (b.ad_data campaign width height)
  pub ads_all :
      (campaign width height : ℕ) (ad : Ad)
      → InRange same_ad ad_keys kept_ad fits_ad
          (record { campaign = campaign; width = width; height = height })
          as_
          ad
      → Mem ad (b.ad_data campaign width height)
  pub budgets :
      (k : ℕ) → banker_authorize b.budget_cache k ≡ authorize (first_record k default_budget bs).0

module _ {CA : Type 0} (ads_ix : UniqueIndex AdKey AdSize AdEntity CA) (ads_archive : Archive Ad)
    (ads_law : IsIndex ads_ix (ads ads_archive) fits_ad)
    (archive_law : IsArchive ads_archive kept_ad) where
  pub ads-IsItem : IsItem ads_ix (ads ads_archive) ad_keys kept_ad
  ads-IsItem = record {
    key-item = λ d.
        ads_law.same_key ((ads ads_archive).store (ad_keys d) d)
        ∙ (ads-Keeps ads_archive archive_law).key_of-store (ad_keys d) d;
    retrieve-item = λ d. (ads-Keeps ads_archive archive_law).retrieve-store (ad_keys d) d;
  }

module _ {CA CG CC CB Q EB : Type 0} (ads_ix : UniqueIndex AdKey AdSize AdEntity CA)
    (geo_ix : UniqueIndex CityKey CityKey CityCountry CG)
    (geo_campaign_ix : UniqueIndex GeoCampaign ℕ GeoCampaign CC) (budget_ix : UniqueIndex ℕ Q EB CB)
    (ads_archive : Archive Ad) (budget_entity : Entity ℕ CampaignBudget EB) where
  load_caches-parts :
      (files : Files) (c c' : Containers CA CG CC CB)
      → load_caches ads_ix geo_ix geo_campaign_ix budget_ix ads_archive budget_entity files c
        ≡ loaded c'
      → (load_records ads_ix (ads ads_archive) ad_keys files.ads_source c.ad_data
          ≡ loaded c'.ad_data)
        × (load_records geo_ix cities geo_keys files.geo_source c.geo_data ≡ loaded c'.geo_data)
        × (load_records geo_campaign_ix geo_campaigns geo_campaign_keys files.geo_campaign_source
              c.geo_campaign
            ≡ loaded c'.geo_campaign)
        × (load budget_ix budget_entity files.campaign_budget_source c.budget ≡ loaded c'.budget)
  unfolding load_caches
  load_caches-parts files c c' h = (ground arith, ground arith, ground arith, ground arith)

  module _ (ads_law : IsIndex ads_ix (ads ads_archive) fits_ad)
      (archive_law : IsArchive ads_archive kept_ad) (geo_law : IsIndex geo_ix cities same_city)
      (geo_campaign_law : IsIndex geo_campaign_ix geo_campaigns fits_geo)
      (budget_law : IsCache budget_ix budget_entity kept_budget) where
    cities-IsItem : IsItem geo_ix cities geo_keys kept_geo
    unfolding cities store_city retrieve_city
    cities-IsItem = record {
      key-item = λ d. geo_law.same_key (store_city (geo_keys d) d);
      retrieve-item = λ d. refl;
    }

    geo_campaigns-IsItem : IsItem geo_campaign_ix geo_campaigns geo_campaign_keys (λ g. g)
    unfolding geo_campaigns
    geo_campaigns-IsItem = record {
      key-item = λ d. geo_campaign_law.same_key d;
      retrieve-item = λ d. refl;
    }

    retrieve-place :
        (gs : List Geo) (c c' : CG) (k : CityKey)
        → load_records geo_ix cities geo_keys (some gs) c ≡ loaded c'
        → (let r = retrieve geo_ix cities k default_geo c' in if r.1 then some r.0 else none)
          ≡ elim (first_under same_city geo_keys k gs) [ none ↦ none | some g ↦ some (kept_geo g) ]
    unfolding retrieve cities retrieve_city
    retrieve-place gs c c' k h =
        let there =
          load_records-find geo_ix cities geo_law.index_law same_city same_city_iff geo_keys
            kept_geo cities-IsItem gs c c' h k in
        elim (Option-cases (first_under same_city geo_keys k gs)) [
          | inl missing ↦ rw (there, retrieve, missing) refl
          | inr (g, first) ↦ rw (there, retrieve, first) refl
        ]

    -- Over containers that obey their laws, and archives that give back what the program's
    -- serialize functions write: when the four
    -- files of the bidder have been loaded without an exception, its caches answer by the records of the
    -- files alone, and what they held before plays no part.
    pub load_caches-Serves :
        (as_ : List Ad) (gs : List Geo) (cs : List GeoCampaign) (bs : List CampaignBudget)
        (c c' : Containers CA CG CC CB)
        → load_caches ads_ix geo_ix geo_campaign_ix budget_ix ads_archive budget_entity
            (record {
              ads_source = some as_;
              geo_source = some gs;
              geo_campaign_source = some cs;
              campaign_budget_source = some bs;
            })
            c
          ≡ loaded c'
        → Serves as_ gs cs bs
            (serve_caches ads_ix geo_ix geo_campaign_ix budget_ix ads_archive budget_entity c')
    unfolding serve_caches
    load_caches-Serves as_ gs cs bs c c' h =
        let (a, g, gc, b) =
          load_caches-parts
            (record {
              ads_source = some as_;
              geo_source = some gs;
              geo_campaign_source = some cs;
              campaign_budget_source = some bs;
            })
            c c' h in
        let campaigns_ = λ (q : ℕ).
          load_records-fits geo_campaign_ix geo_campaigns fits_geo geo_campaign_law
            same_geo_campaign same_geo_campaign_iff geo_campaign_keys (λ g. g) geo_campaigns-IsItem
            cs c.geo_campaign c'.geo_campaign q gc in
        let ads_ = λ (q : AdSize).
          load_records-fits ads_ix (ads ads_archive) fits_ad ads_law same_ad same_ad_iff ad_keys
            kept_ad (ads-IsItem ads_ix ads_archive ads_law archive_law) as_ c.ad_data c'.ad_data q
            a in
        record {
          places = λ city country.
              retrieve-place gs c.geo_data c'.geo_data (record { city = city; country = country })
                g;
          campaigns_only = λ q. (campaigns_ q).0;
          campaigns_all = λ q. (campaigns_ q).1;
          ads_only = λ k w h. (ads_ (record { campaign = k; width = w; height = h })).0;
          ads_all = λ k w h. (ads_ (record { campaign = k; width = w; height = h })).1;
          budgets =
              λ k. load-authorize budget_ix budget_entity budget_law bs c.budget c'.budget k b;
        }
