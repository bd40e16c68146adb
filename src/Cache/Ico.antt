-- ===== src/Cache/Ico.antt =====
-- The caches and the chained matchers of the ICO bidder: DomainEntity (examples/matchers/domain.hpp),
-- ICOCampaignEntity (ico_campaign.hpp), GenericBidderCacheLoader of
-- rtb/datacache/generic_bidder_cache_loader.hpp and the lambdas of
-- examples/bidder_experimental/ico_campaign_bidder_test.cpp. The records are those that the readers make
-- of the files. The URI grammar and the search by a part of a key are parameters.
pub mod Reached
pub mod Search
pub mod Chained
use vanilla_rtb.Base.{
  ℕ, Bool, true, false, List, [], ◌∷◌, map, Option, none, some, Text, if◌then◌else◌,
}
use vanilla_rtb.OpenRtb.{BidRequest, Impression}
use vanilla_rtb.Budget.{CampaignBudget}
use vanilla_rtb.Selection.{Ad, Chain, terminal, link, chain_function, calculate_max_bid}
use vanilla_rtb.Targeting.{BidderCaches, Checked, value, empty_optional, to_lower, ico_ads}
use vanilla_rtb.Cache.Index.{UniqueIndex}
use vanilla_rtb.Cache.Entities.{Entity, Archive, AdKey, AdEntity, ads}
use vanilla_rtb.Cache.Campaigns.{Loaded, loaded, failed, load, retrieve_budget}
use vanilla_rtb.Cache.Loader.{load_records, append_range}
use vanilla_rtb.Cache.Matchers.{ad_keys, AdSize}

-- Domain
pub record Domain : Type 0 where
  pub name : Text
  pub dom_id : ℕ

-- Domain::Domain()
abbrev pub default_domain : Domain
default_domain = record { name = []; dom_id = 0 }

-- domain_entity
pub record DomainEntity : Type 0 where
  pub name : Text
  pub dom_id : ℕ

-- domain_entity::store and retrieve. The key of the index has the number too, which Keys leaves out.
unfoldable pub domains : Entity Domain Domain DomainEntity
domains = record {
  store = λ key d. record { name = key.name; dom_id = d.dom_id };
  retrieve = λ e. record { name = e.name; dom_id = e.dom_id };
  key_of = λ e. record { name = e.name; dom_id = e.dom_id };
}

-- ICOCampaign
pub record IcoCampaign : Type 0 where
  pub domain_id : ℕ
  pub campaign_id : ℕ

-- ICOCampaign::store and retrieve; as above of the key.
unfoldable pub ico_campaigns : Entity IcoCampaign IcoCampaign IcoCampaign
ico_campaigns = record {
  store = λ key g. record { domain_id = key.domain_id; campaign_id = g.campaign_id };
  retrieve = λ e. e;
  key_of = λ e. e;
}

-- The Keys that `load` makes of a record.
abbrev pub domain_keys : Domain → Domain
domain_keys d = record { name = map to_lower d.name; dom_id = d.dom_id }

abbrev pub ico_campaign_keys : IcoCampaign → IcoCampaign
ico_campaign_keys g = g

-- GenericBidderCacheLoader::load: the first entity, and then the others.
module _ {S T : Type 0} where
  unfoldable pub load_more : (S → Loaded S) → (T → Loaded T) → S × T → Loaded (S × T)
  load_more entity others (s, t) = elim (entity s) [
    | failed s' ↦ failed (s', t)
    | loaded s' ↦ elim (others t) [ failed t' ↦ failed (s', t') | loaded t' ↦ loaded (s', t') ]
  ]

-- The records of the four files; `none` is a file that does not open.
pub record IcoFiles : Type 0 where
  pub domain_source : Option (List Domain)
  pub ico_campaign_source : Option (List IcoCampaign)
  pub ads_source : Option (List Ad)
  pub campaign_budget_source : Option (List CampaignBudget)

-- The functions of the program, over the containers, over `host_of`, the host of a URI that parses, and
-- `find_name`, an element with a name.
module _ {CD CI CA CB Q EB : Type 0} (domain_ix : UniqueIndex Domain Text DomainEntity CD)
    (ico_ix : UniqueIndex IcoCampaign ℕ IcoCampaign CI)
    (ads_ix : UniqueIndex AdKey AdSize AdEntity CA) (budget_ix : UniqueIndex ℕ Q EB CB)
    (ads_archive : Archive Ad) (budgets : Entity ℕ CampaignBudget EB) (host_of : Text → Option Text)
    (find_name : Text → CD → Option DomainEntity) where
  -- The caches of the loader, in the order of its type.
  abbrev pub Containers : Type 0
  Containers = CD × (CI × (CA × CB))

  unfoldable pub load_ico : IcoFiles → Containers → Loaded Containers
  load_ico files = load_more (load_records domain_ix domains domain_keys files.domain_source) (
      load_more (load_records ico_ix ico_campaigns ico_campaign_keys files.ico_campaign_source) (
        load_more (load_records ads_ix (ads ads_archive) ad_keys files.ads_source)
          (load budget_ix budgets files.campaign_budget_source)))

  -- DomainEntity::retrieve
  unfoldable pub retrieve_domain : Domain → Text → CD → Domain × Bool
  retrieve_domain domain url c = elim (host_of url) [
    | none ↦ (domain, false)
    | some host ↦ elim (find_name host c) [
      | none ↦ (domain, false)
      | some e ↦ (domains.retrieve e, true)
    ]
  ]

  -- What the ads and the budgets answer; the ICO bidder has no places.
  abbrev pub ad_caches : Containers → BidderCaches
  ad_caches c = record {
    geo_data = λ _ _. none;
    geo_campaign = λ _. [];
    ad_data = λ campaign_id width height.
        (append_range ads_ix (ads ads_archive)
          (record { campaign = campaign_id; width = width; height = height }) [] c.1.1.0).0;
    budget_cache = retrieve_budget budget_ix budgets c.1.1.1;
  }

  -- retrieve_domain_f
  unfoldable pub retrieve_domain_f : Containers → Text → BidRequest → Impression → Option ℕ
  retrieve_domain_f c dom req imp =
      let (domain, found) = retrieve_domain default_domain dom c.0 in
      if found then some domain.dom_id else none

  -- retrieve_ico_campaign_f
  unfoldable pub retrieve_ico_campaign_f :
      Containers → ℕ → BidRequest → Impression → Option (List IcoCampaign)
  retrieve_ico_campaign_f c dom_id req imp =
      let (found_campaigns, found) = append_range ico_ix ico_campaigns dom_id [] c.1.0 in
      if found then some found_campaigns else none

  -- retrieve_campaign_ads_f
  unfoldable pub retrieve_campaign_ads_f :
      Containers → List IcoCampaign → BidRequest → Impression → Checked (List Ad)
  retrieve_campaign_ads_f c [] req imp = value []
  retrieve_campaign_ads_f c (g ∷ rest) req imp = elim imp.banner [
    | none ↦ empty_optional
    | some banner ↦
        value (ico_ads (ad_caches c) banner (g.campaign_id ∷ map (λ d. d.campaign_id) rest) [])
  ]

  -- The chained matchers of `bid`, from the referrer of the request's site on, and the choice among the
  -- ads.
  unfoldable pub chained_ads : Containers → Text → BidRequest → Impression → Checked (List Ad)
  chained_ads c ref req imp = chain_function (value []) req imp ref (
      link (retrieve_domain_f c)
        (link (retrieve_ico_campaign_f c) (terminal (retrieve_campaign_ads_f c))))

  unfoldable pub select_ico : Containers → Text → BidRequest → Impression → Checked Ad
  select_ico c ref req imp = elim (chained_ads c ref req imp) [
    | empty_optional ↦ empty_optional
    | value chosen_from ↦ value (calculate_max_bid chosen_from)
  ]
