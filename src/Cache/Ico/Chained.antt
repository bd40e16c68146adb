-- ===== src/Cache/Ico/Chained.antt =====
-- The chained matchers of the ICO bidder over the loaded caches.
use mathlib.Core.List.{Mem, not-mem-nil}
use vanilla_rtb.Base.{
  ℕ, ◌≡◌, ◌⊎◌, refl, subst, List, [], ◌∷◌, map, All, Option, List-cases, none, some, Text, inl, inr,
}
use vanilla_rtb.OpenRtb.{Banner, BidRequest, Impression}
use vanilla_rtb.Budget.{CampaignBudget}
use vanilla_rtb.Selection.{Ad, kept_ad, chain_function}
use vanilla_rtb.Targeting.{BidderCaches, Checked, value, ico_ads}
use vanilla_rtb.Cache.Index.{UniqueIndex}
use vanilla_rtb.Cache.Entities.{Entity, Archive, IsArchive, AdKey, AdEntity, ads}
use vanilla_rtb.Cache.Campaigns.{loaded, load}
use vanilla_rtb.Cache.Loader.{load_records, append_range}
use vanilla_rtb.Cache.Loader.Found.{InRange}
use vanilla_rtb.Cache.Loader.Fits.{IsIndex, load_records-fits}
use vanilla_rtb.Cache.Matchers.{ad_keys, AdSize}
use vanilla_rtb.Cache.Matchers.Serves.{same_ad, same_ad_iff, fits_ad, ads-IsItem}
use vanilla_rtb.Cache.Matchers.Selects.{size_of}
use vanilla_rtb.Cache.Ico.{
  Domain, DomainEntity, domains, IcoCampaign, ico_campaigns, domain_keys, ico_campaign_keys,
  load_more, IcoFiles, Containers, load_ico, ad_caches, retrieve_domain, retrieve_domain_f,
  retrieve_ico_campaign_f, retrieve_campaign_ads_f, chained_ads,
}
use vanilla_rtb.Cache.Ico.Reached.{
  same_ico, same_ico_iff, fits_name, fits_domain, Advertised, Reaches, IsSearch, load_more-parts,
  campaigns_of, ico_ads-Reached,
}
use vanilla_rtb.Cache.Ico.Search.{find_name-Named, ico_campaigns-IsItem}

module _ {CD CI CA CB Q EB : Type 0} (domain_ix : UniqueIndex Domain Text DomainEntity CD)
    (ico_ix : UniqueIndex IcoCampaign ℕ IcoCampaign CI)
    (ads_ix : UniqueIndex AdKey AdSize AdEntity CA) (budget_ix : UniqueIndex ℕ Q EB CB)
    (ads_archive : Archive Ad) (budgets : Entity ℕ CampaignBudget EB) (host_of : Text → Option Text)
    (find_name : Text → CD → Option DomainEntity) where
  abbrev Caches : Type 0
  Caches = Containers domain_ix ico_ix ads_ix budget_ix ads_archive budgets host_of find_name

  abbrev chained : Caches → Text → BidRequest → Impression → Checked (List Ad)
  chained = chained_ads domain_ix ico_ix ads_ix budget_ix ads_archive budgets host_of find_name

  abbrev domain_step : Caches → Text → BidRequest → Impression → Option ℕ
  domain_step =
      retrieve_domain_f domain_ix ico_ix ads_ix budget_ix ads_archive budgets host_of find_name

  abbrev campaign_step : Caches → ℕ → BidRequest → Impression → Option (List IcoCampaign)
  campaign_step =
      retrieve_ico_campaign_f domain_ix ico_ix ads_ix budget_ix ads_archive budgets host_of
        find_name

  abbrev the_ads : Caches → BidderCaches
  the_ads = ad_caches domain_ix ico_ix ads_ix budget_ix ads_archive budgets host_of find_name

  domain_step-none :
      (c : Caches) (ref host : Text) (req : BidRequest) (imp : Impression)
      → host_of ref ≡ some host
      → find_name host c.0 ≡ none
      → domain_step c ref req imp ≡ none
  unfolding retrieve_domain_f retrieve_domain
  domain_step-none c ref host req imp known missing =
      rw (known, domain_step, retrieve_domain_f, retrieve_domain, missing) refl

  domain_step-some :
      (c : Caches) (ref host : Text) (req : BidRequest) (imp : Impression) (e : DomainEntity)
      → host_of ref ≡ some host
      → find_name host c.0 ≡ some e
      → domain_step c ref req imp ≡ some (domains.retrieve e).dom_id
  unfolding retrieve_domain_f retrieve_domain
  domain_step-some c ref host req imp e known found =
      rw (known, domain_step, retrieve_domain_f, retrieve_domain, found) refl

  campaign_step-cases :
      (c : Caches) (dom_id : ℕ) (req : BidRequest) (imp : Impression)
      → (((append_range ico_ix ico_campaigns dom_id [] c.1.0).0 ≡ [])
          × (campaign_step c dom_id req imp ≡ none))
        ⊎ ((g : IcoCampaign) × (rest : List IcoCampaign) × ((append_range ico_ix ico_campaigns
                dom_id [] c.1.0).0
              ≡ g ∷ rest)
            × (campaign_step c dom_id req imp ≡ some (g ∷ rest)))
  unfolding retrieve_ico_campaign_f append_range ico_campaigns
  campaign_step-cases c dom_id req imp = elim (List-cases (ico_ix.equal_range dom_id c.1.0)) [
    | inl e ↦ inl (rw e refl, rw e refl)
    | inr (g, rest, e) ↦ inr (g, map (λ x. x) rest, rw e refl, rw e refl)
  ]

  chained-no_domain :
      (c : Caches) (ref : Text) (req : BidRequest) (imp : Impression)
      → domain_step c ref req imp ≡ none
      → chained c ref req imp ≡ value []
  unfolding chained_ads chain_function
  chained-no_domain c ref req imp e = rw (e, chained, chained_ads, chain_function) refl

  chained-no_campaign :
      (c : Caches) (ref : Text) (req : BidRequest) (imp : Impression) (dom_id : ℕ)
      → domain_step c ref req imp ≡ some dom_id
      → campaign_step c dom_id req imp ≡ none
      → chained c ref req imp ≡ value []
  unfolding chained_ads chain_function
  chained-no_campaign c ref req imp dom_id e none_ =
      rw (e, chained, chained_ads, chain_function, none_) refl

  chained-campaigns :
      (c : Caches) (ref : Text) (req : BidRequest) (imp : Impression) (dom_id : ℕ) (banner : Banner)
      (g : IcoCampaign) (rest : List IcoCampaign)
      → domain_step c ref req imp ≡ some dom_id
      → campaign_step c dom_id req imp ≡ some (g ∷ rest)
      → imp.banner ≡ some banner
      → chained c ref req imp ≡ value (ico_ads (the_ads c) banner (campaigns_of (g ∷ rest)) [])
  unfolding chained_ads chain_function retrieve_campaign_ads_f
  chained-campaigns c ref req imp dom_id banner g rest e found shown =
      rw (e, chained, chained_ads, chain_function, found, shown) refl

  load_ico-parts :
      (files : IcoFiles) (c c' : Caches)
      → load_ico domain_ix ico_ix ads_ix budget_ix ads_archive budgets host_of find_name files c
        ≡ loaded c'
      → (load_records domain_ix domains domain_keys files.domain_source c.0 ≡ loaded c'.0)
        × (load_records ico_ix ico_campaigns ico_campaign_keys files.ico_campaign_source c.1.0
            ≡ loaded c'.1.0)
        × (load_records ads_ix (ads ads_archive) ad_keys files.ads_source c.1.1.0 ≡ loaded c'.1.1.0)
  unfolding load_ico
  load_ico-parts files c c' h =
      let domain_load = load_records domain_ix domains domain_keys files.domain_source in
      let ico_load =
        load_records ico_ix ico_campaigns ico_campaign_keys files.ico_campaign_source in
      let ads_load = load_records ads_ix (ads ads_archive) ad_keys files.ads_source in
      let budget_load = load budget_ix budgets files.campaign_budget_source in
      let (first, others) =
        load_more-parts domain_load (load_more ico_load (load_more ads_load budget_load)) c.0 c'.0
          c.1 c'.1 h in
      let (second, rest) =
        load_more-parts ico_load (load_more ads_load budget_load) c.1.0 c'.1.0 c.1.1 c'.1.1
          others in
      (
        first,
        second,
        (load_more-parts ads_load budget_load c.1.1.0 c'.1.1.0 c.1.1.1 c'.1.1.1 rest).0,
      )

  module _ (domain_law : IsIndex domain_ix domains fits_name)
      (search_law : IsSearch domain_ix find_name)
      (ico_law : IsIndex ico_ix ico_campaigns fits_domain)
      (ads_law : IsIndex ads_ix (ads ads_archive) fits_ad)
      (archive_law : IsArchive ads_archive kept_ad) (ds : List Domain) (is_ : List IcoCampaign)
      (as_ : List Ad) where
    -- The ads of a domain that was found.
    chained-Advertised :
        (c c' : Caches) (ref : Text) (req : BidRequest) (imp : Impression) (banner : Banner)
        (domain : Domain)
        → load_records ico_ix ico_campaigns ico_campaign_keys (some is_) c.1.0 ≡ loaded c'.1.0
        → load_records ads_ix (ads ads_archive) ad_keys (some as_) c.1.1.0 ≡ loaded c'.1.1.0
        → imp.banner ≡ some banner
        → domain_step c' ref req imp ≡ some domain.dom_id
        → (found : List Ad) × (chained c' ref req imp ≡ value found)
          × All (Advertised is_ as_ domain banner) (map kept_ad found)
          × ((ad : Ad) → Advertised is_ as_ domain banner ad → Mem ad (map kept_ad found))
    chained-Advertised c c' ref req imp banner domain ico_loaded ads_loaded shown found =
        let (only, all) =
          load_records-fits ico_ix ico_campaigns fits_domain ico_law same_ico same_ico_iff
            ico_campaign_keys (λ g. g) (ico_campaigns-IsItem ico_ix ico_law) is_ c.1.0 c'.1.0
            domain.dom_id ico_loaded in
        elim (campaign_step-cases c' domain.dom_id req imp) [
          | inl (empty_, stops) ↦ (
            [],
            chained-no_campaign c' ref req imp domain.dom_id found stops,
            tt,
            λ ad (g, d, fits, sized, e). absurd (not-mem-nil (subst (Mem g) empty_ (all g fits))),
          )
          | inr (g, rest, some_, goes) ↦
              let sized = λ (k : ℕ).
                load_records-fits ads_ix (ads ads_archive) fits_ad ads_law same_ad same_ad_iff
                  ad_keys kept_ad (ads-IsItem ads_ix ads_archive ads_law archive_law) as_ c.1.1.0
                  c'.1.1.0 (size_of k banner) ads_loaded in
              let reached =
                ico_ads-Reached is_ as_ (the_ads c') banner (λ k. (sized k).0) (λ k. (sized k).1)
                  domain (g ∷ rest)
                  (subst
                    (All
                      (InRange same_ico ico_campaign_keys (λ x. x) fits_domain domain.dom_id is_))
                    some_ only)
                  (λ x fits. subst (Mem x) some_ (all x fits)) in
              (
                ico_ads (the_ads c') banner (campaigns_of (g ∷ rest)) [],
                chained-campaigns c' ref req imp domain.dom_id banner g rest found goes shown,
                reached.0,
                reached.1,
              )
        ]

    -- Over containers that obey their laws, and an archive that gives back what the program's
    -- serialize function writes of an ad: when the four
    -- files of the ICO bidder have been loaded without an exception, its chained matchers find, for a
    -- referrer with a host and an impression with a banner, the ads of the files that one of the domain
    -- records of the host's name leads to, all of them and no others; and none if no record has the name.
    pub chained_ads-Reaches :
        (bs : Option (List CampaignBudget)) (c c' : Caches) (ref host : Text) (req : BidRequest)
        (imp : Impression) (banner : Banner)
        → load_ico domain_ix ico_ix ads_ix budget_ix ads_archive budgets host_of find_name
            (record {
              domain_source = some ds;
              ico_campaign_source = some is_;
              ads_source = some as_;
              campaign_budget_source = bs;
            })
            c
          ≡ loaded c'
        → host_of ref ≡ some host
        → imp.banner ≡ some banner
        → (found : List Ad) × (chained c' ref req imp ≡ value found)
          × Reaches ds is_ as_ host banner found
    chained_ads-Reaches bs c c' ref host req imp banner h known shown =
        let (domain_loaded, ico_loaded, ads_loaded) =
          load_ico-parts
            (record {
              domain_source = some ds;
              ico_campaign_source = some is_;
              ads_source = some as_;
              campaign_budget_source = bs;
            })
            c c' h in
        elim (find_name-Named domain_ix find_name domain_law search_law ds c.0 c'.0 host
          domain_loaded) [
            | inl (unnamed, missing) ↦ (
              [],
              chained-no_domain c' ref req imp (domain_step-none c' ref host req imp known missing),
              inl (unnamed, refl),
            )
            | inr (e, named, there) ↦
                let (found, answer, only, all) =
                  chained-Advertised c c' ref req imp banner (domains.retrieve e) ico_loaded
                    ads_loaded shown (domain_step-some c' ref host req imp e known there) in
                (found, answer, inr (domains.retrieve e, named, only, all))
          ]
