-- ===== src/Cache/Ico/Search.antt =====
-- The caches of the domains and of their campaigns: what a search for a name finds.
use mathlib.Core.List.{Mem, not-mem-nil, map-append}
use vanilla_rtb.Base.{
  ℕ, ◌≡◌, ◌⊎◌, refl, ap, ◌∙◌, subst, List, ◌∷◌, map, All, Option, Option-cases, none, some, Text,
  inl, inr,
}
use vanilla_rtb.Cache.Index.{UniqueIndex}
use vanilla_rtb.Cache.Campaigns.{loaded}
use vanilla_rtb.Cache.Loader.{load_records, append_range}
use vanilla_rtb.Cache.Loader.Found.{IsItem}
use vanilla_rtb.Cache.Loader.Fits.{IsIndex, load_records-fits}
use vanilla_rtb.Cache.Ico.{
  Domain, DomainEntity, domains, IcoCampaign, ico_campaigns, domain_keys, ico_campaign_keys,
}
use vanilla_rtb.Cache.Ico.Reached.{
  same_domain, same_domain_iff, fits_name, fits_domain, Named, IsSearch, All-middle,
}

module _ {CD : Type 0} (domain_ix : UniqueIndex Domain Text DomainEntity CD)
    (find_name : Text → CD → Option DomainEntity) (domain_law : IsIndex domain_ix domains fits_name)
    (search_law : IsSearch domain_ix find_name) where
  domains-IsItem : IsItem domain_ix domains domain_keys domain_keys
  unfolding domains
  domains-IsItem = record {
    key-item = λ d. domain_law.same_key (domains.store (domain_keys d) d);
    retrieve-item = λ d. refl;
  }

  -- What the search for a name finds.
  pub find_name-Named :
      (ds : List Domain) (c c' : CD) (host : Text)
      → load_records domain_ix domains domain_keys (some ds) c ≡ loaded c'
      → (((d : Domain) → Named ds host d → ⊥) × (find_name host c' ≡ none))
        ⊎ ((e : DomainEntity) × Named ds host (domains.retrieve e) × (find_name host c' ≡ some e))
  unfolding append_range
  find_name-Named ds c c' host h =
      let (only, all) =
        load_records-fits domain_ix domains fits_name domain_law same_domain same_domain_iff
          domain_keys domain_keys domains-IsItem ds c c' host h in
      elim (Option-cases (find_name host c')) [
        | inl missing ↦
            let empty_ = ap (map domains.retrieve) (search_law.search-none host c' missing) in
            inl (λ d named. not-mem-nil (subst (Mem d) empty_ (all d named)), missing)
        | inr (e, found) ↦
            let (before, after, range) = search_law.search-some host c' e found in
            inr (
              e,
              All-middle (Named ds host) (map domains.retrieve before) (domains.retrieve e)
                  (map domains.retrieve after)
                  (subst (All (Named ds host))
                    (ap (map domains.retrieve) range
                      ∙ map-append domains.retrieve before (e ∷ after))
                    only),
              found,
            )
      ]

module _ {CI : Type 0} (ico_ix : UniqueIndex IcoCampaign ℕ IcoCampaign CI)
    (ico_law : IsIndex ico_ix ico_campaigns fits_domain) where
  pub ico_campaigns-IsItem : IsItem ico_ix ico_campaigns ico_campaign_keys (λ g. g)
  unfolding ico_campaigns
  ico_campaigns-IsItem = record { key-item = λ d. ico_law.same_key d; retrieve-item = λ d. refl }
