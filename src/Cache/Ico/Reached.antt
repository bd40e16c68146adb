-- ===== src/Cache/Ico/Reached.antt =====
-- Which ads the chained matchers of the ICO bidder reach over the loaded caches, by the records of the
-- files.
use mathlib.Core.List.{
  Mem, mem-cons, mem-map_of_mem, mem-append_left, mem-append_right, not-mem-nil, map-map,
  map-append,
}
use mathlib.Core.Logic.Or
use vanilla_rtb.Base.{
  ℕ, ◌&&◌, ◌==◌, ◌≡◌, ◌↔◌, ◌⊎◌, refl, sym, ap, ◌∙◌, subst, Bool, true, List, [], ◌∷◌, ◌++◌, map,
  All, Option, none, some, Text, text_eq, text_eq_iff, arith,
}
use vanilla_rtb.OpenRtb.{Banner}
use vanilla_rtb.Selection.{Ad, kept_ad}
use vanilla_rtb.Targeting.{BidderCaches, authorise, ico_ads}
use vanilla_rtb.Targeting.Authorised.{raw_ads, map-ico_ads}
use vanilla_rtb.Targeting.Chosen.{All-append}
use vanilla_rtb.Cache.Index.{UniqueIndex}
use vanilla_rtb.Cache.Campaigns.{Loaded, loaded}
use vanilla_rtb.Cache.Loader.Found.{InRange}
use vanilla_rtb.Cache.Matchers.{ad_keys}
use vanilla_rtb.Cache.Matchers.Serves.{same_ad, fits_ad}
use vanilla_rtb.Cache.Matchers.Selects.{size_of}
use vanilla_rtb.Cache.Ico.{Domain, IcoCampaign, domain_keys, ico_campaign_keys, load_more}

abbrev pub same_domain : Domain → Domain → Bool
same_domain j k = text_eq j.name k.name && j.dom_id == k.dom_id

abbrev pub same_ico : IcoCampaign → IcoCampaign → Bool
same_ico j k = j.domain_id == k.domain_id && j.campaign_id == k.campaign_id

abbrev pub fits_name : Text → Domain → Bool
fits_name q k = text_eq q k.name

abbrev pub fits_domain : ℕ → IcoCampaign → Bool
fits_domain q k = q == k.domain_id

pub same_domain_iff : (j k : Domain) → (same_domain j k ≡ true) ↔ (j ≡ k)
same_domain_iff j k = ground (arith, text_eq_iff j.name k.name)

pub same_ico_iff : (j k : IcoCampaign) → (same_ico j k ≡ true) ↔ (j ≡ k)
same_ico_iff j k = ground arith

-- A record of the domain.
abbrev pub Named : List Domain → Text → Domain → Type 0
Named ds host d = InRange same_domain domain_keys domain_keys fits_name host ds d

module _ (is_ : List IcoCampaign) (as_ : List Ad) where
  -- An ad of the files that is of the banner's size and of a campaign for the domain.
  abbrev pub Advertised : Domain → Banner → Ad → Type 0
  Advertised domain banner ad =
      (c : IcoCampaign) × (d : Ad) × InRange same_ico ico_campaign_keys (λ g. g) fits_domain
        domain.dom_id is_ c
      × InRange same_ad ad_keys kept_ad fits_ad (size_of c.campaign_id banner) as_ d
      × (kept_ad d ≡ ad)

module _ (ds : List Domain) (is_ : List IcoCampaign) (as_ : List Ad) where
  -- The ads for a host: none if no record has its name, and otherwise, for one of the records with the
  -- name, all that is advertised there and nothing else, whatever bids the budgets allow.
  abbrev pub Reaches : Text → Banner → List Ad → Type 0
  Reaches host banner found =
      (((d : Domain) → Named ds host d → ⊥) × (found ≡ []))
      ⊎ ((d : Domain) × Named ds host d
          × All (Advertised is_ as_ d banner) (map kept_ad found)
          × ((ad : Ad) → Advertised is_ as_ d banner ad → Mem ad (map kept_ad found)))

-- A search by a part of the key finds one of the elements in range, if there is one.
pub record IsSearch {K Q E C : Type 0} (ix : UniqueIndex K Q E C) (search : Q → C → Option E)
    : Type 0 where
  pub search-none : (q : Q) (c : C) → search q c ≡ none → ix.equal_range q c ≡ []
  pub search-some :
      (q : Q) (c : C) (e : E)
      → search q c ≡ some e
      → (before after : List E) × (ix.equal_range q c ≡ before ++ e ∷ after)

pub load_more-parts :
    {S T : Type 0} (entity : S → Loaded S) (others : T → Loaded T) (s s' : S) (t t' : T)
    → load_more entity others (s, t) ≡ loaded (s', t')
    → (entity s ≡ loaded s') × (others t ≡ loaded t')
unfolding load_more
load_more-parts entity others s s' t t' h = (ground arith, ground arith)

pub All-middle :
    {A : Type 0} (P : A → Type 0) (xs : List A) (x : A) (ys : List A) → All P (xs ++ x ∷ ys) → P x
All-middle P [] x ys all = all.0
All-middle P (y ∷ xs) x ys all = All-middle P xs x ys all.1

-- The bids that the matchers give change nothing else.
kept_ad-ico_ads :
    (caches : BidderCaches) (banner : Banner) (cs : List ℕ)
    → map kept_ad (ico_ads caches banner cs []) ≡ map kept_ad (raw_ads caches banner cs)
kept_ad-ico_ads caches banner cs =
    sym (map-map kept_ad (authorise 0) (ico_ads caches banner cs []))
    ∙ ap (map kept_ad) (map-ico_ads caches banner 0 cs [])
    ∙ map-map kept_ad (authorise 0) (raw_ads caches banner cs)

abbrev pub campaigns_of : List IcoCampaign → List ℕ
campaigns_of cs = map (λ c. c.campaign_id) cs

module _ (is_ : List IcoCampaign) (as_ : List Ad) (caches : BidderCaches) (banner : Banner)
    (ads_only : (k : ℕ)
      → All
          (InRange same_ad ad_keys kept_ad fits_ad (size_of k banner) as_)
          (caches.ad_data k banner.w banner.h))
    (ads_all : (k : ℕ) (d : Ad)
      → InRange same_ad ad_keys kept_ad fits_ad (size_of k banner) as_ d
      → Mem d (caches.ad_data k banner.w banner.h))
    (domain : Domain) where
  abbrev ForDomain : IcoCampaign → Type 0
  ForDomain c = InRange same_ico ico_campaign_keys (λ g. g) fits_domain domain.dom_id is_ c

  kept_ad-Advertised :
      (c : IcoCampaign) (found : List Ad)
      → ForDomain c
      → All (InRange same_ad ad_keys kept_ad fits_ad (size_of c.campaign_id banner) as_) found
      → All (Advertised is_ as_ domain banner) (map kept_ad found)
  kept_ad-Advertised c [] fits all = tt
  kept_ad-Advertised c (d ∷ found) fits (h, hs) =
      ((c, d, fits, h, refl), kept_ad-Advertised c found fits hs)

  raw_ads-Advertised :
      (cs : List IcoCampaign)
      → All ForDomain cs
      → All
          (Advertised is_ as_ domain banner)
          (map kept_ad (raw_ads caches banner (campaigns_of cs)))
  raw_ads-Advertised [] all = tt
  raw_ads-Advertised (c ∷ cs) (h, hs) =
      subst (All (Advertised is_ as_ domain banner))
        (sym (
          map-append kept_ad (caches.ad_data c.campaign_id banner.w banner.h)
            (raw_ads caches banner (campaigns_of cs))))
        (All-append (Advertised is_ as_ domain banner)
          (map kept_ad (caches.ad_data c.campaign_id banner.w banner.h))
          (map kept_ad (raw_ads caches banner (campaigns_of cs)))
          (kept_ad-Advertised c (caches.ad_data c.campaign_id banner.w banner.h) h
            (ads_only c.campaign_id))
          (raw_ads-Advertised cs hs))

  raw_ads-Mem :
      (c : IcoCampaign) (d : Ad) (cs : List IcoCampaign)
      → Mem c cs
      → Mem d (caches.ad_data c.campaign_id banner.w banner.h)
      → Mem d (raw_ads caches banner (campaigns_of cs))
  raw_ads-Mem c d [] mem there = absurd (not-mem-nil mem)
  raw_ads-Mem c d (x ∷ rest) mem there =
      Or.elim (hlevel) (mem-cons.0 mem)
        (λ e. mem-append_left (raw_ads caches banner (campaigns_of rest)) (
          subst (λ (y : IcoCampaign). Mem d (caches.ad_data y.campaign_id banner.w banner.h)) e
            there))
        (λ later.
          mem-append_right (caches.ad_data x.campaign_id banner.w banner.h)
            (raw_ads-Mem c d rest later there))

  -- The ads of all campaigns for the domain.
  pub ico_ads-Reached :
      (cs : List IcoCampaign)
      → All ForDomain cs
      → ((c : IcoCampaign) → ForDomain c → Mem c cs)
      → All
          (Advertised is_ as_ domain banner)
          (map kept_ad (ico_ads caches banner (campaigns_of cs) []))
        × ((ad : Ad)
            → Advertised is_ as_ domain banner ad
            → Mem ad (map kept_ad (ico_ads caches banner (campaigns_of cs) [])))
  ico_ads-Reached cs only all =
      let same = sym (kept_ad-ico_ads caches banner (campaigns_of cs)) in
      (
        subst (All (Advertised is_ as_ domain banner)) same (raw_ads-Advertised cs only),
        λ ad (c, d, fits, sized, e). subst (Mem ad) same (
            subst (λ x. Mem x (map kept_ad (raw_ads caches banner (campaigns_of cs)))) e
              (mem-map_of_mem kept_ad
                (raw_ads-Mem c d cs (all c fits) (ads_all c.campaign_id d sized)))),
      )
