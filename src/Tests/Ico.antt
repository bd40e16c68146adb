-- ===== src/Tests/Ico.antt =====
-- A run of the loading and of the chained matchers of
-- examples/bidder_experimental/ico_campaign_bidder_test.cpp, over containers with room for one element
-- each.
use vanilla_rtb.Base.{
  ℕ, ◌≡◌, refl, ap, Bool-cases, inl, inr, List, [], ◌∷◌, ◌++◌, drop, is_empty, Option, none, some,
  Text, codes, text_eq, if◌then◌else◌,
}
use vanilla_rtb.Selection.{Ad}
use vanilla_rtb.Targeting.{value}
use vanilla_rtb.Cache.Index.{UniqueIndex}
use vanilla_rtb.Cache.Entities.{AdEntity, campaigns, ads, store_ad, store_base, store_campaign}
use vanilla_rtb.Cache.{insert, insert_data, clear}
use vanilla_rtb.Cache.Campaigns.{loaded, load, insert_all}
use vanilla_rtb.Cache.Loader.{insert_records, load_records}
use vanilla_rtb.Cache.Loader.Fits.{IsIndex}
use vanilla_rtb.Cache.Ico.{
  Domain, DomainEntity, domains, IcoCampaign, ico_campaigns, load_more, load_ico, chained_ads,
}
use vanilla_rtb.Cache.Ico.Reached.{
  same_domain, same_domain_iff, same_ico, same_ico_iff, fits_name, fits_domain, Reaches, IsSearch,
}
use vanilla_rtb.Cache.Ico.Chained.{chained_ads-Reaches}
use vanilla_rtb.Tests.Samples.{banner_of, two_impressions}
use vanilla_rtb.Tests.Slot.{room, room-IsLawful, Slot, slot}
use vanilla_rtb.Tests.Caches.{budgets, loaded_seven}
use vanilla_rtb.Tests.Loaded.{
  ad_archive, ad_archive-IsArchive, ad_room, ad_room-IsIndex, ad_numbers, banner, seven, top,
}

abbrev domain_key : DomainEntity → Domain
domain_key e = record { name = e.name; dom_id = e.dom_id }

abbrev domain_room : UniqueIndex Domain Text DomainEntity (Option DomainEntity)
domain_room = room domain_key same_domain fits_name same_domain_iff

domain_room-IsIndex : IsIndex domain_room domains fits_name
unfolding domains
domain_room-IsIndex = record {
  index_law = room-IsLawful domain_key same_domain fits_name same_domain_iff;
  same_key = λ e. refl;
  same_fits = λ q k. refl;
}

abbrev find_name : Text → Option DomainEntity → Option DomainEntity
find_name q none = none
find_name q (some e) = if text_eq q e.name then some e else none

search-none :
    (q : Text) (c : Option DomainEntity) → find_name q c ≡ none → domain_room.equal_range q c ≡ []
search-none q none h = refl
search-none q (some e) h = elim (Bool-cases (text_eq q e.name)) [
  | inl hit ↦ let clash : some e ≡ none = rw hit at h in cc
  | inr miss ↦ rw miss refl
]

search-some :
    (q : Text) (c : Option DomainEntity) (e : DomainEntity)
    → find_name q c ≡ some e
    → (before after : List DomainEntity) × (domain_room.equal_range q c ≡ before ++ e ∷ after)
search-some q none e h = cc
search-some q (some x) e h = elim (Bool-cases (text_eq q x.name)) [
  | inl hit ↦
      let here : some x ≡ some e = rw hit at h in
      let same : x ≡ e = cc in ([], [], rw hit (ap (λ y. y ∷ []) same))
  | inr miss ↦ let clash : none ≡ some e = rw miss at h in cc
]

find_name-IsSearch : IsSearch domain_room find_name
find_name-IsSearch = record { search-none = search-none; search-some = search-some }

abbrev ico_room : UniqueIndex IcoCampaign ℕ IcoCampaign (Option IcoCampaign)
ico_room = room (λ g. g) same_ico fits_domain same_ico_iff

ico_room-IsIndex : IsIndex ico_room ico_campaigns fits_domain
unfolding ico_campaigns
ico_room-IsIndex = record {
  index_law = room-IsLawful (λ g. g) same_ico fits_domain same_ico_iff;
  same_key = λ e. refl;
  same_fits = λ q k. refl;
}

-- What stands behind `http://`.
abbrev host_of : Text → Option Text
host_of ref = if is_empty ref then none else some (drop 7 ref)

abbrev shop : Domain
shop = record { name = codes "Shop.Com"; dom_id = 4 }

abbrev on_shop : IcoCampaign
on_shop = record { domain_id = 4; campaign_id = 7 }

abbrev Rooms : Type 0
Rooms = Option DomainEntity × (Option IcoCampaign × (Option AdEntity × Slot))

abbrev old : Rooms
old = (some (record { name = codes "old.com"; dom_id = 1 }), (none, (none, none)))

abbrev new : Rooms
new = (
  some (record { name = codes "shop.com"; dom_id = 4 }),
  (
    some on_shop,
    (
      some (record {
        base = record { blob = ad_numbers banner };
        campaign_id = 7;
        width = 728;
        height = 90;
        ad_id = 3;
      }),
      some loaded_seven,
    ),
  ),
)

all_loaded :
    load_ico domain_room ico_room ad_room slot ad_archive
      (campaigns budgets)
      host_of
      find_name
      (record {
        domain_source = some (shop ∷ []);
        ico_campaign_source = some (on_shop ∷ []);
        ads_source = some (banner ∷ []);
        campaign_budget_source = some (seven ∷ []);
      })
      old
    ≡ loaded new
unfolding load_ico load_more load_records insert_records insert insert_data clear ads store_ad
    store_base domains ico_campaigns load insert_all campaigns store_campaign
all_loaded = refl

chained_ads-Reaches_example :
    (found : List Ad) × (chained_ads domain_room ico_room ad_room slot ad_archive
        (campaigns budgets)
        host_of
        find_name
        new
        (codes "http://shop.com")
        two_impressions
        top
      ≡ value found)
    × Reaches (shop ∷ []) (on_shop ∷ []) (banner ∷ []) (codes "shop.com") (banner_of 728 90) found
chained_ads-Reaches_example =
    chained_ads-Reaches domain_room ico_room ad_room slot ad_archive (campaigns budgets) host_of
      find_name domain_room-IsIndex find_name-IsSearch ico_room-IsIndex ad_room-IsIndex
      ad_archive-IsArchive (shop ∷ []) (on_shop ∷ []) (banner ∷ []) (some (seven ∷ [])) old new
      (codes "http://shop.com") (codes "shop.com") two_impressions top (banner_of 728 90) all_loaded
      refl refl
