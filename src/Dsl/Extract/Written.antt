-- ===== src/Dsl/Extract/Written.antt =====
-- A request written out as a `boost::any`, and what the extractors make of it.
use native.Mathlib.Nat.{mod-eq_of_lt}
use vanilla_rtb.Base.{
  ℕ, ◌<◌, ◌≡◌, refl, List, [], ◌∷◌, map, Option, none, some, Text, codes, ℤ, pos, negsuc, All,
  arith,
}
use vanilla_rtb.OpenRtb.{
  AdPosition, unknown, above, between_deprecated, below, header, footer, sidebar, fullscreen,
  undefined, unnamed, Banner, Geo, User, Impression, BidRequest,
}
use vanilla_rtb.Dsl.Values.{
  Any, empty, double, int64, view, map_of, vector_of, Members, no_members, member, Items, no_items,
  item, map_find,
}
use vanilla_rtb.Dsl.Blank.{
  Unset, blank_banner, blank_site, blank_request, blank_geo, blank_user, blank_impression,
}
use vanilla_rtb.Dsl.Extract.{
  member_at, assign_all, to_uint16, position_of, extract_geo, extract_user, extract_site,
  extract_banner, extract_impression, extract_items, extract_impressions, extract_request,
}

-- What a text says of a request, as far as the extractors read it.
pub record SaidBanner : Type 0 where
  pub w : ℕ
  pub h : ℕ
  pub position : AdPosition

pub record SaidImpression : Type 0 where
  pub id : Text
  pub banner : Option SaidBanner
  pub bidfloor : ℤ
  pub bidfloorcur : Text

pub record SaidGeo : Type 0 where
  pub city : Text
  pub country : Text

pub record Said : Type 0 where
  pub id : Text
  pub imp : List SaidImpression
  pub user : Option (Option SaidGeo)
  pub site : Option Text

-- The numbers of the enumerators.
abbrev pub position_number : AdPosition → ℤ
position_number unknown = pos 0
position_number above = pos 1
position_number between_deprecated = pos 2
position_number below = pos 3
position_number header = pos 4
position_number footer = pos 5
position_number sidebar = pos 6
position_number fullscreen = pos 7
position_number undefined = negsuc 0
position_number (unnamed b) = pos b

abbrev pub FitsByte : AdPosition → Type 0
FitsByte (unnamed b) = (7 < b) × (b < 255)
FitsByte _ = Unit

-- A member, if there is something to say.
abbrev pub optional : Text → Option Any → Members → Members
optional name none ms = ms
optional name (some v) ms = member name v ms

abbrev pub write_banner : SaidBanner → Any
write_banner b = map_of (
    member (codes "w") (int64 (pos b.w)) (
      member (codes "h") (int64 (pos b.h))
        (member (codes "pos") (int64 (position_number b.position)) no_members)))

abbrev pub write_impression : SaidImpression → Any
write_impression i = map_of (
    member (codes "id") (view i.id) (
      optional (codes "banner") (elim i.banner [ none ↦ none | some b ↦ some (write_banner b) ])
        (member (codes "bidfloor") (double i.bidfloor)
          (member (codes "bidfloorcur") (view i.bidfloorcur) no_members))))

abbrev pub write_geo : SaidGeo → Any
write_geo g =
    map_of
      (member (codes "city") (view g.city) (member (codes "country") (view g.country) no_members))

abbrev pub write_user : Option SaidGeo → Any
write_user none = map_of no_members
write_user (some g) = map_of (member (codes "geo") (write_geo g) no_members)

abbrev pub write_items : List SaidImpression → Items
write_items [] = no_items
write_items (i ∷ is) = item (write_impression i) (write_items is)

unfoldable pub write_said : Said → Any
write_said s = map_of (
    member (codes "id") (view s.id) (
      member (codes "imp") (vector_of (write_items s.imp)) (
        optional (codes "site")
          (elim s.site [
            | none ↦ none
            | some id ↦ some (map_of (member (codes "id") (view id) no_members))
          ])
          (optional (codes "user") (elim s.user [ none ↦ none | some g ↦ some (write_user g) ])
            no_members))))

-- The structures that say the same.
module _ (u : Unset) where
  abbrev pub banner_said : SaidBanner → Banner
  banner_said b = record (blank_banner u) { w = b.w; h = b.h; pos = b.position }

  abbrev pub impression_said : SaidImpression → Impression
  impression_said i = record blank_impression {
    id = i.id;
    banner = elim i.banner [ none ↦ none | some b ↦ some (banner_said b) ];
    bidfloor = i.bidfloor;
    bidfloorcur = i.bidfloorcur;
  }

  abbrev pub geo_said : SaidGeo → Geo
  geo_said g = record blank_geo { city = g.city; country = g.country }

  abbrev pub user_said : Option SaidGeo → User
  user_said none = blank_user
  user_said (some g) = record blank_user { geo = some (geo_said g) }

  unfoldable pub request_said : Said → BidRequest
  request_said s = record (blank_request u) {
    id = s.id;
    imp = map impression_said s.imp;
    user = elim s.user [ none ↦ none | some g ↦ some (user_said g) ];
    site = elim s.site [ none ↦ none | some id ↦ some (record (blank_site u) { id = id }) ];
  }

abbrev pub FitsBanner : SaidBanner → Type 0
FitsBanner b = (b.w < 65536) × (b.h < 65536) × FitsByte b.position

abbrev pub Fits : SaidImpression → Type 0
Fits i = elim i.banner [ none ↦ Unit | some b ↦ FitsBanner b ]

small : (b : ℕ) → FitsByte (unnamed b) → b < 256
small b h = omega arith

pub position_of-number : (p : AdPosition) → FitsByte p → position_of (position_number p) ≡ p
unfolding position_of
position_of-number (unnamed b) h = rw (mod-eq_of_lt (small b h)) (ground arith)
position_of-number _ h = refl

pub to_uint16-pos : (n : ℕ) → n < 65536 → to_uint16 (pos n) ≡ n
unfolding to_uint16
to_uint16-pos n h = omega arith

extract_user_empty : extract_user empty ≡ some none
unfolding extract_user
extract_user_empty = refl

module _ (u : Unset) where
  extract_banner_empty : extract_banner u empty ≡ some none
  unfolding extract_banner
  extract_banner_empty = refl

  extract-write_banner :
      (b : SaidBanner)
      → FitsBanner b
      → extract_banner u (write_banner b) ≡ some (some (banner_said u b))
  unfolding extract_banner assign_all member_at map_find
  extract-write_banner b fits =
      rw (to_uint16-pos b.w fits.0, to_uint16-pos b.h fits.1, position_of-number b.position fits.2)
        refl

  extract-write_parts :
      (id : Text) (banner : Option SaidBanner) (floor : ℤ) (cur : Text)
      → let i : SaidImpression = record {
        id = id;
        banner = banner;
        bidfloor = floor;
        bidfloorcur = cur;
      } in
        Fits i → extract_impression u (write_impression i) ≡ impression_said u i
  unfolding extract_impression assign_all member_at map_find
  extract-write_parts id none floor cur fits = rw extract_banner_empty refl
  extract-write_parts id (some b) floor cur fits = rw (extract-write_banner b fits) refl

  extract-write_impression :
      (i : SaidImpression)
      → Fits i
      → extract_impression u (write_impression i) ≡ impression_said u i
  extract-write_impression i fits = extract-write_parts i.id i.banner i.bidfloor i.bidfloorcur fits

  extract-write_items :
      (is : List SaidImpression)
      → All Fits is
      → extract_items u (write_items is) ≡ map (impression_said u) is
  unfolding extract_items
  extract-write_items [] fits = refl
  extract-write_items (i ∷ is) fits =
      rw (extract-write_impression i fits.0, extract-write_items is fits.1) refl

  extract-write_user :
      (g : Option SaidGeo) → extract_user (write_user g) ≡ some (some (user_said u g))
  unfolding extract_user extract_geo member_at map_find
  extract-write_user none = refl
  extract-write_user (some g) = refl

  extract-write_fields :
      (id : Text) (imp : List SaidImpression) (user : Option (Option SaidGeo)) (site : Option Text)
      → All Fits imp
      → let s : Said = record { id = id; imp = imp; user = user; site = site } in
        extract_request u (write_said s) ≡ request_said u s
  unfolding write_said request_said extract_request assign_all extract_impressions extract_site
      member_at map_find
  extract-write_fields id imp none none fits =
      rw (extract-write_items imp fits, extract_user_empty) refl
  extract-write_fields id imp none (some site) fits =
      rw (extract-write_items imp fits, extract_user_empty) refl
  extract-write_fields id imp (some g) none fits =
      rw (extract-write_items imp fits, extract-write_user g) refl
  extract-write_fields id imp (some g) (some site) fits =
      rw (extract-write_items imp fits, extract-write_user g) refl

  -- What a text says of the request's id, of its impressions (id, banner, floor, currency), of the
  -- user's city and country and of the site's id is what the extractor reads, where the sizes of the
  -- banners fit their type and the floors are written as doubles; all else is blank.
  pub extract-write :
      (s : Said) → All Fits s.imp → extract_request u (write_said s) ≡ request_said u s
  extract-write s fits = extract-write_fields s.id s.imp s.user s.site fits
