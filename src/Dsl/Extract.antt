-- ===== src/Dsl/Extract.antt =====
-- rtb/DSL/extractors.hpp: the extractors from a `boost::any`. `none` is a `bad_any_cast` that leaves an
-- extractor; the error log is left out.
pub mod Written
pub mod Floors
use vanilla_rtb.Base.{
  ℕ, ◌-◌, ◌%◌, ◌==◌, List, [], ◌∷◌, map, Option, none, some, ◌>>=◌, Text, codes, ℤ, pos, negsuc,
  if◌then◌else◌,
}
use vanilla_rtb.OpenRtb.{
  AdPosition, unknown, above, between_deprecated, below, header, footer, sidebar, fullscreen,
  undefined, unnamed, Banner, Site, Geo, User, Impression, BidRequest,
}
use vanilla_rtb.Dsl.Values.{
  Any, empty, double, int64, boolean, view, map_of, vector_of, Members, Items, no_items, item,
  map_find,
}
use vanilla_rtb.Dsl.Blank.{
  Unset, blank_banner, blank_site, blank_request, blank_geo, blank_user, blank_impression,
}

-- m[name]: an empty value where there is none.
unfoldable pub member_at : Text → Members → Any
member_at name m = elim (map_find name m) [ some v ↦ v | none ↦ empty ]

-- any_cast<string_view &>, any_cast<double> and any_cast<int64_t> of m[name]
abbrev pub any_text : Any → Option Text
any_text (view s) = some s
any_text _ = none

abbrev pub any_double : Any → Option ℤ
any_double (double x) = some x
any_double _ = none

abbrev pub any_int64 : Any → Option ℤ
any_int64 (int64 n) = some n
any_int64 _ = none

-- The conversion of an `int64_t` to a `uint16_t`.
unfoldable pub to_uint16 : ℤ → ℕ
to_uint16 (pos n) = n % 65536
to_uint16 (negsuc n) = 65535 - n % 65536

-- static_cast<AdPosition>, by the low byte.
abbrev pub position_of_byte : ℕ → AdPosition
position_of_byte b =
    if b == 0
    then unknown
    else if b == 1
    then above
    else if b == 2
    then between_deprecated
    else if b == 3
    then below
    else if b == 4
    then header
    else if b == 5
    then footer
    else if b == 6
    then sidebar
    else if b == 7
    then fullscreen
    else if b == 255
    then undefined
    else unnamed b

unfoldable pub position_of : ℤ → AdPosition
position_of (pos n) = position_of_byte (n % 256)
position_of (negsuc n) = position_of_byte (255 - n % 256)

-- The body of a `try` whose handler only logs: the assignments up to the first that throws.
unfoldable pub assign_all : {S : Type 0} → List (S → Option S) → S → S
assign_all [] s = s
assign_all (f ∷ fs) s = elim (f s) [ none ↦ s | some s' ↦ assign_all fs s' ]

-- extractors<optional<Geo>>
unfoldable pub extract_geo : Any → Option (Option Geo)
extract_geo empty = some none
extract_geo (map_of m) = any_text (member_at (codes "city") m) >>= λ city.
    any_text (member_at (codes "country") m) >>= λ country.
    some (some (record blank_geo { city = city; country = country }))
extract_geo _ = none

-- extractors<optional<User>>
unfoldable pub extract_user : Any → Option (Option User)
extract_user empty = some none
extract_user (map_of m) =
    extract_geo (member_at (codes "geo") m) >>= λ geo. some (some (record blank_user { geo = geo }))
extract_user _ = none

module _ (u : Unset) where
  -- extractors<optional<Site>>
  unfoldable pub extract_site : Any → Option (Option Site)
  extract_site empty = some none
  extract_site (map_of m) =
      any_text (member_at (codes "id") m) >>= λ id. some (some (record (blank_site u) { id = id }))
  extract_site _ = none

  abbrev pub banner_steps : Members → List (Banner → Option Banner)
  banner_steps m =
      (λ b. any_int64 (member_at (codes "h") m) >>= λ h. some (record b { h = to_uint16 h }))
      ∷ (λ b. any_int64 (member_at (codes "w") m) >>= λ w. some (record b { w = to_uint16 w }))
      ∷ (λ b.
          any_int64 (member_at (codes "pos") m) >>= λ p. some (record b { pos = position_of p }))
      ∷ []

  -- extractors<optional<Banner>>
  unfoldable pub extract_banner : Any → Option (Option Banner)
  unfolding assign_all
  extract_banner empty = some none
  extract_banner (map_of m) = some (some (assign_all (banner_steps m) (blank_banner u)))
  extract_banner _ = none

  abbrev pub impression_steps : Members → List (Impression → Option Impression)
  impression_steps m =
      (λ i. any_text (member_at (codes "id") m) >>= λ id. some (record i { id = id }))
      ∷ (λ i. extract_banner (member_at (codes "banner") m) >>= λ b. some (record i { banner = b }))
      ∷ (λ i. any_double (member_at (codes "bidfloor") m) >>= λ x. some (record i { bidfloor = x }))
      ∷ (λ i. any_text (member_at (codes "bidfloorcur") m) >>= λ cur.
          some (record i { bidfloorcur = cur }))
      ∷ []

  -- extractors<Impression>
  unfoldable pub extract_impression : Any → Impression
  unfolding assign_all
  extract_impression (map_of m) = assign_all (impression_steps m) blank_impression
  extract_impression _ = blank_impression

  -- extractors<vector<Impression>>
  unfoldable pub extract_items : Items → List Impression
  extract_items no_items = []
  extract_items (item a xs) = extract_impression a ∷ extract_items xs

  unfoldable pub extract_impressions : Any → Option (List Impression)
  extract_impressions empty = some []
  extract_impressions (vector_of xs) = some (extract_items xs)
  extract_impressions _ = none

  abbrev pub request_steps : Members → List (BidRequest → Option BidRequest)
  request_steps m =
      (λ r. any_text (member_at (codes "id") m) >>= λ id. some (record r { id = id }))
      ∷ (λ r.
          extract_impressions (member_at (codes "imp") m) >>= λ imp. some (record r { imp = imp }))
      ∷ (λ r. extract_user (member_at (codes "user") m) >>= λ user. some (record r { user = user }))
      ∷ (λ r. extract_site (member_at (codes "site") m) >>= λ site. some (record r { site = site }))
      ∷ []

  -- extractors<BidRequest>
  unfoldable pub extract_request : Any → BidRequest
  unfolding assign_all
  extract_request (map_of m) = assign_all (request_steps m) (blank_request u)
  extract_request _ = blank_request u
