-- ===== src/Dsl/Rapid/Agrees.antt =====
-- The two mappers on the same text.
use vanilla_rtb.Base.{
  ℕ, ◌^◌, ◌<◌, ◌≡◌, refl, Bool, true, false, List, [], ◌∷◌, map, Option, none, some, Text, ℤ, pos,
  All, if◌then◌else◌, arith, lt→ltb,
}
use vanilla_rtb.OpenRtb.{AdPosition, unnamed}
use vanilla_rtb.Dsl.Values.{
  Any, empty, double, int64, boolean, view, map_of, vector_of, Members, no_members, member, Items,
  no_items, item,
}
use vanilla_rtb.Dsl.Blank.{Unset}
use vanilla_rtb.Dsl.Extract.{extract_request}
use vanilla_rtb.Dsl.Extract.Written.{
  SaidBanner, SaidImpression, SaidGeo, Said, position_number, FitsByte, FitsBanner, Fits,
  write_banner, write_impression, write_items, write_said, banner_said, impression_said,
  request_said, position_of-number, to_uint16-pos, extract-write,
}
use vanilla_rtb.Dsl.Rapid.{
  Json, null, integer, real, string, array, object, Elements, no_elements, element, Fields,
  no_fields, field, done, aborted, get_int, get_double, field_at, each_field, impression_field,
  request_field, rapid_geo, rapid_user, rapid_site, rapid_banner, rapid_impression, rapid_elements,
  rapid_impressions, rapid_request,
}

-- The document of the text that is read as a `boost::any`.
unfoldable mutual
  pub to_json : Any → Json
  to_json empty = null
  to_json (double x) = real x
  to_json (int64 n) = integer n
  to_json (boolean b) = Json.boolean b
  to_json (view s) = string s
  to_json (map_of m) = object (to_fields m)
  to_json (vector_of xs) = array (to_elements xs)

  pub to_fields : Members → Fields
  to_fields no_members = no_fields
  to_fields (member name v ms) = field name (to_json v) (to_fields ms)

  pub to_elements : Items → Elements
  to_elements no_items = no_elements
  to_elements (item v xs) = element (to_json v) (to_elements xs)

get_int-size : (n : ℕ) → n < 65536 → get_int (integer (pos n)) ≡ done (pos n)
unfolding get_int
get_int-size n h = rw (lt→ltb n (2 ^ 31) (omega arith)) refl

get_int-position :
    (p : AdPosition) → FitsByte p → get_int (integer (position_number p)) ≡ done (position_number p)
unfolding get_int
get_int-position (unnamed b) h = rw (lt→ltb b (2 ^ 31) (omega arith)) refl
get_int-position _ h = refl

-- A user without a `geo`, and a site, which says no `ref` here.
abbrev pub is_complete : Said → Bool
is_complete s = elim s.site [
  | some id ↦ false
  | none ↦ elim s.user [ none ↦ true | some g ↦ elim g [ none ↦ false | some _ ↦ true ] ]
]

module _ (u : Unset) where
  rapid-banner :
      (b : SaidBanner)
      → FitsBanner b
      → rapid_banner u (to_json (write_banner b)) ≡ done (some (banner_said u b))
  unfolding rapid_banner field_at to_json
  rapid-banner b fits =
      rw (get_int-size b.h fits.1, get_int-size b.w fits.0, get_int-position b.position fits.2)
        (rw
          (to_uint16-pos b.w fits.0, to_uint16-pos b.h fits.1, position_of-number b.position fits.2)
          refl)

  rapid-impression :
      (id : Text) (banner : Option SaidBanner) (floor : ℤ) (cur : Text)
      → let i : SaidImpression = record {
        id = id;
        banner = banner;
        bidfloor = floor;
        bidfloorcur = cur;
      } in
        Fits i → rapid_impression u (to_json (write_impression i)) ≡ done (impression_said u i)
  unfolding rapid_impression each_field impression_field get_double to_json
  rapid-impression id none floor cur fits = refl
  rapid-impression id (some b) floor cur fits = rw (rapid-banner b fits) refl

  rapid-items :
      (is : List SaidImpression)
      → All Fits is
      → rapid_elements u (to_elements (write_items is)) ≡ done (map (impression_said u) is)
  unfolding rapid_elements to_json
  rapid-items [] fits = refl
  rapid-items (i ∷ is) fits =
      rw (rapid-impression i.id i.banner i.bidfloor i.bidfloorcur fits.0, rapid-items is fits.1)
        refl

  rapid-parts :
      (id : Text) (imp : List SaidImpression) (user : Option (Option SaidGeo)) (site : Option Text)
      → All Fits imp
      → let s : Said = record { id = id; imp = imp; user = user; site = site } in
        rapid_request u (to_json (write_said s))
        ≡ (if is_complete s then done (request_said u s) else aborted)
  unfolding rapid_request each_field request_field rapid_impressions rapid_user rapid_geo rapid_site
      field_at to_json write_said request_said
  rapid-parts id imp none none fits = rw (rapid-items imp fits) refl
  rapid-parts id imp (some none) none fits = rw (rapid-items imp fits) refl
  rapid-parts id imp (some (some g)) none fits = rw (rapid-items imp fits) refl
  rapid-parts id imp user (some site) fits = rw (rapid-items imp fits) refl

  pub rapid_request-agrees :
      (s : Said)
      → All Fits s.imp
      → rapid_request u (to_json (write_said s))
        ≡ (if is_complete s then done (extract_request u (write_said s)) else aborted)
  rapid_request-agrees s fits =
      rw (extract-write u s fits) (rapid-parts s.id s.imp s.user s.site fits)
