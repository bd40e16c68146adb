-- ===== src/Dsl/Rapid.antt =====
-- rtb/DSL/extractors.hpp: the extractors from a rapidjson document, and rtb/DSL/rapid_mapper.hpp. The
-- document is that of the copy of rapidjson: here it is the value that a text stands for.
pub mod Agrees
use vanilla_rtb.Base.{
  ℕ, suc, ◌+◌, ◌-◌, ◌*◌, ◌^◌, ◌==◌, ◌&&◌, leb, ltb, Bool, true, false, List, [], ◌∷◌, Option, none,
  some, Text, codes, text_eq, length, ℤ, pos, negsuc, if◌then◌else◌,
}
use vanilla_rtb.OpenRtb.{Banner, Site, Geo, User, Impression, BidRequest}
use vanilla_rtb.Dsl.Blank.{
  Unset, blank_banner, blank_site, blank_request, blank_geo, blank_user, blank_impression,
}
use vanilla_rtb.Dsl.Extract.{to_uint16, position_of}

-- rapidjson::Value. A `real` is a `double`, in millionths; the members of an object keep their order,
-- and a name can stand twice.
mutual
  pub data Json : Type 0 where
    null : Json
    boolean : Bool → Json
    integer real : ℤ → Json
    string : Text → Json
    array : Elements → Json
    object : Fields → Json

  pub data Elements : Type 0 where
    no_elements : Elements
    element : Json → Elements → Elements

  pub data Fields : Type 0 where
    no_fields : Fields
    field : Text → Json → Fields → Fields

-- `aborted` is a failed RAPIDJSON_ASSERT, which no handler catches.
pub data Guarded (A : Type 0) : Type 0 where
  done : A → Guarded A
  aborted : Guarded A

infixl 5 ◌>>=◌
abbrev pub ◌>>=◌ : {A B : Type 0} → Guarded A → (A → Guarded B) → Guarded B
done a >>= f = f a
aborted >>= f = aborted

-- Value::operator[]: the first member of the name; there must be one.
unfoldable pub field_at : Text → Fields → Guarded Json
field_at name no_fields = aborted
field_at name (field k v fs) = if text_eq name k then done v else field_at name fs

-- GetString with GetStringLength, GetInt and GetDouble: each asks for a value of its kind.
abbrev pub get_string : Json → Guarded Text
get_string (string t) = done t
get_string _ = aborted

unfoldable pub get_int : Json → Guarded ℤ
get_int (integer (pos n)) = if ltb n (2 ^ 31) then done (pos n) else aborted
get_int (integer (negsuc n)) = if ltb n (2 ^ 31) then done (negsuc n) else aborted
get_int _ = aborted

abbrev pub millionths : ℤ → ℤ
millionths (pos n) = pos (n * 1000000)
millionths (negsuc n) = negsuc ((n + 1) * 1000000 - 1)

unfoldable pub get_double : Json → Guarded ℤ
get_double (real x) = done x
get_double (integer n) = done (millionths n)
get_double _ = aborted

-- !strcmp(name, wanted): what stands behind a NUL is not compared.
unfoldable pub up_to_nul : Text → Text
up_to_nul [] = []
up_to_nul (c ∷ s) = if c == 0 then [] else c ∷ up_to_nul s

abbrev pub is_called : Text → Text → Bool
is_called name wanted = text_eq (up_to_nul name) wanted

-- The loop over the members of an object.
unfoldable pub each_field : {S : Type 0} → (Text → Json → S → Guarded S) → Fields → S → Guarded S
each_field step no_fields s = done s
each_field step (field k v fs) s = step k v s >>= each_field step fs

-- extractors<optional<Geo>>
unfoldable pub rapid_geo : Json → Guarded (Option Geo)
rapid_geo (object m) = do
  city ← field_at (codes "city") m
  country ← field_at (codes "country") m
  city' ← get_string city
  country' ← get_string country
  done (some (record blank_geo { city = city'; country = country' }))
rapid_geo _ = done none

-- extractors<optional<User>>
unfoldable pub rapid_user : Json → Guarded (Option User)
rapid_user (object m) = do
  geo ← field_at (codes "geo") m
  geo' ← rapid_geo geo
  done (some (record blank_user { geo = geo' }))
rapid_user _ = done none

module _ (u : Unset) where
  -- extractors<optional<Site>>
  unfoldable pub rapid_site : Json → Guarded (Option Site)
  rapid_site (object m) = do
    id ← field_at (codes "id") m
    ref ← field_at (codes "ref") m
    id' ← get_string id
    ref' ← get_string ref
    done (some (record (blank_site u) { id = id'; impl = record { page = []; ref = ref' } }))
  rapid_site _ = done none

  -- extractors<optional<Banner>>
  unfoldable pub rapid_banner : Json → Guarded (Option Banner)
  rapid_banner (object m) = do
    h ← field_at (codes "h") m
    h' ← get_int h
    w ← field_at (codes "w") m
    w' ← get_int w
    p ← field_at (codes "pos") m
    p' ← get_int p
    done (
        some (record (blank_banner u) { h = to_uint16 h'; w = to_uint16 w'; pos = position_of p' }))
  rapid_banner _ = done none

  -- The body of the loop of extractors<Impression>.
  unfoldable pub impression_field : Text → Json → Impression → Guarded Impression
  unfolding up_to_nul
  impression_field name v imp =
      if is_called name (codes "id")
      then (get_string v >>= λ id. done (record imp { id = id }))
      else if is_called name (codes "banner")
      then (rapid_banner v >>= λ b. done (record imp { banner = b }))
      else if is_called name (codes "bidfloor")
      then (get_double v >>= λ x. done (record imp { bidfloor = x }))
      else if is_called name (codes "bidfloorcur")
      then (get_string v >>= λ cur. done (record imp { bidfloorcur = cur }))
      else done imp

  -- extractors<Impression>
  unfoldable pub rapid_impression : Json → Guarded Impression
  rapid_impression (object m) = each_field impression_field m blank_impression
  rapid_impression _ = done blank_impression

  -- extractors<vector<Impression>>
  unfoldable pub rapid_elements : Elements → Guarded (List Impression)
  rapid_elements no_elements = done []
  rapid_elements (element v vs) = do
    imp ← rapid_impression v
    imps ← rapid_elements vs
    done (imp ∷ imps)

  unfoldable pub rapid_impressions : Json → Guarded (List Impression)
  rapid_impressions (array vs) = rapid_elements vs
  rapid_impressions _ = done []

  -- The body of the loop of extractors<BidRequest>.
  unfoldable pub request_field : Text → Json → BidRequest → Guarded BidRequest
  unfolding up_to_nul
  request_field name v r =
      if (length name == 2) && is_called name (codes "id")
      then (get_string v >>= λ id. done (record r { id = id }))
      else if is_called name (codes "imp")
      then (rapid_impressions v >>= λ imp. done (record r { imp = imp }))
      else if is_called name (codes "user")
      then (rapid_user v >>= λ user. done (record r { user = user }))
      else if is_called name (codes "site")
      then (rapid_site v >>= λ site. done (record r { site = site }))
      else done r

  -- extractors<BidRequest>
  unfoldable pub rapid_request : Json → Guarded BidRequest
  rapid_request (object m) = each_field request_field m (blank_request u)
  rapid_request _ = done (blank_request u)

  -- rapid_mapper::extract, after Document::Parse; a text that it refuses gives a null document.
  unfoldable pub rapid_extract : (Text → Json) → Text → Guarded BidRequest
  rapid_extract parse js = rapid_request (parse js)
