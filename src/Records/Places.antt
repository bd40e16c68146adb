-- ===== src/Records/Places.antt =====
-- The stream readers of Geo (examples/matchers/geo.hpp), Domain (domain.hpp) and ICOCampaign
-- (ico_campaign.hpp). boost::split of a line at its tabs is a parameter; `atol` is the C library's.
pub mod Lines
use vanilla_rtb.Base.{
  ℕ, zero, suc, ◌+◌, ◌-◌, ◌*◌, ◌%◌, ◌^◌, ◌&&◌, ◌>>=◌, Bool, true, false, List, [], ◌∷◌, Option,
  none, some, Text, ◌==◌, ltb, leb, if◌then◌else◌,
}
use vanilla_rtb.Targeting.{Geo}
use vanilla_rtb.Cache.Ico.{Domain, IcoCampaign}
use vanilla_rtb.Records.{View, Read, value, throws, undefined_read, read_fields}

abbrev pub is_digit : ℕ → Bool
is_digit c = leb b'0' c && ltb c 58

-- isspace
abbrev pub is_space : ℕ → Bool
is_space c = if c == b' ' then true else leb 9 c && leb c 13

-- atol: white space, a sign, and the digits up to the first other character.
unfoldable pub digits_onto : ℕ → Text → ℕ
digits_onto n [] = n
digits_onto n (c ∷ cs) =
    let more = digits_onto (n * 10 + (c - 48)) cs in if is_digit c then more else n

-- The value, cast to `uint32_t`; that of a number beyond a `long` is undefined.
abbrev pub as_uint32 : Bool → ℕ → Option ℕ
as_uint32 negative n =
    if negative
    then (if leb n (2 ^ 63) then some ((2 ^ 32 - n % 2 ^ 32) % 2 ^ 32) else none)
    else (if ltb n (2 ^ 63) then some (n % 2 ^ 32) else none)

unfoldable pub atol : Text → Option ℕ
unfolding digits_onto
atol [] = some 0
atol (c ∷ cs) =
    let skipped = atol cs in
    if is_space c
    then skipped
    else if c == b'-'
    then as_uint32 true (digits_onto 0 cs)
    else if c == b'+'
    then as_uint32 false (digits_onto 0 cs)
    else as_uint32 false (digits_onto 0 (c ∷ cs))

module _ (split : Text → List Text) where
  -- The values from the fields; too few of them leave the values as they were.
  unfoldable pub geo_fields : List Text → Geo → Read Geo
  geo_fields (f0 ∷ f1 ∷ f2 ∷ rest) old = elim (atol f0) [
    | none ↦ undefined_read
    | some n ↦ value (record old { geo_id = n; city = f1; country = f2 })
  ]
  geo_fields _ old = value old

  -- operator>> of Geo, which keeps the line also if it has too few fields.
  unfoldable pub read_geo : Text → Geo → Read Geo
  read_geo line old = geo_fields (split line) (record old { line = line })

  unfoldable pub domain_fields : List Text → Domain → Read Domain
  domain_fields (f0 ∷ f1 ∷ rest) old = elim (atol f1) [
    | none ↦ undefined_read
    | some n ↦ value (record { name = f0; dom_id = n })
  ]
  domain_fields _ old = value old

  -- operator>> of Domain
  unfoldable pub read_domain : Text → Domain → Read Domain
  read_domain line old = domain_fields (split line) old

module _ (lexical_cast : ℕ → Text → Option ℕ) where
  -- The fields of an ICOCampaign, and its operator>>.
  unfoldable pub parse_ico_campaign : List View → IcoCampaign → Option IcoCampaign
  parse_ico_campaign (f0 ∷ f1 ∷ rest) old = do
    domain_id ← lexical_cast 32 f0.text
    campaign_id ← lexical_cast 32 f1.text
    some (record { domain_id = domain_id; campaign_id = campaign_id })
  parse_ico_campaign _ old = none

  unfoldable pub read_ico_campaign : Text → IcoCampaign → Read IcoCampaign
  read_ico_campaign line old = read_fields 2 parse_ico_campaign line old
