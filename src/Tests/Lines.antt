-- ===== src/Tests/Lines.antt =====
-- Runs of rtb/common/split_string.hpp and of the readers, with a parser of decimals.
use vanilla_rtb.Base.{
  none, All, ℕ, zero, suc, ◌+◌, ◌-◌, ◌*◌, ◌≡◌, refl, ap, ◌∙◌, List, [], ◌∷◌, Option, some, Text,
  codes, arith, to_string, decimal_onto,
}
use vanilla_rtb.Budget.{CampaignBudget, default_budget, cpc}
use vanilla_rtb.Selection.{default_ad}
use vanilla_rtb.Records.{
  View, split_string, split_from, value, throws, read_fields, read_ad, parse_ad, read_geo_campaign,
  parse_geo_campaign, read_lines,
}
use vanilla_rtb.Records.Split.{texts, IsPlain, EndsFilled, split_string-join}
use vanilla_rtb.Records.Places.{read_geo}
use vanilla_rtb.Records.Places.Lines.{IsField, IsSplit, geo_line, read_geo-line}
use vanilla_rtb.Targeting.{Geo, default_geo}
use vanilla_rtb.Records.Readers.{tab_only}

-- The number that decimal digits go on to write.
abbrev digits_onto : ℕ → Text → ℕ
digits_onto n [] = n
digits_onto n (c ∷ cs) = digits_onto (n * 10 + (c - 48)) cs

abbrev cast : ℕ → Text → Option ℕ
cast w t = some (digits_onto 0 t)

abbrev tens : ℕ → ℕ
tens zero = 10
tens (suc k) = 10 * tens k

-- An empty field between two separators is a field, and one behind the last separator is none.
separated :
    (fields : List View) × (split_string tab_only (codes "a\t\tb\t") ≡ some fields)
    × (texts fields ≡ codes "a" ∷ [] ∷ codes "b" ∷ [])
unfolding split_string split_from
separated = (_, refl, refl)

-- A separator in front is kept in the first field.
leading :
    (fields : List View) × (split_string tab_only (codes "\ta\tb") ≡ some fields)
    × (texts fields ≡ codes "\ta" ∷ codes "b" ∷ [])
unfolding split_string split_from
leading = (_, refl, refl)

-- The record of an ad with six fields passes the count, and the seventh is missing.
six_fields : read_ad cast (codes "1\t2\t300\t250\t0\t90") default_ad ≡ throws
unfolding read_ad read_fields split_string split_from parse_ad
six_fields = refl

-- A line with too few fields gives the record before once more.
repeated :
    read_lines
      (read_geo_campaign cast)
      (codes "1\t2" ∷ codes "x" ∷ [])
      (record { geo_id = 0; campaign_id = 0 })
    ≡ value (record { geo_id = 1; campaign_id = 2 } ∷ record { geo_id = 1; campaign_id = 2 } ∷ [])
unfolding read_lines read_geo_campaign read_fields split_string split_from parse_geo_campaign
repeated = refl

abbrev seven : CampaignBudget
seven = record default_budget {
  campaign_id = 7;
  day_budget_limit = 1000;
  metric = record { type = cpc; value = 30 };
}

-- boost::split, for lines without empty fields.
abbrev texts_of : Option (List View) → List Text
texts_of none = [] ∷ []
texts_of (some fields) = texts fields

abbrev split : Text → List Text
split line = texts_of (split_string tab_only line)

ends : (f : Text) (fs : List Text) → All IsField (f ∷ fs) → EndsFilled tab_only (f ∷ fs)
ends f [] h = h.0.0
ends f (g ∷ fs) h = ends g fs h.1

plain : (fs : List Text) → All IsField fs → All (All (IsPlain tab_only)) fs
plain [] h = tt
plain (f ∷ fs) h = (h.0.1, plain fs h.1)

split-IsSplit : IsSplit split
split-IsSplit = record {
  split-join = λ f fs h.
      let (fields, e, same) =
        split_string-join tab_only b'\t' f fs (refl, refl) h.0.0 (plain (f ∷ fs) h) (ends f fs h) in
      ap texts_of e ∙ same;
}

abbrev place : Geo
place = record { geo_id = 5; city = codes "Rome"; country = codes "IT"; line = codes "5\tRome\tIT" }

read_geo-line_example :
    read_geo split (geo_line 5 (codes "Rome") (codes "IT")) default_geo ≡ value place
unfolding to_string decimal_onto
read_geo-line_example =
    read_geo-line split split-IsSplit 5 (codes "Rome") (codes "IT") default_geo (omega arith)
      (λ e. cc, ((refl, refl), ((refl, refl), ((refl, refl), ((refl, refl), tt)))))
      (λ e. cc, ((refl, refl), ((refl, refl), tt)))
