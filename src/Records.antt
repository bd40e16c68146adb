-- ===== src/Records.antt =====
-- rtb/common/split_string.hpp and the stream readers of examples/: lines of fields, from which the
-- caches are loaded. boost::lexical_cast is a parameter; a character is its code.
pub mod Split
pub mod Readers
pub mod Places
use vanilla_rtb.Base.{
  ℕ, ◌%◌, ◌^◌, ◌>>=◌, Bool, true, false, List, [], ◌∷◌, ◌++◌, Option, none, some, Text, ◌==◌,
  if◌then◌else◌, is_empty, length, leb,
}
use vanilla_rtb.Budget.{MetricType, undefined, cpm, cpc, cpa, CampaignBudget}
use vanilla_rtb.Selection.{Ad}
use vanilla_rtb.Targeting.{GeoCampaign}

-- A string view: its characters, and those from its `data()` up to the end of the record.
pub record View : Type 0 where
  pub text : Text
  pub from : Text

abbrev pub is_any_of : Text → ℕ → Bool
is_any_of [] c = false
is_any_of (d ∷ ds) c = let rest = is_any_of ds c in if c == d then true else rest

-- The loop of split_string, with the characters between `begin` and the place that strpbrk has come to.
-- strpbrk finds nothing behind a null character.
unfoldable pub split_from : Text → Text → Text → List View
split_from delims passed [] =
    if is_empty passed then [] else record { text = passed; from = passed } ∷ []
split_from delims passed (c ∷ cs) =
    let next = split_from delims [] cs in
    let longer = split_from delims (passed ++ c ∷ []) cs in
    if c == 0
    then record { text = passed ++ c ∷ cs; from = passed ++ c ∷ cs } ∷ []
    else if is_any_of delims c
    then record { text = passed; from = passed ++ c ∷ cs } ∷ next
    else longer

-- split_string: the first search begins behind the first character, which an empty string has not got:
-- `none` is a read behind its end.
unfoldable pub split_string : Text → Text → Option (List View)
split_string delims [] = none
split_string delims (c ∷ cs) = some (split_from delims (c ∷ []) cs)

-- What a reader makes of a line: the value that it leaves; an exception; or the read above.
pub data Read (A : Type 0) : Type 0 where
  value : A → Read A
  throws : Read A
  undefined_read : Read A

module _ {A : Type 0} where
  -- Without enough fields the value stays as it was.
  unfoldable pub read_fields : ℕ → (List View → A → Option A) → Text → A → Read A
  read_fields count parse line old = elim (split_string (b'\t' ∷ []) line) [
    | none ↦ undefined_read
    | some fields ↦
        if leb count (length fields)
        then elim (parse fields old) [ none ↦ throws | some new ↦ value new ]
        else value old
  ]

  -- A std::istream_iterator over the lines of a file: what it answers for each.
  unfoldable pub read_lines : (Text → A → Read A) → List Text → A → Read (List A)
  read_lines read [] old = value []
  read_lines read (line ∷ lines) old = elim (read line old) [
    | throws ↦ throws
    | undefined_read ↦ undefined_read
    | value a ↦ elim (read_lines read lines a) [
      | throws ↦ throws
      | undefined_read ↦ undefined_read
      | value rest ↦ value (a ∷ rest)
    ]
  ]

-- The std::string that is assigned from a `char *`.
abbrev pub c_string : Text → Text
c_string [] = []
c_string (c ∷ cs) = let rest = c_string cs in if c == 0 then [] else c ∷ rest

-- The cast to an enumeration over `int8_t`. What is no enumerator is taken for `undefined`: the manager
-- offers nothing for either.
abbrev pub metric_type : ℕ → MetricType
metric_type n =
    if n % 256 == 1
    then cpm
    else if n % 256 == 2
    then cpc
    else if n % 256 == 3
    then cpa
    else undefined

-- `lexical_cast w` reads an unsigned number of `w` bits, and throws on anything else.
module _ (lexical_cast : ℕ → Text → Option ℕ) where
  -- The fields of an Ad: the seventh is looked for also if there are but six.
  unfoldable pub parse_ad : List View → Ad → Option Ad
  parse_ad (f0 ∷ f1 ∷ f2 ∷ f3 ∷ f4 ∷ f5 ∷ f6 ∷ rest) old = do
    ad_id ← lexical_cast 64 f0.text
    campaign_id ← lexical_cast 64 f1.text
    width ← lexical_cast 16 f2.text
    height ← lexical_cast 16 f3.text
    position ← lexical_cast 16 f4.text
    max_bid_micros ← lexical_cast 64 f5.text
    some (record {
      ad_id = ad_id;
      campaign_id = campaign_id % 2 ^ 32;
      width = width;
      height = height;
      position = position;
      max_bid_micros = max_bid_micros;
      auth_bid_micros = old.auth_bid_micros;
      code = c_string f6.from;
    })
  parse_ad _ old = none

  -- operator>> of Ad
  unfoldable pub read_ad : Text → Ad → Read Ad
  read_ad line old = read_fields 6 parse_ad line old

  -- The fields of a CampaignBudget, and its operator>>.
  unfoldable pub parse_budget : List View → CampaignBudget → Option CampaignBudget
  parse_budget (f0 ∷ f1 ∷ f2 ∷ f3 ∷ f4 ∷ rest) old = do
    campaign_id ← lexical_cast 32 f0.text
    day_budget_limit ← lexical_cast 64 f1.text
    day_budget_spent ← lexical_cast 64 f2.text
    type ← lexical_cast 32 f3.text
    amount ← lexical_cast 64 f4.text
    some (record {
      campaign_id = campaign_id;
      day_budget_limit = day_budget_limit;
      day_budget_spent = day_budget_spent;
      day_budget_overdraft = 0;
      metric = record { type = metric_type type; value = amount };
    })
  parse_budget _ old = none

  unfoldable pub read_budget : Text → CampaignBudget → Read CampaignBudget
  read_budget line old = read_fields 5 parse_budget line old

  -- The fields of a GeoCampaign, and its operator>>.
  unfoldable pub parse_geo_campaign : List View → GeoCampaign → Option GeoCampaign
  parse_geo_campaign (f0 ∷ f1 ∷ rest) old = do
    geo_id ← lexical_cast 32 f0.text
    campaign_id ← lexical_cast 32 f1.text
    some (record { geo_id = geo_id; campaign_id = campaign_id })
  parse_geo_campaign _ old = none

  unfoldable pub read_geo_campaign : Text → GeoCampaign → Read GeoCampaign
  read_geo_campaign line old = read_fields 2 parse_geo_campaign line old
