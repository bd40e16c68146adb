-- ===== src/Records/Readers.antt =====
-- What the readers make of the lines of a file.
use vanilla_rtb.Base.{
  ℕ, ◌^◌, ◌<◌, ◌≡◌, ◌≢◌, refl, sym, subst, true, false, List, [], ◌∷◌, Option, some, Text, All, leb,
  length, arith, to_string, to_string-All,
}
use vanilla_rtb.Budget.{CampaignBudget, MetricType, undefined, cpm, cpc, cpa}
use vanilla_rtb.Records.{View, split_string, value, read_fields}
use vanilla_rtb.Records.Split.{IsPlain, join}

abbrev pub tab_only : Text
tab_only = b'\t' ∷ []

module _ {A : Type 0} (count : ℕ) (parse : List View → A → Option A) where
  -- A line with enough fields is parsed.
  pub read_fields-parse :
      (line : Text) (old new : A) (fields : List View)
      → split_string tab_only line ≡ some fields
      → leb count (length fields) ≡ true
      → parse fields old ≡ some new
      → read_fields count parse line old ≡ value new
  unfolding read_fields
  read_fields-parse line old new fields split enough parsed =
      rw (split, read_fields) (rw (enough, parsed) refl)

  -- A line without enough fields leaves the value as it was.
  pub read_fields_short :
      (line : Text) (old : A) (fields : List View)
      → split_string tab_only line ≡ some fields
      → leb count (length fields) ≡ false
      → read_fields count parse line old ≡ value old
  unfolding read_fields
  read_fields_short line old fields split few = rw (split, read_fields) (rw few refl)

abbrev pub metric_number : MetricType → ℕ
metric_number undefined = 0
metric_number cpm = 1
metric_number cpc = 2
metric_number cpa = 3

pub number-IsPlain : (n : ℕ) → All (IsPlain tab_only) (to_string n)
number-IsPlain n =
    let (c, cs, e, all) = to_string-All (IsPlain tab_only) (λ d h. ground arith) n in
    subst (All (IsPlain tab_only)) (sym e) all

pub to_string-filled : (n : ℕ) → to_string n ≢ []
to_string-filled n h = let (c, cs, e, all) = to_string-All (λ _. Unit {0}) (λ d h. tt) n in cc

module _ (lexical_cast : ℕ → Text → Option ℕ) where
  -- What is documented of lexical_cast: it reads a number that fits from its decimal text.
  abbrev pub ReadsBack : Type 0
  ReadsBack =
      ((n : ℕ) → n < 2 ^ 32 → lexical_cast 32 (to_string n) ≡ some n)
      × ((n : ℕ) → n < 2 ^ 64 → lexical_cast 64 (to_string n) ≡ some n)

  -- The fields of a budget's record.
  abbrev pub budget_fields : CampaignBudget → List Text
  budget_fields b =
      to_string b.campaign_id
      ∷ to_string b.day_budget_limit
      ∷ to_string b.day_budget_spent
      ∷ to_string (metric_number b.metric.type)
      ∷ to_string b.metric.value
      ∷ []

  -- A budget whose members are within their types, and without an overdraft.
  abbrev pub IsRecorded : CampaignBudget → Type 0
  IsRecorded b =
      (b.campaign_id < 2 ^ 32)
      × (b.day_budget_limit < 2 ^ 64)
      × (b.day_budget_spent < 2 ^ 64)
      × (b.day_budget_overdraft ≡ 0)
      × (b.metric.value < 2 ^ 64)

  -- The record of a budget: its fields, with tabs between them.
  abbrev pub budget_line : CampaignBudget → Text
  budget_line b = join tab_only b'\t' (budget_fields b)
