-- ===== src/Selection.antt =====
-- How an ad is chosen: the ad of examples/matchers/ad.hpp, rtb/core/algos.hpp, rtb/core/banker.hpp
-- and rtb/core/ad_selector.hpp.
pub mod Maximum
use vanilla_rtb.Base.{
  ℕ, Bool, true, false, ◌&&◌, List, [], ◌∷◌, Option, none, some, Text, ltb, is_some, if◌then◌else◌,
}
use vanilla_rtb.Budget.{CampaignBudget, authorize}

pub record Ad : Type 0 where
  pub ad_id : ℕ
  pub campaign_id : ℕ
  pub width : ℕ
  pub height : ℕ
  pub position : ℕ
  pub max_bid_micros : ℕ
  pub auth_bid_micros : Option ℕ
  pub code : Text

-- Ad::Ad()
abbrev pub default_ad : Ad
default_ad = record {
  ad_id = 0;
  campaign_id = 0;
  width = 0;
  height = 0;
  position = 0;
  max_bid_micros = 0;
  auth_bid_micros = none;
  code = [];
}

-- What boost::serialization::serialize of examples/bidder/serialization.hpp writes of an ad, read into a
-- fresh one: all but the authorised bid.
abbrev pub kept_ad : Ad → Ad
kept_ad ad = record default_ad {
  ad_id = ad.ad_id;
  campaign_id = ad.campaign_id;
  width = ad.width;
  height = ad.height;
  position = ad.position;
  max_bid_micros = ad.max_bid_micros;
  code = ad.code;
}

-- What Bidder::addBid asks for the ad, in micro dollars: the authorised amount, or the maximum.
abbrev pub bid_micros : Ad → ℕ
bid_micros ad = elim ad.auth_bid_micros [ none ↦ ad.max_bid_micros | some m ↦ m ]

-- The order of `boost::optional`: an empty value comes before every other.
abbrev pub optional_lt : Option ℕ → Option ℕ → Bool
optional_lt none none = false
optional_lt none (some b) = true
optional_lt (some a) none = false
optional_lt (some a) (some b) = ltb a b

-- The comparison that algorithm::calculate_max_bid and AdSelector::max_bid hand to max_element.
unfoldable pub bids_less : Ad → Ad → Bool
bids_less first second =
    if is_some first.auth_bid_micros && is_some second.auth_bid_micros
    then optional_lt first.auth_bid_micros second.auth_bid_micros
    else ltb first.max_bid_micros second.max_bid_micros

-- std::max_element: one pass that keeps the largest so far.
module _ {A : Type 0} (less : A → A → Bool) where
  unfoldable pub max_element : A → List A → A
  max_element largest [] = largest
  max_element largest (x ∷ xs) = max_element (if less largest x then x else largest) xs

-- algorithm::calculate_max_bid: an ad, also if there is none to choose from.
unfoldable pub calculate_max_bid : List Ad → Ad
calculate_max_bid [] = default_ad
calculate_max_bid (ad ∷ ads) = max_element bids_less ad ads

-- The functions of chained_selector::chain_function, of result `R`. A link answers an optional,
-- and what it holds is the next function's argument.
module _ (Req Imp R : Type 0) where
  pub data Chain : Type 0 → Type 1 where
    terminal : {A : Type 0} → (A → Req → Imp → R) → Chain A
    link : {A B : Type 0} → (A → Req → Imp → Option B) → Chain B → Chain A

module _ {Req Imp R : Type 0} where
  -- `empty` is the value `return_type()` of a chain that breaks off.
  unfoldable pub chain_function : {A : Type 0} → R → Req → Imp → A → Chain Req Imp R A → R
  chain_function empty req imp arg (terminal f) = f arg req imp
  chain_function empty req imp arg (link head rest) = elim (head arg req imp) [
    | none ↦ empty
    | some next_arg ↦ chain_function empty req imp next_arg rest
  ]

module _ {Req Imp : Type 0} where
  -- ad_selector::select, with the algorithm that `with_selection_algo` may have set. Null is `none`.
  unfoldable pub select :
      {A : Type 0}
      → Option (List Ad → Option Ad)
      → Req
      → Imp
      → A
      → Chain Req Imp (List Ad) A
      → Option Ad
  unfolding chain_function calculate_max_bid
  select algo req imp head funcs =
      let ads = chain_function [] req imp head funcs in
      elim algo [ none ↦ some (calculate_max_bid ads) | some f ↦ f ads ]

-- core::Banker::authorize, over the budgets that a cache answers.
unfoldable pub banker_authorize : (ℕ → CampaignBudget) → ℕ → ℕ
banker_authorize retrieve campaign_id = authorize (retrieve campaign_id)
