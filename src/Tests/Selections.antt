-- ===== src/Tests/Selections.antt =====
-- Runs of rtb/core/algos.hpp and rtb/core/ad_selector.hpp.
use vanilla_rtb.Base.{◌≡◌, refl, List, [], ◌∷◌, none, some, inl, to_string, codes, Text}
use vanilla_rtb.Selection.{
  Ad, default_ad, bids_less, max_element, bid_micros, calculate_max_bid, Chain, terminal, link,
  select, chain_function,
}
use vanilla_rtb.Selection.Maximum.{FirstMax, calculate_max_bid-FirstMax}
use vanilla_rtb.Tests.Samples.{ad_of}

abbrev ads : List Ad
ads = ad_of 1 500 (some 300) ∷ ad_of 2 900 (some 400) ∷ ad_of 3 400 (some 400) ∷ []

winner : calculate_max_bid ads ≡ ad_of 2 900 (some 400)
unfolding calculate_max_bid max_element bids_less
winner = refl

-- Where only some ads are authorised the order is no longer one of prices: the last ad wins with the
-- lowest authorised amount.
mixed :
    (calculate_max_bid (ad_of 1 1 (some 9) ∷ ad_of 2 2 none ∷ ad_of 3 3 (some 5) ∷ [])).ad_id ≡ 3
unfolding calculate_max_bid max_element bids_less
mixed = refl

calculate_max_bid-FirstMax_example : FirstMax bid_micros (calculate_max_bid ads) ads
calculate_max_bid-FirstMax_example =
    calculate_max_bid-FirstMax ads (λ e. cc) (inl (refl, (refl, (refl, tt))))

-- A chain of two functions: the domain's number, then the ads for it.
abbrev chain : Chain Text Text (List Ad) Text
chain =
    link (λ dom _ _. elim dom [ [] ↦ none | c ∷ _ ↦ some c ])
      (terminal (λ n _ _. ad_of n 5 none ∷ []))

chain_found : select none [] [] (codes "a") chain ≡ some (ad_of 97 5 none)
unfolding select chain_function calculate_max_bid max_element
chain_found = refl

-- A chain that breaks off still selects an ad.
chain_broken : select none [] [] [] chain ≡ some default_ad
unfolding select chain_function calculate_max_bid
chain_broken = refl

decimal : to_string 1024 ≡ codes "1024"
unfolding to_string
decimal = refl
