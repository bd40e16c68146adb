-- ===== src/Tests/Bidding.antt =====
-- Runs of rtb/core/bidder.hpp.
use vanilla_rtb.Base.{ℕ, ◌≡◌, refl, [], ◌∷◌, Option, some, Text, codes}
use vanilla_rtb.OpenRtb.{BidRequest, Impression}
use vanilla_rtb.Selection.{Ad}
use vanilla_rtb.Bidder.{Bidder, bid}
use vanilla_rtb.Bidder.Bids.{seat, number, offers, bid-seatbid}
use vanilla_rtb.Tests.Samples.{ad_of, two_impressions, response_at}

abbrev uuid : ℕ → Text
uuid n = n ∷ []

abbrev stale : Bidder
stale = record { response = response_at 5; drawn = 4 }

abbrev choose : BidRequest → Impression → Option Ad
choose request imp = some (ad_of 1 700 (some 600))

currency : (bid uuid choose two_impressions stale).response.cur ≡ codes "USD"
unfolding bid
currency = refl

bid-seatbid_example :
    (bid uuid choose two_impressions stale).response.seatbid
    ≡ seat (number uuid choose 4 (offers uuid choose two_impressions two_impressions.imp))
bid-seatbid_example = bid-seatbid uuid choose two_impressions stale
