-- ===== src/Bidder.antt =====
-- rtb/core/bidder.hpp: the bidder, which answers a request with a bid for each impression that its
-- selector finds an ad for. `select` is the selector with the caller's chain of matchers, and
-- `uuid n` the text of the n-th number that boost::uuids::random_generator draws.
pub mod Bids
use vanilla_rtb.Base.{ℕ, suc, List, [], ◌∷◌, Option, none, some, Text, to_string, ◌++◌}
use vanilla_rtb.OpenRtb.{
  BidRequest, Impression, Bid, SeatBid, BidResponse, default_bid, default_seat_bid, clear,
}
use vanilla_rtb.Selection.{Ad, bid_micros}

-- `drawn` counts the numbers that the generator has drawn.
pub record Bidder : Type 0 where
  pub response : BidResponse
  pub drawn : ℕ

-- addCurrency
unfoldable pub add_currency : BidRequest → Impression → BidResponse → BidResponse
add_currency request imp r = elim request.cur [
  | c ∷ _ ↦ record r { cur = c }
  | [] ↦ elim imp.bidfloorcur [ [] ↦ r | _ ∷ _ ↦ record r { cur = imp.bidfloorcur } ]
]

-- The bid of addBid for an impression and its ad.
abbrev pub make_bid : Text → Impression → Ad → Bid
make_bid id imp ad = record default_bid {
  id = id;
  impid = imp.id;
  price = bid_micros ad;
  w = ad.width;
  h = ad.height;
  adm = ad.code;
  adid = to_string ad.ad_id;
}

-- `seatbid.back().bid.emplace_back(bid)`
pub emplace_back : Bid → List SeatBid → List SeatBid
emplace_back bid [] = []
emplace_back bid (s ∷ []) = record s { bid = s.bid ++ bid ∷ [] } ∷ []
emplace_back bid (s ∷ t ∷ rest) = s ∷ emplace_back bid (t ∷ rest)

-- addBid, with the text of the bid's number.
unfoldable pub add_bid : Text → Impression → Ad → BidResponse → BidResponse
unfolding emplace_back
add_bid id imp ad r = record r {
  seatbid =
      emplace_back (make_bid id imp ad)
        (elim r.seatbid [ [] ↦ default_seat_bid ∷ [] | s ∷ rest ↦ s ∷ rest ]);
}

module _ (uuid : ℕ → Text) (select : BidRequest → Impression → Option Ad) where
  -- buildImpResponse: one number is drawn for the response and one for the bid.
  unfoldable pub build_imp_response : BidRequest → Impression → Bidder → Bidder
  unfolding add_currency add_bid
  build_imp_response request imp b = elim (select request imp) [
    | none ↦ b
    | some ad ↦
        let named = record (b.response) { bidid = uuid b.drawn } in
        record {
          response = add_bid (uuid (suc b.drawn)) imp ad (add_currency request imp named);
          drawn = suc (suc b.drawn);
        }
  ]

  -- The loop over `request.imp`.
  unfoldable pub build_all : BidRequest → List Impression → Bidder → Bidder
  build_all request [] b = b
  build_all request (imp ∷ imps) b = build_all request imps (build_imp_response request imp b)

  -- bid
  unfoldable pub bid : BidRequest → Bidder → Bidder
  unfolding build_all build_imp_response
  bid request b = build_all request request.imp (record b { response = clear b.response })
