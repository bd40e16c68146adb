-- ===== src/Bidder/Bids.antt =====
-- The bids, the numbers and the currency of a response.
use mathlib.Core.List.{append_assoc, append-nil}
use vanilla_rtb.Base.{
  ℕ, suc, ◌≡◌, refl, ap, ◌∙◌, List, [], ◌∷◌, ◌++◌, Option, none, some, Text, arith, Option-cases,
  inl, inr,
}
use vanilla_rtb.OpenRtb.{BidRequest, Impression, Bid, SeatBid, BidResponse, default_seat_bid, clear}
use vanilla_rtb.Selection.{Ad}
use vanilla_rtb.Bidder.{Bidder, add_currency, make_bid, add_bid, build_imp_response, build_all, bid}

-- The bids in one seat, which stands only if there is a bid.
abbrev pub seat : List Bid → List SeatBid
seat [] = []
seat (b ∷ bs) = record default_seat_bid { bid = b ∷ bs } ∷ []

add_bid-seat :
    (id : Text) (imp : Impression) (ad : Ad) (r : BidResponse) (bs : List Bid)
    → r.seatbid ≡ seat bs
    → (add_bid id imp ad r).seatbid ≡ seat (bs ++ make_bid id imp ad ∷ [])
unfolding add_bid
add_bid-seat id imp ad r [] e = rw e
add_bid-seat id imp ad r (b ∷ bs) e = rw e

add_currency-seatbid :
    (request : BidRequest) (imp : Impression) (r : BidResponse)
    → (add_currency request imp r).seatbid ≡ r.seatbid
unfolding add_currency
add_currency-seatbid request imp r = ground arith

module _ (uuid : ℕ → Text) (select : BidRequest → Impression → Option Ad) where
  -- The impressions that an ad is found for, in order, each with its ad.
  pub offers : BidRequest → List Impression → List (Impression × Ad)
  offers request [] = []
  offers request (imp ∷ imps) =
      let rest = offers request imps in
      elim (select request imp) [ none ↦ rest | some ad ↦ (imp, ad) ∷ rest ]

  -- The bids for them: every bid takes two numbers, and bears the second.
  pub number : ℕ → List (Impression × Ad) → List Bid
  number n [] = []
  number n ((imp, ad) ∷ rest) = make_bid (uuid (suc n)) imp ad ∷ number (suc (suc n)) rest

  module _ (request : BidRequest) (imp : Impression) where
    build_imp_response-none :
        (b : Bidder) → select request imp ≡ none → build_imp_response uuid select request imp b ≡ b
    unfolding build_imp_response
    build_imp_response-none b e = rw (e, build_imp_response)

    offers-none :
        (imps : List Impression)
        → select request imp ≡ none
        → offers request (imp ∷ imps) ≡ offers request imps
    unfolding offers
    offers-none imps e = rw (e, offers)

    offers-some :
        (imps : List Impression) (ad : Ad)
        → select request imp ≡ some ad
        → offers request (imp ∷ imps) ≡ (imp, ad) ∷ offers request imps
    unfolding offers
    offers-some imps ad e = rw (e, offers)

    module _ (ad : Ad) (b : Bidder) (hit : select request imp ≡ some ad) where
      build_imp_response-drawn :
          (build_imp_response uuid select request imp b).drawn ≡ suc (suc b.drawn)
      unfolding build_imp_response
      build_imp_response-drawn = rw (hit, build_imp_response)

      build_imp_response-seatbid :
          (bs : List Bid)
          → b.response.seatbid ≡ seat bs
          → (build_imp_response uuid select request imp b).response.seatbid
            ≡ seat (bs ++ make_bid (uuid (suc b.drawn)) imp ad ∷ [])
      unfolding build_imp_response
      build_imp_response-seatbid bs e =
          rw (hit, build_imp_response)
            (add_bid-seat (uuid (suc b.drawn)) imp ad (add_currency request imp named) bs
              (add_currency-seatbid request imp named ∙ e))
        where
          named : BidResponse
          named = record (b.response) { bidid = uuid b.drawn }

  build_all-cons :
      (request : BidRequest) (imp : Impression) (imps : List Impression) (b : Bidder)
      → build_all uuid select request (imp ∷ imps) b
        ≡ build_all uuid select request imps (build_imp_response uuid select request imp b)
  unfolding build_all
  build_all-cons request imp imps b = refl

  build_all-seatbid :
      (request : BidRequest) (imps : List Impression) (b : Bidder) (bs : List Bid)
      → b.response.seatbid ≡ seat bs
      → (build_all uuid select request imps b).response.seatbid
        ≡ seat (bs ++ number b.drawn (offers request imps))
  build_all-seatbid request [] b bs e = unfold build_all offers number in rw append-nil e
  build_all-seatbid request (imp ∷ imps) b bs e = elim (Option-cases (select request imp)) [
    | inl miss ↦
        rw
          (
            build_all-cons request imp imps b,
            build_imp_response-none request imp b miss,
            offers-none request imp imps miss,
          )
          (build_all-seatbid request imps b bs e)
    | inr (ad, hit) ↦
        let b' = build_imp_response uuid select request imp b in
        let rest =
          build_all-seatbid request imps b' _
            (build_imp_response-seatbid request imp ad b hit bs e) in
        ap (λ c. c.response.seatbid) (build_all-cons request imp imps b)
        ∙ rest
        ∙ rw
            (
              build_imp_response-drawn request imp ad b hit,
              offers-some request imp imps ad hit,
              append_assoc bs,
            )
            (unfold number in refl)
  ]

  -- A response holds exactly one bid for each impression that an ad is found for, in their order and
  -- in one seat, and nothing of an earlier response.
  pub bid-seatbid :
      (request : BidRequest) (b : Bidder)
      → (bid uuid select request b).response.seatbid
        ≡ seat (number b.drawn (offers request request.imp))
  unfolding bid clear
  bid-seatbid request b = build_all-seatbid request request.imp _ [] refl
