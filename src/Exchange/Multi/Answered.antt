-- ===== src/Exchange/Multi/Answered.antt =====
-- What the multi exchange answers.
use vanilla_rtb.Base.{
  ℕ, ◌<◌, ◌≡◌, ◌≢◌, refl, sym, ap, ◌∙◌, subst, List, [], Option, Text, pos, take,
}
use vanilla_rtb.OpenRtb.{BidRequest, BidResponse}
use vanilla_rtb.Exchange.Collector.{
  Collector, response, Event, End, all_in, timed_out, malformed, waiting, collect,
}
use vanilla_rtb.Exchange.Collector.Best.{Sorts, IsBest, response-IsBest}
use vanilla_rtb.Exchange.Collector.Gathered.{arrivals, collect-arrivals}
use vanilla_rtb.Exchange.Multi.{
  Status, KvClient, Auctioned, answered, thrown, pending, conclude, auction_collector, hold_auction,
}
use vanilla_rtb.Exchange.Multi.Counted.{counted, hold_auction-conclude}

answered-inj : {r r' : BidResponse} → answered r ≡ answered r' → r ≡ r'
answered-inj {r} e = ap (λ (a : Auctioned). elim a [ answered x ↦ x | thrown ↦ r | pending ↦ r ]) e

module _ (deserialize : Text → Option BidResponse)
    (sort : List BidResponse → List BidResponse) where
  conclude-response :
      (c : Collector Status) (st : Status) (end : End) (best : BidResponse)
      → (conclude deserialize sort (c, st, end)).0 ≡ answered best
      → (response sort c st).0 ≡ best
  unfolding conclude
  conclude-response c st malformed best e = cc
  conclude-response c st waiting best e = cc
  conclude-response c st all_in best e = answered-inj e
  conclude-response c st timed_out best e = answered-inj e

  -- An auction among `k` bidders that answers, after a response came in, answers one with the highest
  -- first price among the first `k` responses that came in time.
  pub hold_auction-IsBest :
      (k : ℕ) (request : BidRequest) (es : List Event) (client : KvClient _) (st : Status)
      (best : BidResponse)
      → 0 < k
      → Sorts sort (take k (arrivals deserialize es))
      → take k (arrivals deserialize es) ≢ []
      → (hold_auction deserialize sort (pos k) request es client st).0 ≡ answered best
      → IsBest best (take k (arrivals deserialize es))
  hold_auction-IsBest k request es client st best some_bidder sorts came answer =
      let c = auction_collector (pos k) in
      let held = collect deserialize es c (counted st) in
      let same = collect-arrivals deserialize k es c (counted st) refl some_bidder in
      let is = conclude-response held.0 held.1 held.2 best (
        ap (λ (r : Auctioned × Status). r.0)
          (sym (hold_auction-conclude deserialize sort (pos k) request es client st))
        ∙ answer) in
      subst (λ r. IsBest r (take k (arrivals deserialize es))) is
        (subst (λ rs. IsBest (response sort held.0 held.1).0 rs) same
          (response-IsBest sort held.0 held.1 (subst (Sorts sort) (sym same) sorts)
            (λ none_. came (sym same ∙ none_))).0)
