-- ===== src/Tests/Auctions.antt =====
-- Runs of the auction of examples/multiexchange/multi_exchange_handler.cpp.
use vanilla_rtb.Base.{◌≡◌, refl, List, [], ◌∷◌, none, pos, length, take, arith}
use vanilla_rtb.OpenRtb.{BidRequest}
use vanilla_rtb.Exchange.Collector.{add, is_done, collect, response, Event, datagram, timer}
use vanilla_rtb.Exchange.Collector.Best.{IsBest}
use vanilla_rtb.Exchange.Collector.Gathered.{arrivals}
use vanilla_rtb.Exchange.Multi.{
  new_status, count_response, count_added, answered, gather_for, conclude, hold_auction, hold_all,
}
use vanilla_rtb.Exchange.Multi.Counted.{total, answers_in, hold_all-balanced}
use vanilla_rtb.Exchange.Multi.Answered.{hold_auction-IsBest}
use vanilla_rtb.Tests.Exchanges.{decode, events, sort_two, gathered, two-Sorts}
use vanilla_rtb.Tests.Samples.{response_at, two_impressions}

-- Two bidders have answered; one is late; none has; and a datagram is broken.
abbrev rounds : List (BidRequest × List Event)
rounds =
    (two_impressions, events)
    ∷ (two_impressions, datagram (3 ∷ []) ∷ timer ∷ [])
    ∷ (two_impressions, timer ∷ [])
    ∷ (two_impressions, datagram (3 ∷ []) ∷ datagram [] ∷ timer ∷ [])
    ∷ []

counters : (hold_all decode sort_two (pos 2) rounds new_status).1 ≡ record {
  request_count = 4;
  all_response_count = 1;
  bidder_response_count = 4;
  empty_response_count = 1;
  timeout_response_count = 1;
}
unfolding hold_all hold_auction gather_for conclude collect add is_done response count_added
    count_response
counters = refl

hold_all-balanced_example :
    ((hold_all decode sort_two (pos 2) rounds new_status).1.request_count ≡ length rounds)
    × (total (hold_all decode sort_two (pos 2) rounds new_status).1
        ≡ answers_in (hold_all decode sort_two (pos 2) rounds new_status).0)
hold_all-balanced_example = hold_all-balanced decode sort_two (pos 2) rounds (omega arith)

first_two : take 2 (arrivals decode events) ≡ gathered.responses
unfolding arrivals
first_two = refl

answer :
    (hold_auction decode sort_two
      (pos 2)
      two_impressions
      events
      (record { response_handler = none })
      new_status).0
    ≡ answered (response_at 5)
unfolding hold_auction gather_for conclude collect add is_done response count_added count_response
answer = refl

hold_auction-IsBest_example : IsBest (response_at 5) (take 2 (arrivals decode events))
unfolding arrivals
hold_auction-IsBest_example =
    hold_auction-IsBest decode sort_two 2 two_impressions events
      (record { response_handler = none }) new_status (response_at 5) (omega arith) two-Sorts
      (λ e. cc) answer
