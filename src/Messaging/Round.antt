-- ===== src/Messaging/Round.antt =====
-- A round of the exchange: a request is distributed, each bidder processes it, and the exchange collects
-- their responses, as rtb/exchange/multibidder_communicator.hpp puts the parts together. The messages are
-- requests and responses of rtb/core/openrtb.hpp, in archives of rtb/messaging/serialization.hpp.
use vanilla_rtb.Base.{◌≡◌, false, List, [], ◌∷◌, ◌++◌, map, Option, some, Text}
use vanilla_rtb.OpenRtb.{BidRequest, BidResponse, Site}
use vanilla_rtb.Exchange.Collector.{Event, datagram}
use vanilla_rtb.Messaging.{received, new_communicator, outbound, inbound, distribute, process}
use vanilla_rtb.Messaging.Carried.{carried_request, carried_response}

module _ (serialize : BidRequest → Text) (deserialize : Text → Option BidRequest)
    (serialize_response : BidResponse → Text)
    (deserialize_response : Text → Option BidResponse) where
  -- What one bidder sends for the datagrams that it gets from the exchange.
  abbrev pub bidder_answers : (BidRequest → BidResponse) → List Text → List Event
  bidder_answers bid wires =
      map (λ (reply : Unit {0} × Text). datagram reply.1)
        (process deserialize serialize_response
          (λ (exchange : Unit {0}) request (s : Unit {0}). (s, bid request))
          (inbound new_communicator) (map (received false tt) wires) tt).1

  -- The answers of bidders, in the order in which they answer.
  abbrev pub answers : List (BidRequest → BidResponse) → List Text → List Event
  answers [] wires = []
  answers (bid ∷ bids) wires = bidder_answers bid wires ++ answers bids wires

  -- What the exchange has sent after it distributed a request.
  abbrev pub request_sent : BidRequest → List Text
  request_sent request = (distribute serialize request (outbound new_communicator)).sent

  -- What a bidder answers to the request as it comes through the archive.
  abbrev pub answer_to : Site → BidRequest → (BidRequest → BidResponse) → BidResponse
  answer_to fresh_site request bid = bid (carried_request fresh_site request)

  -- The archives of the request and of the bidders' responses give what `serialize` carries of them.
  abbrev pub IsHeard : Site → BidRequest → (BidRequest → BidResponse) → Type 0
  IsHeard fresh_site request bid =
      let response = answer_to fresh_site request bid in
      deserialize_response (serialize_response response) ≡ some (carried_response response)

  module _ (fresh_site : Site) (request : BidRequest)
      (sent : deserialize (serialize request) ≡ some (carried_request fresh_site request)) where
    abbrev pub heard : List (BidRequest → BidResponse) → List BidResponse
    heard bids = map (λ bid. carried_response (answer_to fresh_site request bid)) bids
