-- ===== src/Exchange/Multi.antt =====
-- The auction of examples/multiexchange/multi_exchange_handler.cpp with the counters of
-- multiexchange_status.hpp and rtb/client/empty_key_value_client.hpp. The counters are 64 bits wide. What
-- comes in on the socket during an auction is a list of events, as for the collector.
pub mod Counted
pub mod Answered
use vanilla_rtb.Base.{
  ℕ, ◌+◌, ◌%◌, ◌^◌, Bool, true, false, not, ◌||◌, List, [], ◌∷◌, Option, none, some, Text, ◌==◌, ℤ,
  to_size, length, is_empty, if◌then◌else◌,
}
use vanilla_rtb.OpenRtb.{BidRequest, BidResponse}
use vanilla_rtb.Exchange.Collector.{
  Collector, CollectorHandler, new_collector, on_response, on_add, clear, response, Event, End,
  all_in, timed_out, malformed, waiting, collect,
}

-- multi_exchange_status
pub record Status : Type 0 where
  pub request_count : ℕ
  pub all_response_count : ℕ
  pub bidder_response_count : ℕ
  pub empty_response_count : ℕ
  pub timeout_response_count : ℕ

abbrev pub new_status : Status
new_status = record {
  request_count = 0;
  all_response_count = 0;
  bidder_response_count = 0;
  empty_response_count = 0;
  timeout_response_count = 0;
}

-- `++` on a counter.
abbrev pub count : ℕ → ℕ
count n = (n + 1) % 2 ^ 64

-- The callback that on_response is given.
unfoldable pub count_response : CollectorHandler Status
count_response rs num_bidders st =
    if is_empty rs
    then record st { empty_response_count = count st.empty_response_count }
    else if length rs == to_size num_bidders
    then record st { all_response_count = count st.all_response_count }
    else record st { timeout_response_count = count st.timeout_response_count }

-- The callback that on_add is given.
unfoldable pub count_added : CollectorHandler Status
count_added rs num_bidders st = record st { bidder_response_count = count st.bidder_response_count }

-- empty_key_value_client, whose handler works on `S`: always connected, and calls back at once. A
-- std::function that was not set throws: `none`.
pub record KvClient (S : Type 0) : Type 0 where
  pub response_handler : Option (S → S)

module _ {S : Type 0} where
  abbrev pub connected : KvClient S → Bool
  connected client = true

  abbrev pub set_response : (S → S) → KvClient S → KvClient S
  set_response handler client = record client { response_handler = some handler }

  abbrev pub kv_request : KvClient S → S → Option S
  kv_request client s = elim client.response_handler [ none ↦ none | some f ↦ some (f s) ]

-- The user's id that the request is to be matched by.
abbrev pub user_id : BidRequest → Text
user_id request = elim request.user [ none ↦ [] | some user ↦ user.buyeruid ]

-- How an auction ends: it answers; an exception leaves it; or it has not ended with the events given.
pub data Auctioned : Type 0 where
  answered : BidResponse → Auctioned
  thrown pending : Auctioned

-- The collector that an auction sets up.
abbrev pub auction_collector : ℤ → Collector Status
auction_collector num_bidders =
    on_add count_added (on_response count_response (clear (new_collector num_bidders)))

module _ (deserialize : Text → Option BidResponse)
    (sort : List BidResponse → List BidResponse) where
  -- What communicator.process works on: the collector, the counters, and how the loop has ended.
  abbrev pub Gathering : Type 0
  Gathering = Collector Status × Status × End

  -- communicator.process
  abbrev pub gather : List Event → Gathering → Gathering
  gather es g = collect deserialize es g.0 g.1

  -- Through the client of the key-value store, if the user is known.
  unfoldable pub gather_for :
      BidRequest → List Event → KvClient Gathering → Gathering → Option Gathering
  gather_for request es client g =
      if is_empty (user_id request) || not (connected client)
      then some (gather es g)
      else kv_request (set_response (gather es) client) g

  -- `collector.response()`, unless an exception has left the loop.
  unfoldable pub conclude : Gathering → Auctioned × Status
  conclude g =
      let (best, c, st) = response sort g.0 g.1 in
      elim g.2 [
        | malformed ↦ (thrown, g.1)
        | all_in ↦ (answered best, st)
        | timed_out ↦ (answered best, st)
        | waiting ↦ (pending, g.1)
      ]

  -- The lambda of auction_async.
  unfoldable pub hold_auction :
      ℤ → BidRequest → List Event → KvClient Gathering → Status → Auctioned × Status
  hold_auction num_bidders request es client st =
      let counted = record st { request_count = count st.request_count } in
      elim (gather_for request es client (auction_collector num_bidders, counted, waiting)) [
        | none ↦ (thrown, counted)
        | some g ↦ conclude g
      ]

  -- Auctions one after another, each with a client of its own.
  unfoldable pub hold_all : ℤ → List (BidRequest × List Event) → Status → List Auctioned × Status
  hold_all num_bidders [] st = ([], st)
  hold_all num_bidders ((request, es) ∷ rounds) st =
      let (result, st') =
        hold_auction num_bidders request es (record { response_handler = none }) st in
      let (results, st'') = hold_all num_bidders rounds st' in (result ∷ results, st'')
