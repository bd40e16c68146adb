-- ===== src/Exchange/Collector.antt =====
-- rtb/exchange/multibidder_collector.hpp and multibidder_communicator.hpp: the responses of several
-- bidders to one request, and the best of them. The loop of messaging::communicator::collect reads
-- the datagrams that come in and the timer as one sequence of events.
pub mod Best
pub mod Gathered
use vanilla_rtb.Base.{
  ℕ, Bool, true, false, not, List, [], ◌∷◌, ◌++◌, Option, none, some, Text, ltb, ◌==◌, ℤ, to_size,
  length, is_some, if◌then◌else◌,
}
use vanilla_rtb.OpenRtb.{BidResponse, SeatBid, Bid, unspecified}

-- A callback reads the responses and the number of bidders, and writes to `Log`.
abbrev pub CollectorHandler : Type 0 → Type 0
CollectorHandler Log = List BidResponse → ℤ → Log → Log

pub record Collector (Log : Type 0) : Type 0 where
  pub num_bidders : ℤ
  pub responses : List BidResponse
  pub response_handler : Option (CollectorHandler Log)
  pub add_handler : Option (CollectorHandler Log)

-- `BidResponse()`; its `nbr` has no initialiser and is unspecified here.
abbrev pub empty_response : BidResponse
empty_response = record {
  id = [];
  seatbid = [];
  bidid = [];
  cur = [];
  customdata = [];
  nbr = unspecified;
  ext = [];
}

abbrev head_price : List Bid → Option ℕ
head_price [] = none
head_price (b ∷ bs) = some b.price

abbrev first_bids : List SeatBid → Option ℕ
first_bids [] = none
first_bids (s ∷ ss) = head_price s.bid

-- `seatbid[0].bid[0].price`, where there is one.
abbrev pub first_price : BidResponse → Option ℕ
first_price r = first_bids r.seatbid

-- A price that is there is better than none, and a higher one than a lower.
abbrev pub above : Option ℕ → Option ℕ → Bool
above none q = false
above (some p) none = true
above (some p) (some q) = ltb q p

-- The comparison that the responses are sorted by.
abbrev pub prefers : BidResponse → BidResponse → Bool
prefers first second = above (first_price first) (first_price second)

module _ {Log : Type 0} where
  abbrev pub new_collector : ℤ → Collector Log
  new_collector n = record {
    num_bidders = n;
    responses = [];
    response_handler = none;
    add_handler = none;
  }

  abbrev pub on_response : CollectorHandler Log → Collector Log → Collector Log
  on_response f c = record c { response_handler = some f }

  abbrev pub on_add : CollectorHandler Log → Collector Log → Collector Log
  on_add f c = record c { add_handler = some f }

  abbrev pub clear : Collector Log → Collector Log
  clear c = record c { responses = [] }

  abbrev notify : Option (CollectorHandler Log) → Collector Log → Log → Log
  notify none c l = l
  notify (some f) c l = f c.responses c.num_bidders l

  -- done: the `int` is compared as a `size_t`.
  unfoldable pub is_done : Collector Log → Bool
  is_done c = length c.responses == to_size c.num_bidders

  -- add: the callback comes before the response is stored.
  unfoldable pub add : BidResponse → Collector Log → Log → Collector Log × Log
  add bid c l = (record c { responses = c.responses ++ bid ∷ [] }, notify c.add_handler c l)

  -- response, over the algorithm `sort` that std::sort stands for.
  unfoldable pub response :
      (List BidResponse → List BidResponse)
      → Collector Log
      → Log
      → BidResponse × Collector Log × Log
  response sort c l =
      let l' = notify c.response_handler c l in
      elim (sort c.responses) [
        | [] ↦ (empty_response, c, l')
        | best ∷ rest ↦ (best, record c { responses = best ∷ rest }, l')
      ]

-- What the io_service runs during collect: a datagram, or the end of the time that was given.
pub data Event : Type 0 where
  datagram : Text → Event
  timer : Event

-- How collect ends: stopped by the handler or by the timer; by the exception of a datagram that is
-- no response; or not yet, when the events given are used up.
pub data End : Type 0 where
  all_in timed_out malformed waiting : End

module _ {Log : Type 0} (deserialize : Text → Option BidResponse) where
  -- The loop of multibidder_communicator::process.
  unfoldable pub collect : List Event → Collector Log → Log → Collector Log × Log × End
  collect [] c l = (c, l, waiting)
  collect (timer ∷ es) c l = (c, l, timed_out)
  collect (datagram wire ∷ es) c l = elim (deserialize wire) [
    | none ↦ (c, l, malformed)
    | some bid ↦
        let (c', l') = add bid c l in
        elim (is_done c') [ true ↦ (c', l', all_in) | false ↦ collect es c' l' ]
  ]
