-- ===== src/Exchange/Multi/Counted.antt =====
-- What the counters of the multi exchange say.
use vanilla_rtb.Base.{
  ℕ, suc, ◌+◌, ◌^◌, ◌≤◌, ◌<◌, ◌≡◌, refl, ap, ◌∙◌, List, [], ◌∷◌, Option, none, some, Text, ℤ,
  to_size, length, arith, Option-cases, Bool-cases, List-cases, inl, inr, is_empty, ◌==◌,
}
use vanilla_rtb.OpenRtb.{BidRequest, BidResponse}
use vanilla_rtb.Exchange.Collector.{
  Collector, add, is_done, response, Event, datagram, timer, End, all_in, timed_out, malformed,
  waiting, collect,
}
use vanilla_rtb.Exchange.Collector.Gathered.{collect-none, collect-last, collect-more}
use vanilla_rtb.Exchange.Multi.{
  Status, new_status, count, count_response, count_added, KvClient, user_id, Auctioned, answered,
  thrown, pending, gather, gather_for, conclude, auction_collector, hold_auction, hold_all,
}

-- The auctions that were counted by what came of them.
abbrev pub total : Status → ℕ
total st = st.all_response_count + st.empty_response_count + st.timeout_response_count

-- Two states of the counters that differ in the single responses alone.
abbrev pub SameRounds : Status → Status → Type 0
SameRounds st st' = (st'.request_count ≡ st.request_count) × (total st' ≡ total st)

module _ (deserialize : Text → Option BidResponse) where
  -- A collector that counts the way that an auction sets up, between two states of the counters.
  abbrev Kept : Collector Status → Status → Collector Status → Status → Type 0
  Kept c st c' st' = SameRounds st st' × (c'.response_handler ≡ c.response_handler)

  add-Kept :
      (bid : BidResponse) (c : Collector Status) (st : Status)
      → c.add_handler ≡ some count_added
      → Kept c st (add bid c st).0 (add bid c st).1
  unfolding add count_added
  add-Kept bid c st h = rw (h, add) ((refl, refl), refl)

  add-handler :
      (bid : BidResponse) (c : Collector Status) (st : Status)
      → (add bid c st).0.add_handler ≡ c.add_handler
  unfolding add
  add-handler bid c st = refl

  collect-Kept :
      (es : List Event) (c : Collector Status) (st : Status)
      → c.add_handler ≡ some count_added
      → Kept c st (collect deserialize es c st).0 (collect deserialize es c st).1
  collect-Kept [] c st h = unfold collect in ((refl, refl), refl)
  collect-Kept (timer ∷ es) c st h = unfold collect in ((refl, refl), refl)
  collect-Kept (datagram wire ∷ es) c st h = elim (Option-cases (deserialize wire)) [
    | inl e ↦ rw (collect-none deserialize wire es c st e) ((refl, refl), refl)
    | inr (bid, e) ↦ elim (Bool-cases (is_done (add bid c st).0)) [
      | inl d ↦ rw (collect-last deserialize wire es c st bid e d) (add-Kept bid c st h)
      | inr d ↦ rw (collect-more deserialize wire es c st bid e d) (
          let ((r, t), k) = add-Kept bid c st h in
          let ((r', t'), k') =
            collect-Kept es (add bid c st).0 (add bid c st).1 (add-handler bid c st ∙ h) in
          ((r' ∙ r, t' ∙ t), k' ∙ k))
    ]
  ]

-- The outcomes counted after an auction, if there were `n` before.
abbrev pub outcomes : Auctioned → ℕ → ℕ
outcomes (answered r) n = suc n
outcomes thrown n = n
outcomes pending n = n

-- How an auction has changed the counters.
abbrev pub Counts : Status → Auctioned → Status → Type 0
Counts st result st' =
    (st'.request_count ≡ suc st.request_count) × (total st' ≡ outcomes result (total st))

count_response-total :
    (rs : List BidResponse) (n : ℤ) (st : Status)
    → total st + 1 < 2 ^ 64
    → (total (count_response rs n st) ≡ suc (total st))
      × ((count_response rs n st).request_count ≡ st.request_count)
unfolding count_response
count_response-total [] n st small = (omega arith, refl)
count_response-total (r ∷ rs) n st small = elim (Bool-cases (length (r ∷ rs) == to_size n)) [
  | inl e ↦ rw e (omega arith, refl)
  | inr e ↦ rw e (omega arith, refl)
]

module _ (sort : List BidResponse → List BidResponse) where
  response-notified :
      (c : Collector Status) (st : Status)
      → c.response_handler ≡ some count_response
      → (response sort c st).2 ≡ count_response c.responses c.num_bidders st
  unfolding response
  response-notified c st h = elim (List-cases (sort c.responses)) [
    | inl e ↦ rw (e, response, h) refl
    | inr (y, ys, e) ↦ rw (e, response, h) refl
  ]

-- The counters when the bidders are asked.
abbrev pub counted : Status → Status
counted st = record st { request_count = count st.request_count }

module _ (deserialize : Text → Option BidResponse)
    (sort : List BidResponse → List BidResponse) where
  gather_for-gather :
      (request : BidRequest) (es : List Event) (client : KvClient _) (g : _)
      → gather_for deserialize sort request es client g ≡ some (gather deserialize sort es g)
  unfolding gather_for
  gather_for-gather request es client g = elim (Bool-cases (is_empty (user_id request))) [
    | inl e ↦ rw e refl
    | inr e ↦ rw e refl
  ]

  -- Whether or not the user is known, the bidders are asked once.
  pub hold_auction-conclude :
      (n : ℤ) (request : BidRequest) (es : List Event) (client : KvClient _) (st : Status)
      → hold_auction deserialize sort n request es client st
        ≡ conclude deserialize sort
            (gather deserialize sort es (auction_collector n, counted st, waiting))
  unfolding hold_auction
  hold_auction-conclude n request es client st =
      rw
        (
          gather_for-gather request es client (auction_collector n, counted st, waiting),
          hold_auction,
        )
        refl

  conclude-counts :
      (c : Collector Status) (st : Status) (end : End)
      → c.response_handler ≡ some count_response
      → total st + 1 < 2 ^ 64
      → ((conclude deserialize sort (c, st, end)).1.request_count ≡ st.request_count)
        × (total (conclude deserialize sort (c, st, end)).1
            ≡ outcomes (conclude deserialize sort (c, st, end)).0 (total st))
  unfolding conclude
  conclude-counts c st malformed h small = (refl, refl)
  conclude-counts c st waiting h small = (refl, refl)
  conclude-counts c st all_in h small =
      let (t, q) = count_response-total c.responses c.num_bidders st small in
      rw (response-notified sort c st h) (q, t)
  conclude-counts c st timed_out h small =
      let (t, q) = count_response-total c.responses c.num_bidders st small in
      rw (response-notified sort c st h) (q, t)

  -- An auction counts its request, and its outcome if it answers.
  pub hold_auction-Counts :
      (n : ℤ) (request : BidRequest) (es : List Event) (client : KvClient _) (st : Status)
      → st.request_count + 1 < 2 ^ 64
      → total st + 1 < 2 ^ 64
      → Counts st
          (hold_auction deserialize sort n request es client st).0
          (hold_auction deserialize sort n request es client st).1
  hold_auction-Counts n request es client st small few =
      let c = auction_collector n in
      let ((r, t), k) = collect-Kept deserialize es c (counted st) refl in
      let (q, o) =
        conclude-counts (collect deserialize es c (counted st)).0
          (collect deserialize es c (counted st)).1 (collect deserialize es c (counted st)).2 k
          (omega arith) in
      rw (hold_auction-conclude n request es client st) (q ∙ r ∙ counted_one, o ∙ ap (outcomes _) t)
    where
      counted_one : (counted st).request_count ≡ suc st.request_count
      counted_one = omega arith

-- How many auctions have answered.
abbrev pub answers_in : List Auctioned → ℕ
answers_in [] = 0
answers_in (answered r ∷ rs) = suc (answers_in rs)
answers_in (thrown ∷ rs) = answers_in rs
answers_in (pending ∷ rs) = answers_in rs

outcomes-at_most : (result : Auctioned) (n : ℕ) → outcomes result n ≤ n + 1
outcomes-at_most (answered r) n = omega arith
outcomes-at_most thrown n = omega arith
outcomes-at_most pending n = omega arith

answers_in-cons :
    (result : Auctioned) (results : List Auctioned) (t : ℕ)
    → outcomes result t + answers_in results ≡ t + answers_in (result ∷ results)
answers_in-cons (answered r) results t = omega arith
answers_in-cons thrown results t = refl
answers_in-cons pending results t = refl

module _ (deserialize : Text → Option BidResponse) (sort : List BidResponse → List BidResponse)
    (n : ℤ) where
  hold_all-counts :
      (rounds : List (BidRequest × List Event)) (st : Status)
      → st.request_count + length rounds < 2 ^ 64
      → total st + length rounds < 2 ^ 64
      → ((hold_all deserialize sort n rounds st).1.request_count ≡ st.request_count + length rounds)
        × (total (hold_all deserialize sort n rounds st).1
            ≡ total st + answers_in (hold_all deserialize sort n rounds st).0)
  unfolding hold_all
  hold_all-counts [] st small few = (omega arith, omega arith)
  hold_all-counts ((request, es) ∷ rounds) st small few =
      let (result, st') =
        hold_auction deserialize sort n request es (record { response_handler = none }) st in
      let (q, o) =
        hold_auction-Counts deserialize sort n request es (record { response_handler = none }) st
          (omega arith) (omega arith) in
      let fewer = outcomes-at_most result (total st) in
      let (q', o') = hold_all-counts rounds st' (omega arith) (omega arith) in
      (
        omega arith,
        o'
            ∙ ap (λ t. t + answers_in (hold_all deserialize sort n rounds st').0) o
            ∙ answers_in-cons result _ (total st),
      )

  -- Over any number of auctions below 2 ^ 64, one after another and whatever comes in on the socket, the
  -- counter of requests is the number of auctions, and the counters of full, empty and late collections
  -- add up to the number of those that have answered.
  pub hold_all-balanced :
      (rounds : List (BidRequest × List Event))
      → length rounds < 2 ^ 64
      → ((hold_all deserialize sort n rounds new_status).1.request_count ≡ length rounds)
        × (total (hold_all deserialize sort n rounds new_status).1
            ≡ answers_in (hold_all deserialize sort n rounds new_status).0)
  hold_all-balanced rounds small =
      let (q, o) = hold_all-counts rounds new_status (omega arith) (omega arith) in
      (omega arith, omega arith)
