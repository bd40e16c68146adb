-- ===== src/Exchange/Collector/Gathered.antt =====
-- Which responses are gathered.
use mathlib.Core.List.{append_assoc, append-nil}
use vanilla_rtb.Base.{
  ℕ, ◌<◌, ◌≡◌, refl, sym, ◌∙◌, true, false, List, [], ◌∷◌, ◌++◌, Option, none, some, Text, arith,
  pos, length, take, take_all, take-append_exact, length-append, Option-cases, ◌↔◌, Bool-cases, inl,
  inr,
}
use vanilla_rtb.OpenRtb.{BidResponse}
use vanilla_rtb.Exchange.Collector.{
  Collector, is_done, add, Event, datagram, timer, all_in, malformed, collect,
}

module _ (deserialize : Text → Option BidResponse) where
  -- The responses that come in before the timer, and before a datagram that is none.
  unfoldable pub arrivals : List Event → List BidResponse
  arrivals [] = []
  arrivals (timer ∷ es) = []
  arrivals (datagram wire ∷ es) =
      let rest = arrivals es in elim (deserialize wire) [ none ↦ [] | some bid ↦ bid ∷ rest ]

  arrivals-none :
      (wire : Text) (es : List Event) → deserialize wire ≡ none → arrivals (datagram wire ∷ es) ≡ []
  unfolding arrivals
  arrivals-none wire es e = rw (e, arrivals)

  pub arrivals-some :
      (wire : Text) (es : List Event) (bid : BidResponse)
      → deserialize wire ≡ some bid
      → arrivals (datagram wire ∷ es) ≡ bid ∷ arrivals es
  unfolding arrivals
  arrivals-some wire es bid e = rw (e, arrivals)

  module _ {Log : Type 0} (wire : Text) (es : List Event) (c : Collector Log) (l : Log) where
    pub collect-none :
        deserialize wire ≡ none → collect deserialize (datagram wire ∷ es) c l ≡ (c, l, malformed)
    unfolding collect
    collect-none e = rw (e, collect)

    module _ (bid : BidResponse) (e : deserialize wire ≡ some bid) where
      pub collect-last :
          is_done (add bid c l).0 ≡ true
          → collect deserialize (datagram wire ∷ es) c l
            ≡ ((add bid c l).0, (add bid c l).1, all_in)
      unfolding collect
      collect-last d = rw (e, collect) (rw d)

      pub collect-more :
          is_done (add bid c l).0 ≡ false
          → collect deserialize (datagram wire ∷ es) c l
            ≡ collect deserialize es (add bid c l).0 (add bid c l).1
      unfolding collect
      collect-more d = rw (e, collect) (rw d)

  module _ {Log : Type 0} where
    add-responses :
        (bid : BidResponse) (c : Collector Log) (l : Log)
        → ((add bid c l).0.responses ≡ c.responses ++ bid ∷ [])
          × ((add bid c l).0.num_bidders ≡ c.num_bidders)
    unfolding add
    add-responses bid c l = (refl, refl)

    is_done_iff :
        (c : Collector Log) (k : ℕ)
        → c.num_bidders ≡ pos k
        → (is_done c ≡ true) ↔ (length c.responses ≡ k)
    unfolding is_done
    is_done_iff c k num = ground arith

    -- A collector that is not done after a response that it lacked still lacks one.
    fewer :
        (bid : BidResponse) (c : Collector Log) (l : Log) (k : ℕ)
        → c.num_bidders ≡ pos k
        → length c.responses < k
        → is_done (add bid c l).0 ≡ false
        → length (add bid c l).0.responses < k
    unfolding is_done add
    fewer bid c l k num few d = ground (arith, length-append c.responses (bid ∷ []))

    -- A collector that expects `k` responses, and has fewer, gathers those that come in time in their
    -- order, up to the `k`-th.
    pub collect-arrivals :
        (k : ℕ) (es : List Event) (c : Collector Log) (l : Log)
        → c.num_bidders ≡ pos k
        → length c.responses < k
        → (collect deserialize es c l).0.responses ≡ take k (c.responses ++ arrivals es)
    collect-arrivals k [] c l num few =
        unfold collect arrivals in rw append-nil (sym (take_all k c.responses (omega arith)))
    collect-arrivals k (timer ∷ es) c l num few =
        unfold collect arrivals in rw append-nil (sym (take_all k c.responses (omega arith)))
    collect-arrivals k (datagram wire ∷ es) c l num few = elim (Option-cases (deserialize wire)) [
      | inl e ↦
          rw (collect-none wire es c l e, arrivals-none wire es e, append-nil c.responses)
            (sym (take_all k c.responses (omega arith)))
      | inr (bid, e) ↦
          let (grown, same) = add-responses bid c l in
          let full = is_done_iff (add bid c l).0 k (same ∙ num) in
          rw (arrivals-some wire es bid e, ← append_assoc c.responses (bid ∷ []) (arrivals es))
            (elim (Bool-cases (is_done (add bid c l).0)) [
              | inl d ↦
                  rw (collect-last wire es c l bid e d, grown)
                    (rw (← (rw grown at (full.0 d)))
                      (sym (take-append_exact (c.responses ++ bid ∷ []) (arrivals es))))
              | inr d ↦
                  rw (collect-more wire es c l bid e d, ← grown)
                    (collect-arrivals k es (add bid c l).0 (add bid c l).1 (same ∙ num)
                      (fewer bid c l k num few d))
            ])
    ]
