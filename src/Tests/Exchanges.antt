-- ===== src/Tests/Exchanges.antt =====
-- Runs of rtb/exchange: the handler and the collector.
use mathlib.Core.List.{Mem, mem-cons, not-mem-nil}
use mathlib.Core.List.Perm
use mathlib.Core.Logic.Or
use vanilla_rtb.Base.{
  ℕ, ◌≡◌, refl, subst, sym, true, false, List, [], ◌∷◌, Option, none, some, Text, codes, arith, pos,
  take,
}
use vanilla_rtb.OpenRtb.{BidResponse}
use vanilla_rtb.Exchange.Collector.{
  Collector, new_collector, prefers, response, collect, Event, datagram, timer,
}
use vanilla_rtb.Exchange.Collector.Best.{Sorts, IsBest, response-IsBest}
use vanilla_rtb.Exchange.Collector.Gathered.{arrivals, collect-arrivals}
use vanilla_rtb.Exchange.Handler.{
  body, flush, Timed, Outcome, done, Parsed, parsed, std_exception, ExchangeHandler, custom_reply,
  timeout, respond, handle_auction_async, handle_post_common, serve, handle_post, json,
}
use vanilla_rtb.Exchange.Handler.Replies.{RepliesOnce, SentOnce, handle_post-SentOnce}
use vanilla_rtb.Tests.Samples.{response_at}

-- Requests are their own timeouts, and responses the texts on the wire.
abbrev Handler : Type 0
Handler = ExchangeHandler ℕ Text (List Text)

abbrev parse : Text → Parsed ℕ
parse [] = std_exception (codes "empty")
parse (c ∷ cs) = parsed c

abbrev slow : ℕ → Timed Text
slow req = record { elapsed = 10; outcome = Outcome.returns (codes "bid") }

abbrev served : Handler
served = record {
  extract_request = parse;
  create_response = λ t. t;
  request_tmax = λ n. pos n;
  auction_handler = some slow;
  auction_async_handler = some slow;
  log_handler = some (λ t l. t ∷ l);
  error_log_handler = some (λ t l. t ∷ l);
  decision_handler = none;
  if_response_handler = none;
  tmax = pos 50;
}

in_time :
    handle_post served (20 ∷ []) [] []
    ≡ (body (codes "bid") ∷ flush json ∷ [], (20 ∷ []) ∷ [], done true)
unfolding handle_post handle_post_common serve handle_auction_async timeout respond custom_reply
in_time = refl

too_late : handle_post served (7 ∷ []) [] [] ≡ (flush json ∷ [], (7 ∷ []) ∷ [], done true)
unfolding handle_post handle_post_common serve handle_auction_async timeout
too_late = refl

not_parsed : handle_post served [] [] [] ≡ (flush [] ∷ [], codes "empty" ∷ [] ∷ [], done false)
unfolding handle_post handle_post_common
not_parsed = refl

served-RepliesOnce : RepliesOnce served
unfolding custom_reply
served-RepliesOnce = record { custom = λ resp g r e. cc; decides = λ f req r e. cc }

handle_post-SentOnce_example :
    SentOnce [] ((handle_post served (20 ∷ []) [] []).0, (handle_post served (20 ∷ []) [] []).2)
handle_post-SentOnce_example = handle_post-SentOnce served served-RepliesOnce refl (20 ∷ []) [] []

abbrev pub decode : Text → Option BidResponse
decode [] = none
decode (c ∷ cs) = some (response_at c)

abbrev pub events : List Event
events = datagram (3 ∷ []) ∷ datagram (5 ∷ []) ∷ datagram (4 ∷ []) ∷ timer ∷ []

collect-arrivals_example :
    (collect decode events (new_collector {Log = ℕ} (pos 2)) 0).0.responses
    ≡ take 2 (arrivals decode events)
collect-arrivals_example =
    collect-arrivals decode 2 events (new_collector {Log = ℕ} (pos 2)) 0 refl (omega arith)

abbrev pub gathered : Collector ℕ
gathered = record (new_collector {Log = ℕ} (pos 2)) {
  responses = response_at 3 ∷ response_at 5 ∷ [];
}

-- What std::sort makes of two responses.
abbrev pub sort_two : List BidResponse → List BidResponse
sort_two [] = []
sort_two (a ∷ []) = a ∷ []
sort_two (a ∷ b ∷ rest) = elim (prefers b a) [ true ↦ b ∷ a ∷ rest | false ↦ a ∷ b ∷ rest ]

mem_singleton : {A : Type 0} {x y : A} → IsSet A → Mem x (y ∷ []) → x ≡ y
mem_singleton s m = Or.elim (s _ _) (mem-cons.0 m) (λ e. e) (λ n. absurd (not-mem-nil n))

pub two-Sorts : Sorts sort_two gathered.responses
two-Sorts = record {
  permutes = Perm.swap (response_at 3) (response_at 5) [];
  orders = (
    λ z m. subst (λ r. prefers r (response_at 5) ≡ false) (sym (mem_singleton (hlevel) m)) refl,
    (λ z m. absurd (not-mem-nil m), tt),
  );
}

response-IsBest_example : IsBest (response sort_two gathered 0).0 gathered.responses
response-IsBest_example = (response-IsBest sort_two gathered 0 two-Sorts (λ e. cc)).0
