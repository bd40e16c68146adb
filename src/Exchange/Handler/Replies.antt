-- ===== src/Exchange/Handler/Replies.antt =====
-- How often a post is answered, and with what.
use vanilla_rtb.Base.{
  ℕ, suc, ◌+◌, ◌≡◌, true, ◌∷◌, [], ◌++◌, none, some, arith, Text, Option-cases, is_some, ◌||◌,
  subst, sym, inl, inr,
}
use vanilla_rtb.Exchange.Handler.{
  Reply, body, flush, Timed, Ended, done, thrown, json, ExchangeHandler, custom_reply, respond,
  handle_auction, handle_auction_async, handle_post_common, serve, handle_post,
}

-- The times a reply was flushed, that is sent.
pub flushes : Reply → ℕ
flushes [] = 0
flushes (body t ∷ r) = flushes r
flushes (flush t ∷ r) = suc (flushes r)

flushes-append : (r s : Reply) → flushes (r ++ s) ≡ flushes r + flushes s
unfolding flushes
flushes-append [] s = omega arith
flushes-append (body t ∷ r) s = flushes-append r s
flushes-append (flush t ∷ r) s = omega (arith, flushes-append r s)

-- A function that ended with a reply has sent it once; one that threw has sent nothing.
abbrev pub SentOnce : Reply → Reply × Ended → Type 0
SentOnce r (r', done b) = flushes r' ≡ suc (flushes r)
SentOnce r (r', thrown) = flushes r' ≡ flushes r

module _ {Req Resp Log : Type 0} (h : ExchangeHandler Req Resp Log) where
  -- The callbacks that write a reply of their own send it once.
  pub record RepliesOnce : Type 0 where
    pub custom :
        (resp : Resp) (g : Reply → Reply) (r : Reply)
        → custom_reply h resp ≡ some g
        → flushes (g r) ≡ suc (flushes r)
    pub decides :
        (f : Req → Reply → Reply × Ended) (req : Req) (r : Reply)
        → h.decision_handler ≡ some f
        → SentOnce r (f req r)

  respond-flushes :
      RepliesOnce → (resp : Resp) (r : Reply) → flushes (respond h resp r) ≡ suc (flushes r)
  unfolding respond flushes
  respond-flushes once resp r = elim (Option-cases (custom_reply h resp)) [
    | inl e ↦
        rw (e, respond)
          (omega (arith, flushes-append r (body (h.create_response resp) ∷ flush json ∷ [])))
    | inr (g, e) ↦ rw (e, respond) (once.custom resp g r e)
  ]

  flush-once : (text : Text) (r : Reply) → flushes (r ++ flush text ∷ []) ≡ suc (flushes r)
  unfolding flushes
  flush-once text r = omega (arith, flushes-append r (flush text ∷ []))

  handle_auction-SentOnce :
      RepliesOnce
      → (req : Req) (r : Reply) (f : Req → Timed Resp) → h.auction_handler ≡ some f
      → SentOnce r (handle_auction h req r)
  unfolding handle_auction
  handle_auction-SentOnce once req r f set = grind (arith, respond-flushes once, flush-once)

  handle_auction_async-SentOnce :
      RepliesOnce
      → (req : Req) (r : Reply) (f : Req → Timed Resp) → h.auction_async_handler ≡ some f
      → SentOnce r (handle_auction_async h req r)
  unfolding handle_auction_async
  handle_auction_async-SentOnce once req r f set = grind (arith, respond-flushes once, flush-once)

  -- A handler that can serve a request: it routes it, or holds one auction or the other.
  abbrev pub Serves : Type 0
  Serves =
      (is_some h.decision_handler || (is_some h.auction_async_handler || is_some h.auction_handler))
      ≡ true

  -- With no decision and no asynchronous auction the request falls through to the plain auction.
  serve_plain :
      (req : Req) (r : Reply)
      → h.decision_handler ≡ none
      → h.auction_async_handler ≡ none
      → serve h req r ≡ handle_auction h req r
  unfolding serve handle_auction_async
  serve_plain req r d a = ground arith

  serve_async :
      (req : Req) (r : Reply) (f : Req → Timed Resp)
      → h.decision_handler ≡ none
      → h.auction_async_handler ≡ some f
      → serve h req r ≡ handle_auction_async h req r
  unfolding serve handle_auction_async
  serve_async req r f d a = ground arith

  serve_decision :
      (req : Req) (r : Reply) (f : Req → Reply → Reply × Ended)
      → h.decision_handler ≡ some f
      → serve h req r ≡ f req r
  unfolding serve
  serve_decision req r f d = rw (d, serve)

  serve-SentOnce : RepliesOnce → Serves → (req : Req) (r : Reply) → SentOnce r (serve h req r)
  serve-SentOnce once can req r = elim (Option-cases h.decision_handler) [
    | inr (f, d) ↦ subst (SentOnce r) (sym (serve_decision req r f d)) (once.decides f req r d)
    | inl d ↦ elim (Option-cases h.auction_async_handler) [
      | inr (f, a) ↦
          subst (SentOnce r) (sym (serve_async req r f d a))
            (handle_auction_async-SentOnce once req r f a)
      | inl a ↦ elim (Option-cases h.auction_handler) [
        | inr (f, p) ↦
            subst (SentOnce r) (sym (serve_plain req r d a))
              (handle_auction-SentOnce once req r f p)
        | inl p ↦ absurd (ground arith)
      ]
    ]
  ]

  -- A post is answered exactly once, whatever comes over the wire and however late the bids are, and
  -- not at all if a callback throws: if the handler can serve a request and its own callbacks send
  -- the reply once.
  pub handle_post-SentOnce :
      RepliesOnce
      → Serves
      → (text : Text) (r : Reply) (l : Log)
      → SentOnce r ((handle_post h text r l).0, (handle_post h text r l).2)
  unfolding handle_post handle_post_common
  handle_post-SentOnce once can text r l = grind (arith, serve-SentOnce once can, flush-once)
