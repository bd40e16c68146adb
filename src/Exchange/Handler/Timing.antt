-- ===== src/Exchange/Handler/Timing.antt =====
-- What the timeout of a request decides.
use vanilla_rtb.Base.{ℕ, ◌≤◌, ◌≡◌, ◌≢◌, true, ◌∷◌, [], ◌++◌, some, arith, pos}
use vanilla_rtb.Exchange.Handler.{
  Reply, flush, returns, Timed, done, json, ExchangeHandler, timeout, handle_auction,
  handle_auction_async,
}

module _ {Req Resp Log : Type 0} (h : ExchangeHandler Req Resp Log) (req : Req) (r : Reply) where
  -- A response that the asynchronous auction finds after the timeout, or just at it, is dropped: the
  -- exchange gets an empty reply.
  pub handle_auction_async-late :
      (f : Req → Timed Resp) (resp : Resp) (t : ℕ)
      → h.auction_async_handler ≡ some f
      → (f req).outcome ≡ returns resp
      → timeout h req ≡ pos t
      → t ≤ (f req).elapsed
      → handle_auction_async h req r ≡ (r ++ flush json ∷ [], done true)
  unfolding handle_auction_async
  handle_auction_async-late f resp t set out lim late = ground arith

  -- The two auctions give one reply for one handler that does not throw, unless it comes back at the
  -- very millisecond of the timeout.
  pub handle_auction-async_agree :
      (f : Req → Timed Resp) (resp : Resp)
      → h.auction_handler ≡ some f
      → h.auction_async_handler ≡ some f
      → (f req).outcome ≡ returns resp
      → timeout h req ≢ pos (f req).elapsed
      → handle_auction h req r ≡ handle_auction_async h req r
  unfolding handle_auction handle_auction_async
  handle_auction-async_agree f resp set set' out ne = ground arith
