-- ===== src/Exchange/Handler.antt =====
-- rtb/exchange/exchange_handler.hpp: a bid request from the wire to the reply.
-- A reply is the list of what was written to it, as http::server::reply is not part of this code.
-- The callbacks are functions. The run of an auction handler also has a duration in milliseconds
-- and may throw; what the io_service and the timer do with it is written out: the posted auction
-- runs to its end, then the time left on the timer is read.
pub mod Replies
pub mod Timing
use vanilla_rtb.Base.{
  ℕ, zero, suc, Bool, true, false, ◌&&◌, List, [], ◌∷◌, ◌++◌, Option, none, some, Text, codes, ltb,
  leb, ℤ, pos, negsuc, if◌then◌else◌,
}
use vanilla_rtb.OpenRtb.{BidRequest}

-- `r << text` and `r << reply::flush(type)`.
pub data ReplyOp : Type 0 where
  body flush : Text → ReplyOp

abbrev pub Reply : Type 0
Reply = List ReplyOp

pub data Outcome (A : Type 0) : Type 0 where
  returns : A → Outcome A
  throws : Outcome A

pub record Timed (A : Type 0) : Type 0 where
  pub elapsed : ℕ
  pub outcome : Outcome A

-- How a member function ends: with its result, or by an exception.
pub data Ended : Type 0 where
  done : Bool → Ended
  thrown : Ended

-- DSL::extract_request answers a request, or throws a std::exception or something else.
pub data Parsed (Req : Type 0) : Type 0 where
  parsed : Req → Parsed Req
  std_exception : Text → Parsed Req
  other_exception : Parsed Req

abbrev pub json : Text
json = codes "json"

-- `wait_for(timeout) == ready`, and `expires_from_now() > 0` once the handler is through.
abbrev pub is_ready : ℕ → ℤ → Bool
is_ready elapsed (pos t) = leb elapsed t
is_ready elapsed (negsuc t) = false

abbrev pub time_left : ℕ → ℤ → Bool
time_left elapsed (pos t) = ltb elapsed t
time_left elapsed (negsuc t) = false

-- `Req` is auction_request_type, `Resp` auction_response_type and `Log` what the loggers write to.
module _ (Req Resp Log : Type 0) where
  pub record ExchangeHandler : Type 0 where
    -- `parser`, the DSL.
    pub extract_request : Text → Parsed Req
    pub create_response : Resp → Text
    -- request().tmax
    pub request_tmax : Req → ℤ
    pub auction_handler : Option (Req → Timed Resp)
    pub auction_async_handler : Option (Req → Timed Resp)
    pub log_handler : Option (Text → Log → Log)
    pub error_log_handler : Option (Text → Log → Log)
    pub decision_handler : Option (Req → Reply → Reply × Ended)
    pub if_response_handler : Option (Resp → Option (Reply → Reply))
    pub tmax : ℤ

module _ {Req Resp Log : Type 0} (h : ExchangeHandler Req Resp Log) where
  -- The setters.
  abbrev pub auction : (Req → Timed Resp) → ExchangeHandler Req Resp Log
  auction f = record h { auction_handler = some f }

  abbrev pub auction_async : (Req → Timed Resp) → ExchangeHandler Req Resp Log
  auction_async f = record h { auction_async_handler = some f }

  abbrev pub logger : (Text → Log → Log) → ExchangeHandler Req Resp Log
  logger f = record h { log_handler = some f }

  abbrev pub error_logger : (Text → Log → Log) → ExchangeHandler Req Resp Log
  error_logger f = record h { error_log_handler = some f }

  abbrev pub decision : (Req → Reply → Reply × Ended) → ExchangeHandler Req Resp Log
  decision f = record h { decision_handler = some f }

  abbrev pub if_response : (Resp → Option (Reply → Reply)) → ExchangeHandler Req Resp Log
  if_response f = record h { if_response_handler = some f }

  -- `bid_request.request().tmax ? bid_request.request().tmax : tmax.count()`
  unfoldable pub timeout : Req → ℤ
  timeout req = elim (h.request_tmax req) [
    | pos t ↦ if leb t 0 then h.tmax else pos t
    | negsuc t ↦ negsuc t
  ]

  -- The custom reply to a response, if there is one.
  unfoldable pub custom_reply : Resp → Option (Reply → Reply)
  custom_reply resp = elim h.if_response_handler [ none ↦ none | some f ↦ f resp ]

  -- What both auctions do with a response that came in time.
  unfoldable pub respond : Resp → Reply → Reply
  respond resp r = elim (custom_reply resp) [
    | some custom ↦ custom r
    | none ↦ r ++ body (h.create_response resp) ∷ flush json ∷ []
  ]

  unfoldable pub handle_auction : Req → Reply → Reply × Ended
  handle_auction req r = elim h.auction_handler [
    | none ↦ (r, done false)
    | some f ↦
        if is_ready (f req).elapsed (timeout req)
        then elim (f req).outcome [
          | returns resp ↦ (respond resp r, done true)
          | throws ↦ (r, thrown)
        ]
        else (r ++ flush json ∷ [], done true)
  ]

  unfoldable pub handle_auction_async : Req → Reply → Reply × Ended
  handle_auction_async req r = elim h.auction_async_handler [
    | none ↦ (r, done false)
    | some f ↦ elim (f req).outcome [
      | throws ↦ (r, thrown)
      | returns resp ↦
          if time_left (f req).elapsed (timeout req)
          then (respond resp r, done true)
          else (r ++ flush json ∷ [], done true)
    ]
  ]

  -- handle_post_common: the reply and the log, and the request or how the function ended.
  pub data Common : Type 0 where
    request : Req → Common
    stopped : Ended → Common

  abbrev write_log : Option (Text → Log → Log) → Text → Log → Log
  write_log none text l = l
  write_log (some f) text l = f text l

  unfoldable pub handle_post_common : Text → Reply → Log → Reply × Log × Common
  handle_post_common text r l =
      let l' = write_log h.log_handler text l in
      elim (h.extract_request text) [
        | parsed req ↦ (r, l', request req)
        | std_exception what ↦
            (r ++ flush [] ∷ [], write_log h.error_log_handler what l', stopped (done false))
        | other_exception ↦ (r, l', stopped thrown)
      ]

  -- The part of handle_post behind the parse.
  unfoldable pub serve : Req → Reply → Reply × Ended
  serve req r = elim h.decision_handler [
    | some f ↦ f req r
    | none ↦
        let (r', ended) = handle_auction_async req r in
        elim ended [
          | thrown ↦ (r', thrown)
          | done true ↦ (r', done true)
          | done false ↦ handle_auction req r'
        ]
  ]

  -- handle_post is void: `done` with either value is a return.
  unfoldable pub handle_post : Text → Reply → Log → Reply × Log × Ended
  handle_post text r l =
      let (r', l', common) = handle_post_common text r l in
      elim common [
        | stopped ended ↦ (r', l', ended)
        | request req ↦ let (r'', ended) = serve req r' in (r'', l', ended)
      ]
