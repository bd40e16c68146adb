-- ===== src/Messaging.antt =====
-- rtb/messaging/communicator.hpp: communicators that distribute, consume, process and collect datagrams.
-- Sockets and the io_service are Boost.Asio's: what they receive is a list of events, and what is sent
-- is a list of datagrams. Boost's archives are the functions `serialize` and `deserialize`; the latter
-- throws on what is no archive.
pub mod Carried
pub mod Round
use vanilla_rtb.Base.{
  Bool, true, false, List, [], ◌∷◌, ◌++◌, Option, none, some, Text, if◌then◌else◌,
}

-- What a receive handler is called with: the error code, the sender and the bytes.
pub data Received (Endpoint : Type 0) : Type 0 where
  received : Bool → Endpoint → Text → Received Endpoint

-- Why a receiver takes no further datagram: it waits for one; it has stopped after an error; or an
-- exception has left the io_service before the next receive was started.
pub data Stop : Type 0 where
  waiting stopped malformed : Stop

-- communicator: whether `outbound` and `inbound` were called, and what was handed to the socket.
pub record Communicator : Type 0 where
  pub distributor : Bool
  pub consumer : Bool
  pub sent : List Text

abbrev pub new_communicator : Communicator
new_communicator = record { distributor = false; consumer = false; sent = [] }

abbrev pub outbound : Communicator → Communicator
outbound c = record c { distributor = true }

abbrev pub inbound : Communicator → Communicator
inbound c = record c { consumer = true }

-- distribute, of serialized data.
unfoldable pub distribute : {T : Type 0} → (T → Text) → T → Communicator → Communicator
distribute serialize data' c =
    if c.distributor then record c { sent = c.sent ++ serialize data' ∷ [] } else c

module _ {Endpoint T R S : Type 0} (deserialize : Text → Option T) where
  -- receiver::receive_async and handle_receive_from, under the handler of `process`: the handler runs
  -- before the error is looked at, and its response goes back to the sender.
  unfoldable pub process_loop :
      (R → Text)
      → (Endpoint → T → S → S × R)
      → List (Received Endpoint)
      → S
      → S × List (Endpoint × Text) × Stop
  process_loop serialize handler [] s = (s, [], waiting)
  process_loop serialize handler (received error from bytes ∷ es) s = elim (deserialize bytes) [
    | none ↦ (s, [], malformed)
    | some t ↦
        let (s', response) = handler from t s in
        let (s'', replies, stop) = process_loop serialize handler es s' in
        if error
        then (s', (from, serialize response) ∷ [], stopped)
        else (s'', (from, serialize response) ∷ replies, stop)
  ]

  -- process and dispatch: without `inbound` nothing is received.
  unfoldable pub process :
      (R → Text)
      → (Endpoint → T → S → S × R)
      → Communicator
      → List (Received Endpoint)
      → S
      → S × List (Endpoint × Text) × Stop
  process serialize handler c es s =
      let run = process_loop serialize handler es s in if c.consumer then run else (s, [], waiting)

module _ {Endpoint T S : Type 0} (deserialize : Text → Option T) where
  -- receive_async and handle_receive_from under the handler of `consume`, which sends nothing.
  unfoldable pub consume_loop : (Endpoint → T → S → S) → List (Received Endpoint) → S → S × Stop
  consume_loop handler [] s = (s, waiting)
  consume_loop handler (received error from bytes ∷ es) s = elim (deserialize bytes) [
    | none ↦ (s, malformed)
    | some t ↦
        let rest = consume_loop handler es (handler from t s) in
        if error then (handler from t s, stopped) else rest
  ]

  -- consume and dispatch.
  unfoldable pub consume :
      (Endpoint → T → S → S) → Communicator → List (Received Endpoint) → S → S × Stop
  consume handler c es s =
      let run = consume_loop handler es s in if c.consumer then run else (s, waiting)
