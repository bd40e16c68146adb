-- ===== src/Tests/Messages.antt =====
-- Runs of rtb/messaging/communicator.hpp.
use vanilla_rtb.Base.{ℕ, ◌+◌, ◌≡◌, refl, false, true, [], ◌∷◌, Option, none, some, Text}
use vanilla_rtb.OpenRtb.{BidRequest, BidResponse, Site}
use vanilla_rtb.Messaging.{received, stopped, malformed, process_loop}
use vanilla_rtb.Messaging.Carried.{carried_request, carried_response}
use vanilla_rtb.Tests.Samples.{response_at, two_impressions}

abbrev write : ℕ → Text
write n = n ∷ []

abbrev read : Text → Option ℕ
read [] = none
read (n ∷ rest) = some n

-- A handler that answers with the sum of what it was sent.
abbrev add_up : ℕ → ℕ → ℕ → ℕ × ℕ
add_up from n sum = (sum + n, sum + n)

-- The handler runs also for the datagram that comes with an error, and not after it.
error_stops :
    process_loop read write add_up
      (received false 1 (3 ∷ []) ∷ received true 2 (4 ∷ []) ∷ received false 3 (5 ∷ []) ∷ [])
      0
    ≡ (7, (1, 3 ∷ []) ∷ (2, 7 ∷ []) ∷ [], stopped)
unfolding process_loop
error_stops = refl

-- A datagram that is no archive ends the loop.
malformed_ends :
    process_loop read write add_up (received false 1 [] ∷ received false 3 (5 ∷ []) ∷ []) 0
    ≡ (0, [], malformed)
unfolding process_loop
malformed_ends = refl

abbrev fresh_site : Site
fresh_site = record {
  context = record {
    name = [];
    domain = [];
    cat = [];
    sectioncat = [];
    pagecat = [];
    privacypolicy = false;
    publisher = none;
    keywords = [];
    ext = [];
  };
  impl = record { page = []; ref = [] };
  id = [];
}

-- Archives of requests, and of responses, that differ in their id.
abbrev read_request : Text → Option BidRequest
read_request id = some (carried_request fresh_site (record two_impressions { id = id }))

abbrev bidder : ℕ → BidRequest → BidResponse
bidder price request = record (response_at price) { id = price ∷ request.id }

abbrev read_response : Text → Option BidResponse
read_response id = some (carried_response (record (response_at 0) { id = id }))
