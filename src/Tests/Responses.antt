-- ===== src/Tests/Responses.antt =====
-- Runs of rtb/DSL/rapid_serializer.hpp and of the extractors from a rapidjson document.
use vanilla_rtb.Base.{arith, ◌≡◌, refl, List, [], ◌∷◌, none, some, codes, pos}
use vanilla_rtb.OpenRtb.{header, BidResponse, default_bid, default_seat_bid}
use vanilla_rtb.Exchange.Collector.{empty_response}
use vanilla_rtb.Dsl.Extract.Written.{Said, write_said}
use vanilla_rtb.Dsl.Rapid.{aborted, rapid_request}
use vanilla_rtb.Dsl.Rapid.Agrees.{to_json, rapid_request-agrees}
use vanilla_rtb.Dsl.Serialize.{Call, serialize_response}
use vanilla_rtb.Dsl.Serialize.Nesting.{root, finished, accept_all, serialize_response-nested}
use vanilla_rtb.Dsl.Serialize.Faithful.{strip_response, serialize_response-tells}
use vanilla_rtb.Tests.Dsl.{unset}

abbrev answer : BidResponse
answer = record empty_response {
  id = codes "r";
  seatbid =
      record default_seat_bid { bid = record default_bid { id = codes "1"; price = 700 } ∷ [] }
      ∷ [];
}

serialize_response-nested_example :
    accept_all (serialize_response answer []) (root ∷ []) ≡ some (finished ∷ [])
serialize_response-nested_example = serialize_response-nested answer

written_alike :
    serialize_response answer [] ≡ serialize_response (record answer { ext = codes "x" }) []
unfolding serialize_response
written_alike = refl

serialize_response-tells_example :
    (strip_response answer ≡ strip_response (record answer { ext = codes "x" }))
    × (◌≡◌ {A = List Call} [] [])
serialize_response-tells_example =
    serialize_response-tells answer (record answer { ext = codes "x" }) [] [] written_alike

-- A user with a place, and one impression with a banner.
abbrev placed : Said
placed = record {
  id = codes "r";
  imp =
      record {
        id = codes "1";
        banner = some (record { w = 300; h = 250; position = header });
        bidfloor = pos 1500000;
        bidfloorcur = codes "USD";
      }
      ∷ [];
  user = some (some (record { city = codes "Paris"; country = codes "FRA" }));
  site = none;
}

-- A site says no `ref`.
site_aborts :
    rapid_request unset (to_json (write_said (record placed { site = some (codes "7") }))) ≡ aborted
site_aborts = rapid_request-agrees unset (record placed { site = some (codes "7") }) (omega arith)
