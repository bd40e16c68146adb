-- ===== src/Dsl/Serialize.antt =====
-- rtb/DSL/rapid_serializer.hpp: a bid response, as the calls that the serializer makes of the writer.
-- Every function is given the calls that follow its own.
pub mod Nesting
pub mod Faithful
use Prim.Native.String.{String}
use vanilla_rtb.Base.{ℕ, List, [], ◌∷◌, Text, codes, ℤ, pos, negsuc}
use vanilla_rtb.OpenRtb.{
  CreativeAttribute, NoBidReason, Bid, SeatBid, BidResponse, unspecified, unknown_error,
  technical_error, invalid_request, known_web_spider, suspected_non_human_traffic,
  cloud_datacenter_or_proxy_ip, unsupported_device, blocked_publisher_or_site, unmatched_user,
}

-- StartObject, EndObject, StartArray, EndArray, String, Int and Double of rapidjson::Writer.
pub data Call : Type 0 where
  start_object end_object start_array end_array : Call
  string : Text → Call
  int : ℤ → Call
  double : ℕ → Call

abbrev pub Calls : Type 0
Calls = List Call

-- (int)nbr
unfoldable pub reason_number : NoBidReason → ℤ
reason_number unspecified = negsuc 0
reason_number unknown_error = pos 0
reason_number technical_error = pos 1
reason_number invalid_request = pos 2
reason_number known_web_spider = pos 3
reason_number suspected_non_human_traffic = pos 4
reason_number cloud_datacenter_or_proxy_ip = pos 5
reason_number unsupported_device = pos 6
reason_number blocked_publisher_or_site = pos 7
reason_number unmatched_user = pos 8

-- (int)attr
unfoldable pub attribute_number : CreativeAttribute → ℤ
attribute_number CreativeAttribute.undefined = negsuc 0
attribute_number CreativeAttribute.audio_ad_auto_play = pos 1
attribute_number CreativeAttribute.audio_ad_user_initiated = pos 2
attribute_number CreativeAttribute.expandable_automatic = pos 3
attribute_number CreativeAttribute.expandable_user_initiated_click = pos 4
attribute_number CreativeAttribute.expandable_user_initiated_rollover = pos 5
attribute_number CreativeAttribute.in_banner_video_ad_auto_play = pos 6
attribute_number CreativeAttribute.in_banner_video_ad_user_initiated = pos 7
attribute_number CreativeAttribute.pop = pos 8
attribute_number CreativeAttribute.provocative_or_suggestive_imagery = pos 9
attribute_number CreativeAttribute.shaky_flashing_flickering_extreme_animation_smileys = pos 10
attribute_number CreativeAttribute.surveys = pos 11
attribute_number CreativeAttribute.text_only = pos 12
attribute_number CreativeAttribute.user_interactive = pos 13
attribute_number CreativeAttribute.windows_dialog_or_alert_style = pos 14
attribute_number CreativeAttribute.has_audio_on_off_button = pos 15
attribute_number CreativeAttribute.ad_can_be_skipped = pos 16

-- writer.String(name); serializer<std::string>::serialize(value)
abbrev pub text_member : String → Text → Calls → Calls
text_member name value rest = string (codes name) ∷ string value ∷ rest

abbrev pub int_member : String → ℤ → Calls → Calls
int_member name value rest = string (codes name) ∷ int value ∷ rest

-- The elements of a vector, between its StartArray and its EndArray.
unfoldable pub serialize_elements : {A : Type 0} → (A → Calls → Calls) → List A → Calls → Calls
serialize_elements one [] rest = rest
serialize_elements one (x ∷ xs) rest = one x (serialize_elements one xs rest)

-- serializer<std::vector<T>>
unfoldable pub serialize_vector : {A : Type 0} → (A → Calls → Calls) → List A → Calls → Calls
unfolding serialize_elements
serialize_vector one [] rest = start_array ∷ end_array ∷ rest
serialize_vector one (x ∷ xs) rest =
    start_array ∷ serialize_elements one (x ∷ xs) (end_array ∷ rest)

-- serializer<CreativeAttribute>
unfoldable pub serialize_attribute : CreativeAttribute → Calls → Calls
serialize_attribute a rest = int (attribute_number a) ∷ rest

-- serializer<std::string>
unfoldable pub serialize_text : Text → Calls → Calls
serialize_text t rest = string t ∷ rest

-- serializer<Bid>
unfoldable pub serialize_bid : Bid → Calls → Calls
serialize_bid b rest =
    start_object
    ∷ text_member "id" b.id (
        text_member "impid" b.impid (
          string (codes "price")
          ∷ double b.price
          ∷ text_member "adid" b.adid (
              text_member "nurl" b.nurl (
                text_member "adm" b.adm (
                  string (codes "adomain")
                  ∷ start_array
                  ∷ serialize_elements serialize_text b.adomain (
                      end_array
                      ∷ text_member "iurl" b.iurl (
                          text_member "cid" b.cid (
                            text_member "crid" b.crid (
                              string (codes "attr")
                              ∷ serialize_vector serialize_attribute b.attr (
                                  text_member "dealid" b.dealid (
                                    int_member "w" (pos b.w)
                                      (int_member "h" (pos b.h) (end_object ∷ rest)))))))))))))

-- serializer<SeatBid>
unfoldable pub serialize_seat : SeatBid → Calls → Calls
serialize_seat s rest =
    start_object
    ∷ string (codes "bid")
    ∷ serialize_vector serialize_bid s.bid
        (text_member "seat" s.seat (int_member "group" s.group (end_object ∷ rest)))

-- serializer<BidResponse>
unfoldable pub serialize_response : BidResponse → Calls → Calls
serialize_response r rest =
    start_object
    ∷ text_member "id" r.id (
        string (codes "seatbid")
        ∷ serialize_vector serialize_seat r.seatbid (
            text_member "bidid" r.bidid (
              text_member "cur" r.cur (
                text_member "customdata" r.customdata
                  (int_member "nbr" (reason_number r.nbr) (end_object ∷ rest))))))
