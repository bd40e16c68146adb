-- ===== src/Dsl/Serialize/Faithful.antt =====
-- What the calls of the serializer tell of a response: everything but the members `ext`.
use vanilla_rtb.Base.{
  ℕ, zero, suc, ◌≡◌, ◌≢◌, refl, sym, ap, ◌∙◌, List, [], ◌∷◌, map, Text, codes, ℤ, pos, negsuc,
}
use vanilla_rtb.OpenRtb.{
  CreativeAttribute, NoBidReason, Bid, SeatBid, BidResponse, unspecified, unknown_error,
  technical_error, invalid_request, known_web_spider, suspected_non_human_traffic,
  cloud_datacenter_or_proxy_ip, unsupported_device, blocked_publisher_or_site, unmatched_user,
}
use vanilla_rtb.Dsl.Serialize.{
  Calls, end_object, start_array, end_array, string, serialize_elements, serialize_vector,
  serialize_attribute, serialize_text, serialize_bid, serialize_seat, serialize_response,
  reason_number, attribute_number, text_member, int_member,
}

abbrev pub strip_bid : Bid → Bid
strip_bid b = record b { ext = [] }

abbrev pub strip_seat : SeatBid → SeatBid
strip_seat s = record s { bid = map strip_bid s.bid; ext = [] }

abbrev pub strip_response : BidResponse → BidResponse
strip_response r = record r { seatbid = map strip_seat r.seatbid; ext = [] }

abbrev reasons : List NoBidReason
reasons =
    unknown_error ∷ technical_error ∷ invalid_request ∷ known_web_spider
    ∷ suspected_non_human_traffic ∷ cloud_datacenter_or_proxy_ip ∷ unsupported_device
    ∷ blocked_publisher_or_site ∷ unmatched_user ∷ []

abbrev attributes : List CreativeAttribute
attributes =
    CreativeAttribute.undefined ∷ CreativeAttribute.audio_ad_auto_play
    ∷ CreativeAttribute.audio_ad_user_initiated ∷ CreativeAttribute.expandable_automatic
    ∷ CreativeAttribute.expandable_user_initiated_click
    ∷ CreativeAttribute.expandable_user_initiated_rollover
    ∷ CreativeAttribute.in_banner_video_ad_auto_play
    ∷ CreativeAttribute.in_banner_video_ad_user_initiated ∷ CreativeAttribute.pop
    ∷ CreativeAttribute.provocative_or_suggestive_imagery
    ∷ CreativeAttribute.shaky_flashing_flickering_extreme_animation_smileys
    ∷ CreativeAttribute.surveys ∷ CreativeAttribute.text_only ∷ CreativeAttribute.user_interactive
    ∷ CreativeAttribute.windows_dialog_or_alert_style ∷ CreativeAttribute.has_audio_on_off_button
    ∷ CreativeAttribute.ad_can_be_skipped ∷ []

-- The element at a place, or the first choice.
abbrev pick {ℓ} : {A : Type ℓ} → A → List A → ℕ → A
pick a [] n = a
pick a (x ∷ xs) zero = x
pick a (x ∷ xs) (suc n) = pick a xs n

abbrev reason_of : ℤ → NoBidReason
reason_of (pos n) = pick unspecified reasons n
reason_of (negsuc n) = unspecified

abbrev attribute_of : ℤ → CreativeAttribute
attribute_of (pos n) = pick CreativeAttribute.undefined attributes n
attribute_of (negsuc n) = CreativeAttribute.undefined

reason_of-number : (r : NoBidReason) → reason_of (reason_number r) ≡ r
unfolding reason_number
reason_of-number unspecified = refl
reason_of-number _ = refl

attribute_of-number : (a : CreativeAttribute) → attribute_of (attribute_number a) ≡ a
unfolding attribute_number
attribute_of-number CreativeAttribute.undefined = refl
attribute_of-number _ = refl

reason_number-injective : (r s : NoBidReason) → reason_number r ≡ reason_number s → r ≡ s
reason_number-injective r s e = sym (reason_of-number r) ∙ ap reason_of e ∙ reason_of-number s

attribute_number-injective :
    (a b : CreativeAttribute) → attribute_number a ≡ attribute_number b → a ≡ b
attribute_number-injective a b e =
    sym (attribute_of-number a) ∙ ap attribute_of e ∙ attribute_of-number b

-- Elements whose calls tell them apart but for what `strip` takes away, and begin with no EndArray.
module _ {A : Type 0} (one : A → Calls → Calls) (strip : A → A)
    (opens : (x : A) (rest rest' : Calls) → one x rest ≢ end_array ∷ rest')
    (tells : (x y : A) (rest rest' : Calls)
      → one x rest ≡ one y rest'
      → (strip x ≡ strip y) × (rest ≡ rest')) where
  elements_tell :
      (xs ys : List A) (rest rest' : Calls)
      → serialize_elements one xs (end_array ∷ rest) ≡ serialize_elements one ys (end_array ∷ rest')
      → (map strip xs ≡ map strip ys) × (rest ≡ rest')
  unfolding serialize_elements
  elements_tell [] [] rest rest' e = (refl, cc)
  elements_tell [] (y ∷ ys) rest rest' e = absurd (opens y _ rest (sym e))
  elements_tell (x ∷ xs) [] rest rest' e = absurd (opens x _ rest' e)
  elements_tell (x ∷ xs) (y ∷ ys) rest rest' e =
      let (same, later) = tells x y _ _ e in
      let (all, last) = elements_tell xs ys rest rest' later in (cc, last)

  vector-elements :
      (xs : List A) (rest : Calls)
      → serialize_vector one xs rest ≡ start_array ∷ serialize_elements one xs (end_array ∷ rest)
  unfolding serialize_vector serialize_elements
  vector-elements [] rest = refl
  vector-elements (x ∷ xs) rest = refl

  vector_tells :
      (xs ys : List A) (rest rest' : Calls)
      → serialize_vector one xs rest ≡ serialize_vector one ys rest'
      → (map strip xs ≡ map strip ys) × (rest ≡ rest')
  vector_tells xs ys rest rest' e =
      elements_tell xs ys rest rest' (cc (vector-elements xs rest, vector-elements ys rest'))

map_same {ℓ} : {A : Type ℓ} (xs : List A) → map (λ x. x) xs ≡ xs
map_same [] = refl
map_same (x ∷ xs) = ap (λ ys. x ∷ ys) (map_same xs)

texts_tell :
    (xs ys : List Text) (rest rest' : Calls)
    → serialize_elements serialize_text xs (end_array ∷ rest)
      ≡ serialize_elements serialize_text ys (end_array ∷ rest')
    → (xs ≡ ys) × (rest ≡ rest')
unfolding serialize_text
texts_tell xs ys rest rest' e =
    let (same, later) =
      elements_tell serialize_text (λ x. x) (λ x r r' h. cc) (λ x y r r' h. (cc, cc)) xs ys rest
        rest' e in
    (sym (map_same xs) ∙ same ∙ map_same ys, later)

attributes_tell :
    (xs ys : List CreativeAttribute) (rest rest' : Calls)
    → serialize_vector serialize_attribute xs rest ≡ serialize_vector serialize_attribute ys rest'
    → (xs ≡ ys) × (rest ≡ rest')
unfolding serialize_attribute
attributes_tell xs ys rest rest' e =
    let (same, later) =
      vector_tells serialize_attribute (λ x. x) (λ x r r' h. cc)
        (λ x y r r' h. (attribute_number-injective x y (cc), cc)) xs ys rest rest' e in
    (sym (map_same xs) ∙ same ∙ map_same ys, later)

-- The calls for a bid behind its attributes, and behind its domains.
abbrev after_attributes : Bid → Calls → Calls
after_attributes b rest =
    text_member "dealid" b.dealid
      (int_member "w" (pos b.w) (int_member "h" (pos b.h) (end_object ∷ rest)))

abbrev after_domains : Bid → Calls → Calls
after_domains b rest = text_member "iurl" b.iurl (
    text_member "cid" b.cid (
      text_member "crid" b.crid (
        string (codes "attr")
        ∷ serialize_vector serialize_attribute b.attr (after_attributes b rest))))

bid_tells :
    (b c : Bid) (rest rest' : Calls)
    → serialize_bid b rest ≡ serialize_bid c rest'
    → (strip_bid b ≡ strip_bid c) × (rest ≡ rest')
unfolding serialize_bid
bid_tells b c rest rest' e =
    let (domains, behind) =
      texts_tell b.adomain c.adomain (after_domains b rest) (after_domains c rest') (cc) in
    let (attrs, last) =
      attributes_tell b.attr c.attr (after_attributes b rest) (after_attributes c rest') (cc) in
    (cc, cc)

bid_opens : (b : Bid) (rest rest' : Calls) → serialize_bid b rest ≢ end_array ∷ rest'
unfolding serialize_bid
bid_opens b rest rest' e = cc

abbrev after_bids : SeatBid → Calls → Calls
after_bids s rest = text_member "seat" s.seat (int_member "group" s.group (end_object ∷ rest))

seat_tells :
    (s t : SeatBid) (rest rest' : Calls)
    → serialize_seat s rest ≡ serialize_seat t rest'
    → (strip_seat s ≡ strip_seat t) × (rest ≡ rest')
unfolding serialize_seat
seat_tells s t rest rest' e =
    let (bids, last) =
      vector_tells serialize_bid strip_bid bid_opens bid_tells s.bid t.bid (after_bids s rest)
        (after_bids t rest') (cc) in
    (cc, cc)

seat_opens : (s : SeatBid) (rest rest' : Calls) → serialize_seat s rest ≢ end_array ∷ rest'
unfolding serialize_seat
seat_opens s rest rest' e = cc

abbrev after_seats : BidResponse → Calls → Calls
after_seats r rest = text_member "bidid" r.bidid (
    text_member "cur" r.cur (
      text_member "customdata" r.customdata
        (int_member "nbr" (reason_number r.nbr) (end_object ∷ rest))))

-- Two responses that are written by the same calls, whatever is written behind them, are the same in
-- every member of the response, of its seats and of their bids, but for the members `ext`; and what is
-- written behind them is the same.
pub serialize_response-tells :
    (r q : BidResponse) (rest rest' : Calls)
    → serialize_response r rest ≡ serialize_response q rest'
    → (strip_response r ≡ strip_response q) × (rest ≡ rest')
unfolding serialize_response
serialize_response-tells r q rest rest' e =
    let (seats, last) =
      vector_tells serialize_seat strip_seat seat_opens seat_tells r.seatbid q.seatbid
        (after_seats r rest) (after_seats q rest') (cc) in
    let reason = reason_number-injective r.nbr q.nbr (cc) in (cc, cc)
