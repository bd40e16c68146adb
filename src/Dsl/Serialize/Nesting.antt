-- ===== src/Dsl/Serialize/Nesting.antt =====
-- The order of calls that rapidjson::Writer asks for: one value at the root, the names of an object
-- as strings, each with a value behind it, and every object and array closed where it was opened.
use vanilla_rtb.Base.{◌≡◌, refl, ◌∙◌, List, [], ◌∷◌, Option, none, some, ◌>>=◌, Text}
use vanilla_rtb.OpenRtb.{CreativeAttribute, Bid, SeatBid, BidResponse}
use vanilla_rtb.Dsl.Serialize.{
  Call, Calls, start_object, end_object, start_array, end_array, string, int, double,
  serialize_elements, serialize_vector, serialize_attribute, serialize_text, serialize_bid,
  serialize_seat, serialize_response,
}

-- What may come next in an open object, array or document.
pub data Frame : Type 0 where
  name value array root finished : Frame

-- A value has come.
abbrev pub filled : Frame → Option Frame
filled name = none
filled value = some name
filled array = some array
filled root = some finished
filled finished = none

abbrev pub accept : Call → List Frame → Option (List Frame)
accept c [] = none
accept start_object (f ∷ s) = filled f >>= λ g. some (name ∷ g ∷ s)
accept end_object (name ∷ s) = some s
accept end_object (f ∷ s) = none
accept start_array (f ∷ s) = filled f >>= λ g. some (array ∷ g ∷ s)
accept end_array (array ∷ s) = some s
accept end_array (f ∷ s) = none
accept (string t) (name ∷ s) = some (value ∷ s)
accept (string t) (f ∷ s) = filled f >>= λ g. some (g ∷ s)
accept (int n) (f ∷ s) = filled f >>= λ g. some (g ∷ s)
accept (double n) (f ∷ s) = filled f >>= λ g. some (g ∷ s)

unfoldable pub accept_all : Calls → List Frame → Option (List Frame)
accept_all [] s = some s
accept_all (c ∷ cs) s = accept c s >>= accept_all cs

module _ {A : Type 0} (one : A → Calls → Calls)
    (nests : (x : A) (rest : Calls) (s : List Frame)
      → accept_all (one x rest) (array ∷ s) ≡ accept_all rest (array ∷ s)) where
  elements_nest :
      (xs : List A) (rest : Calls) (s : List Frame)
      → accept_all (serialize_elements one xs rest) (array ∷ s) ≡ accept_all rest (array ∷ s)
  unfolding serialize_elements
  elements_nest [] rest s = refl
  elements_nest (x ∷ xs) rest s =
      nests x (serialize_elements one xs rest) s ∙ elements_nest xs rest s

  vector_nest :
      (xs : List A) (rest : Calls) (s : List Frame)
      → accept_all (serialize_vector one xs rest) (value ∷ s) ≡ accept_all rest (name ∷ s)
  unfolding serialize_vector accept_all
  vector_nest [] rest s = refl
  vector_nest (x ∷ xs) rest s = elements_nest (x ∷ xs) (end_array ∷ rest) (name ∷ s)

text_nests :
    (t : Text) (rest : Calls) (s : List Frame)
    → accept_all (serialize_text t rest) (array ∷ s) ≡ accept_all rest (array ∷ s)
unfolding serialize_text accept_all
text_nests t rest s = refl

attribute_nests :
    (a : CreativeAttribute) (rest : Calls) (s : List Frame)
    → accept_all (serialize_attribute a rest) (array ∷ s) ≡ accept_all rest (array ∷ s)
unfolding serialize_attribute accept_all
attribute_nests a rest s = refl

bid_nests :
    (b : Bid) (rest : Calls) (s : List Frame)
    → accept_all (serialize_bid b rest) (array ∷ s) ≡ accept_all rest (array ∷ s)
unfolding serialize_bid accept_all
bid_nests b rest s =
    elements_nest serialize_text text_nests b.adomain _ (name ∷ array ∷ s)
    ∙ vector_nest serialize_attribute attribute_nests b.attr _ (array ∷ s)

seat_nests :
    (t : SeatBid) (rest : Calls) (s : List Frame)
    → accept_all (serialize_seat t rest) (array ∷ s) ≡ accept_all rest (array ∷ s)
unfolding serialize_seat accept_all
seat_nests t rest s = vector_nest serialize_bid bid_nests t.bid _ (array ∷ s)

-- Whatever the response is, the writer accepts every call in its order, and has one finished value at
-- the end.
pub serialize_response-nested :
    (r : BidResponse) → accept_all (serialize_response r []) (root ∷ []) ≡ some (finished ∷ [])
unfolding serialize_response accept_all
serialize_response-nested r = vector_nest serialize_seat seat_nests r.seatbid _ (finished ∷ [])
