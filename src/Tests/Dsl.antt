-- ===== src/Tests/Dsl.antt =====
-- Runs of rtb/DSL on small texts.

use vanilla_rtb.Base.{
  ℕ, ◌+◌, ◌*◌, ◌-◌, ◌^◌, ◌<◌, ◌≤◌, ◌≡◌, refl, List, [], ◌∷◌, ◌++◌, true, false, Option, none, some,
  Text, codes, text_eq, ltb, leb, length, ℤ, pos, negsuc, if◌then◌else◌, ◌==◌, arith, ◌&&◌, inl,
  inr, Bool-cases,
}
use vanilla_rtb.OpenRtb.{AdPosition, FramePosition, AuctionType}
use vanilla_rtb.Dsl.Values.{
  Token, TokenType, Any, int64, view, map_of, vector_of, boolean, Members, no_members, member,
  no_items, item, map_insert, map_find, push_back, span,
}
use vanilla_rtb.Dsl.Encode.{
  Casts, ok, err, ◌>>=◌, past_end, encode, encode_token, read_members, read_items, primitive_value,
  has_char, as_int64, sub_size, insert_pair, push_value,
}
use vanilla_rtb.Dsl.Encode.Trees.{
  TokenTree, primitive, string, object, array, no_fields, field, no_elements, element, tokens,
  meaning, meaning_fields, fill,
}
use vanilla_rtb.Dsl.Encode.Reads.{encode-tokens}
use vanilla_rtb.Dsl.Encode.Typed.{IsCasts, InInt64, Ends, IsTyped, encode-Ends}
use vanilla_rtb.Dsl.Encode.Truncated.{cut_object, encode-cut_object}
use vanilla_rtb.Dsl.Blank.{Unset}
use vanilla_rtb.Dsl.Extract.{extract_impression}
use vanilla_rtb.Dsl.Extract.Floors.{integer_floor_lost}
use vanilla_rtb.Dsl.Extract.Written.{Said, request_said, write_said}
use vanilla_rtb.Dsl.Mapper.{extract, extracted, extract-said}

abbrev pub unset : Unset
unset = record {
  position = AdPosition.unknown;
  frame = FramePosition.undefined;
  auction = AuctionType.first_price;
  privacy = false;
}

-- The value of a row of digits, behind `acc`.
abbrev pub digits_onto : ℕ → Text → Option ℕ
digits_onto acc [] = some acc
digits_onto acc (c ∷ s) =
    let rest = digits_onto (acc * 10 + (c - 48)) s in if leb 48 c && leb c 57 then rest else none

abbrev pub below : ℕ → Option ℕ → Option ℕ
below bound none = none
below bound (some n) = if ltb n bound then some n else none

abbrev pub unsigned : Text → Option ℕ
unsigned [] = none
unsigned (c ∷ s) = below (2 ^ 64) (digits_onto 0 (c ∷ s))

abbrev negated : Option ℕ → Option ℤ
negated none = none
negated (some n) = if n == 0 then some (pos 0) else some (negsuc (n - 1))

abbrev signed : Text → Option ℤ
signed [] = none
signed (c ∷ s) = if c == b'-' then negated (below (2 ^ 63) (digits_onto 0 s)) else none

-- Conversions of whole numbers, and of one double.
abbrev casts : Casts
casts = record {
  to_double = λ s. if text_eq s (codes "1.5") then some (pos 1500000) else none;
  to_int64 = signed;
  to_uint64 = unsigned;
}

below_lt : (bound : ℕ) (o : Option ℕ) (n : ℕ) → below bound o ≡ some n → n < bound
below_lt bound none n h = ground arith
below_lt bound (some m) n h = ground arith

negated-InInt64 : (o : Option ℕ) (n : ℤ) → negated (below (2 ^ 63) o) ≡ some n → InInt64 n
negated-InInt64 none n h = ground arith
negated-InInt64 (some m) (pos n) h = ground arith
negated-InInt64 (some m) (negsuc n) h = ground arith

signed-InInt64 : (s : Text) (n : ℤ) → signed s ≡ some n → InInt64 n
signed-InInt64 [] n h = cc
signed-InInt64 (c ∷ s) n h = elim (Bool-cases (c == b'-')) [
  | inl e ↦ negated-InInt64 (digits_onto 0 s) n (rw e at h)
  | inr e ↦ let none_there = rw e at h in cc
]

unsigned_lt : (s : Text) (n : ℕ) → unsigned s ≡ some n → n < 2 ^ 64
unsigned_lt [] n h = cc
unsigned_lt (c ∷ s) n h = below_lt (2 ^ 64) (digits_onto 0 (c ∷ s)) n h

casts-IsCasts : IsCasts casts
casts-IsCasts = record { int64_range = signed-InInt64; uint64_range = unsigned_lt }

-- {"a":[1,-2,true],"b":7}
abbrev text : Text
text = codes "{\"a\":[1,-2,true],\"b\":7}"

abbrev tree : TokenTree
tree = object 0 23 (
    field 2 3
      (array 5 16 (
        element (primitive 6 7) (element (primitive 8 10) (element (primitive 11 15) no_elements))))
      (field 18 19 (primitive 21 22) no_fields))

abbrev value : Any
value = map_of (
    member (codes "a")
      (vector_of (item (int64 (pos 1)) (item (int64 (negsuc 1)) (item (boolean true) no_items))))
      (member (codes "b") (int64 (pos 7)) no_members))

tree_means : meaning casts text tree ≡ ok value
unfolding meaning primitive_value has_char as_int64 fill map_insert map_find span
tree_means = refl

text_encoded : encode casts text 9 (tokens tree) 8 ≡ ok (value, 8)
unfolding encode encode_token read_members read_items primitive_value has_char as_int64 insert_pair
    push_value push_back map_insert map_find span tokens sub_size
text_encoded = refl

-- What stands behind the tokens of a text.
abbrev token_behind : Token
token_behind = record { type = TokenType.object; start = 0; end = 0; size = 9 }

encode-tokens_example :
    encode casts text 8 (tokens tree ++ token_behind ∷ []) 9
    ≡ (meaning casts text tree >>= λ a. ok (a, length (tokens tree)))
encode-tokens_example =
    encode-tokens casts text tree (token_behind ∷ []) 8 9 (unfold tokens in omega arith)
      (unfold tokens in omega arith)

encode-Ends_example :
    Ends (λ r. IsTyped r.0 × (r.1 ≤ 2)) (encode casts text 3 (token_behind ∷ token_behind ∷ []) 9)
encode-Ends_example =
    encode-Ends casts casts-IsCasts text 3 (token_behind ∷ token_behind ∷ []) 9 (omega arith)

-- {"a":1,"b"}
abbrev cut_text : Text
cut_text = codes "{\"a\":1,\"b\"}"

cut_means :
    meaning_fields casts cut_text (field 2 3 (primitive 5 6) no_fields)
    ≡ ok ((codes "a", int64 (pos 1)) ∷ [])
unfolding meaning primitive_value has_char as_int64 span
cut_means = refl

encode-cut_object_example :
    encode casts cut_text 9
      (cut_object 0 11 (field 2 3 (primitive 5 6) no_fields) 8 9)
      (length (cut_object 0 11 (field 2 3 (primitive 5 6) no_fields) 8 9))
    ≡ err past_end
encode-cut_object_example =
    encode-cut_object casts cut_text 0 11 (field 2 3 (primitive 5 6) no_fields) 8 9
      ((codes "a", int64 (pos 1)) ∷ []) 9 cut_means (unfold tokens in omega arith)

-- An impression with `"bidfloor":3,"bidfloorcur":"USD"`.
abbrev cheap : Members
cheap = member (codes "id") (view (codes "1")) (
    member (codes "bidfloor") (int64 (pos 3))
      (member (codes "bidfloorcur") (view (codes "USD")) no_members))

three_value : primitive_value casts (codes "3") ≡ ok (int64 (pos 3))
unfolding primitive_value has_char as_int64
three_value = refl

three_whole : has_char b'.' (codes "3") ≡ false
unfolding has_char
three_whole = refl

three_there : map_find (codes "bidfloor") cheap ≡ some (int64 (pos 3))
unfolding map_find
three_there = refl

integer_floor_lost_example :
    ((extract_impression unset (map_of cheap)).bidfloor ≡ pos 0)
    × ((extract_impression unset (map_of cheap)).bidfloorcur ≡ [])
integer_floor_lost_example =
    integer_floor_lost unset casts (codes "3") (int64 (pos 3)) cheap three_whole three_value
      three_there

-- {"id":"r","imp":[{"id":"1","bidfloor":1.5,"bidfloorcur":"USD"}]}
abbrev request_text : Text
request_text =
    codes "{\"id\":\"r\",\"imp\":[{\"id\":\"1\",\"bidfloor\":1.5,\"bidfloorcur\":\"USD\"}]}"

abbrev request_tree : TokenTree
request_tree = object 0 64 (
    field 2 4 (string 7 8) (
      field 11 14
        (array 16 63 (
          element
            (object 17 62 (
              field 19 21 (string 24 25)
                (field 28 36 (primitive 38 41) (field 43 54 (string 57 60) no_fields))))
            no_elements))
        no_fields))

abbrev said : Said
said = record {
  id = codes "r";
  imp =
      record { id = codes "1"; banner = none; bidfloor = pos 1500000; bidfloorcur = codes "USD" }
      ∷ [];
  user = none;
  site = none;
}

request_means : meaning casts request_text request_tree ≡ ok (write_said said)
unfolding meaning primitive_value has_char as_int64 fill map_insert map_find span write_said
request_means = refl

-- A parser that knows the one text.
abbrev jsmn : Text → Option (List Token)
jsmn js = if text_eq js request_text then some (tokens request_tree) else none

extract-said_example : extract jsmn casts unset request_text ≡ extracted (request_said unset said)
extract-said_example =
    extract-said jsmn casts unset request_text request_tree said refl request_means (tt, tt)
