-- ===== src/Dsl/Encode.antt =====
-- rtb/DSL/encoders.hpp: encode, which walks the tokens of a text and fills a `boost::any`.
pub mod Trees
pub mod Rounds
pub mod Reads
pub mod Typed
pub mod Truncated
use vanilla_rtb.Base.{
  ℕ, zero, suc, ◌+◌, ◌-◌, ◌^◌, List, [], ◌∷◌, Option, none, some, Bool, true, false, ◌==◌, leb, ltb,
  if◌then◌else◌, Text, ℤ, pos, negsuc, drop,
}
use vanilla_rtb.Dsl.Values.{
  TokenType, undefined, object, array, string, primitive, Token, Any, empty, double, int64, boolean,
  view, map_of, vector_of, Members, no_members, Items, no_items, map_insert, push_back, span,
}

-- Why a walk stops: an exception; a read behind the last token of the array; `out_of_fuel`, which has
-- no counterpart in the program.
pub data Fault : Type 0 where
  bad_lexical_cast bad_any_cast past_end out_of_fuel : Fault

pub data Result (A : Type 0) : Type 0 where
  ok : A → Result A
  err : Fault → Result A

infixl 5 ◌>>=◌
abbrev pub ◌>>=◌ : {A B : Type 0} → Result A → (A → Result B) → Result B
ok a >>= f = f a
err e >>= f = err e

-- boost::lexical_cast, to the three types that are asked of it; `none` is a `bad_lexical_cast`.
pub record Casts : Type 0 where
  pub to_double : Text → Option ℤ
  pub to_int64 : Text → Option ℤ
  pub to_uint64 : Text → Option ℕ

abbrev pub cast_or : {A : Type 0} → Option A → Result A
cast_or none = err bad_lexical_cast
cast_or (some a) = ok a

-- find_first_of(c) != npos
unfoldable pub has_char : ℕ → Text → Bool
has_char c [] = false
has_char c (d ∷ s) = if d == c then true else has_char c s

-- !s.empty() && s[0] == c
abbrev pub starts_with : ℕ → Text → Bool
starts_with c [] = false
starts_with c (d ∷ s) = d == c

-- static_cast<int64_t> of a `uint64_t`
unfoldable pub as_int64 : ℕ → ℤ
as_int64 n = if ltb n (2 ^ 63) then pos n else negsuc (2 ^ 64 - n - 1)

-- size_t: the difference wraps.
unfoldable pub sub_size : ℕ → ℕ → ℕ
sub_size a b = if leb b a then a - b else 2 ^ 64 + a - b

module _ (casts : Casts) where
  -- The branch of a JSMN_PRIMITIVE.
  unfoldable pub primitive_value : Text → Result Any
  primitive_value s =
      if has_char b'.' s
      then (cast_or (casts.to_double s) >>= λ x. ok (double x))
      else if starts_with b'-' s
      then (cast_or (casts.to_int64 s) >>= λ n. ok (int64 n))
      else if starts_with b't' s
      then ok (boolean true)
      else if starts_with b'f' s
      then ok (boolean false)
      else (cast_or (casts.to_uint64 s) >>= λ n. ok (int64 (as_int64 n)))

-- any_cast<string_view>(k)
abbrev pub as_view : Any → Result Text
as_view (view s) = ok s
as_view _ = err bad_any_cast

-- `continue` where a key or a value is empty.
unfoldable pub insert_pair : Any → Any → Members → Result Members
insert_pair empty v ms = ok ms
insert_pair k empty ms = ok ms
insert_pair k v ms = as_view k >>= λ name. ok (map_insert name v ms)

unfoldable pub push_value : Any → Items → Items
push_value empty xs = xs
push_value v xs = push_back v xs

-- A call of `encode` on a pointer into the tokens: the value, and the tokens that it used.
abbrev pub Walk : Type 0
Walk = List Token → ℕ → Result (Any × ℕ)

-- The loop over the pairs of an object, `n` rounds before its end; `t` is the pointer `t + 1`.
unfoldable pub read_members : Walk → ℕ → List Token → ℕ → ℕ → Members → Result (Members × ℕ)
read_members walk zero t count j ms = ok (ms, j)
read_members walk (suc n) t count j ms = do
  (k, used) ← walk (drop j t) (sub_size count j)
  (v, used') ← walk (drop (j + used) t) (sub_size count (j + used))
  ms' ← insert_pair k v ms
  read_members walk n t count (j + used + used') ms'

-- The loop over the elements of an array.
unfoldable pub read_items : Walk → ℕ → List Token → ℕ → ℕ → Items → Result (Items × ℕ)
read_items walk zero t count j xs = ok (xs, j)
read_items walk (suc n) t count j xs = do
  (v, used) ← walk (drop j t) (sub_size count j)
  read_items walk n t count (j + used) (push_value v xs)

module _ (casts : Casts) (js : Text) where
  -- encode, behind its test of `count`.
  unfoldable pub encode_token : Walk → TokenType → Token → List Token → ℕ → Result (Any × ℕ)
  encode_token walk primitive k t count = do
    v ← primitive_value casts (span js k.start k.end)
    ok (v, 1)
  encode_token walk string k t count = ok (view (span js k.start k.end), 1)
  encode_token walk object k t count = do
    (ms, j) ← read_members walk k.size t count 0 no_members
    ok (map_of ms, j + 1)
  encode_token walk array k t count = do
    (xs, j) ← read_items walk k.size t count 0 no_items
    ok (vector_of xs, j + 1)
  encode_token walk undefined k t count = ok (empty, 0)

  -- encode, into an empty `value`. The first argument bounds the nesting of the calls.
  unfoldable pub encode : ℕ → Walk
  encode zero t count = err out_of_fuel
  encode (suc f) [] count = if count == 0 then ok (empty, 0) else err past_end
  encode (suc f) (k ∷ t) count =
      let token = encode_token (encode f) k.type k t count in
      if count == 0 then ok (empty, 0) else token
