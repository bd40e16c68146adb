-- ===== src/Dsl/Mapper.antt =====
-- rtb/DSL/any_mapper.hpp, and GenericDSL of rtb/DSL/generic_dsl.hpp over it: a text becomes a request.
use vanilla_rtb.Base.{
  suc, ◌≡◌, refl, ap, ◌∙◌, List, Option, none, some, Text, length, All, arith, ℕ, sym, [],
}
use vanilla_rtb.OpenRtb.{BidRequest}
use vanilla_rtb.Dsl.Values.{Token, Any}
use vanilla_rtb.Dsl.Encode.{Fault, ok, err, ◌>>=◌, Casts, encode}
use vanilla_rtb.Dsl.Encode.Trees.{TokenTree, tokens, meaning}
use vanilla_rtb.Dsl.Encode.Reads.{encode-tokens}
use vanilla_rtb.Dsl.Blank.{Unset}
use vanilla_rtb.Dsl.Extract.{extract_request}
use vanilla_rtb.Dsl.Extract.Written.{Said, Fits, write_said, request_said, extract-write}
use mathlib.Core.List.{append-nil}

-- How `extract` ends: with a request, by the runtime_error for a text that jsmn refuses, or as the walk
-- does.
pub data Extracted : Type 0 where
  extracted : BidRequest → Extracted
  parse_exception : Extracted
  failed : Fault → Extracted

-- jsmn_parse answers the tokens of a text, or fails: `toknext` is their number, and what stands behind
-- them in the array has no value. The nesting of the calls is bounded by their number.
module _ (jsmn_parse : Text → Option (List Token)) (casts : Casts) (u : Unset) where
  -- any_mapper::extract, from a cleared `encoded`.
  unfoldable pub extract : Text → Extracted
  extract js = elim (jsmn_parse js) [
    | none ↦ parse_exception
    | some ts ↦ elim (encode casts js (suc (length ts)) ts (length ts)) [
      | ok (value, used) ↦ extracted (extract_request u value)
      | err e ↦ failed e
    ]
  ]

  extract-encode :
      (js : Text) (ts : List Token) (value : Any) {used : ℕ}
      → jsmn_parse js ≡ some ts
      → encode casts js (suc (length ts)) ts (length ts) ≡ ok (value, used)
      → extract js ≡ extracted (extract_request u value)
  unfolding extract
  extract-encode js ts value parsed read = rw (parsed, extract) (rw read refl)

  -- A text whose tokens are those of a tree that says `s` is read as the request that says `s`.
  pub extract-said :
      (js : Text) (v : TokenTree) (s : Said)
      → jsmn_parse js ≡ some (tokens v)
      → meaning casts js v ≡ ok (write_said s)
      → All Fits s.imp
      → extract js ≡ extracted (request_said u s)
  extract-said js v s parsed says fits =
      extract-encode js (tokens v) (write_said s) parsed (
        ap (λ ts. encode casts js (suc (length (tokens v))) ts (length (tokens v)))
          (sym (append-nil (tokens v)))
        ∙ encode-tokens casts js v [] (suc (length (tokens v))) (length (tokens v)) (omega arith)
            (omega arith)
        ∙ ap (λ m. m >>= λ a. ok (a, length (tokens v))) says)
      ∙ ap extracted (extract-write u s fits)
