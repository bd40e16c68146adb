-- ===== src/Dsl/Extract/Floors.antt =====
-- A bid floor that a text writes without a decimal point.
use vanilla_rtb.Base.{◌≡◌, false, none, some, Text, codes, pos, [], arith}
use vanilla_rtb.Dsl.Values.{Any, map_of, Members, map_find}
use vanilla_rtb.Dsl.Encode.{ok, Casts, has_char, primitive_value}
use vanilla_rtb.Dsl.Blank.{Unset}
use vanilla_rtb.Dsl.Extract.{any_double, member_at, extract_impression}

-- Such a primitive is no `double`.
no_point :
    (casts : Casts) (s : Text) (a : Any)
    → has_char b'.' s ≡ false
    → primitive_value casts s ≡ ok a
    → any_double a ≡ none
unfolding primitive_value
no_point casts s a whole h = ground arith

module _ (u : Unset) where
  lost :
      (m : Members)
      → any_double (member_at (codes "bidfloor") m) ≡ none
      → ((extract_impression u (map_of m)).bidfloor ≡ pos 0)
        × ((extract_impression u (map_of m)).bidfloorcur ≡ [])
  unfolding extract_impression
  lost m h = (ground arith, ground arith)

  -- Where the `bidfloor` of an impression is written without a decimal point, whatever the other members
  -- are, the impression comes out with a floor of 0 and with no currency.
  pub integer_floor_lost :
      (casts : Casts) (s : Text) (a : Any) (m : Members)
      → has_char b'.' s ≡ false
      → primitive_value casts s ≡ ok a
      → map_find (codes "bidfloor") m ≡ some a
      → ((extract_impression u (map_of m)).bidfloor ≡ pos 0)
        × ((extract_impression u (map_of m)).bidfloorcur ≡ [])
  unfolding member_at
  integer_floor_lost casts s a m whole value there =
      lost m (rw (there, member_at) (no_point casts s a whole value))
