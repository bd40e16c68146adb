-- ===== src/Records/Places/Lines.antt =====
-- What the readers make of a line that was written field by field.
use native.Mathlib.Numerals.{unary_clauses}
use vanilla_rtb.Base.{
  ℕ, zero, suc, ◌+◌, ◌*◌, ◌/◌, ◌%◌, ◌^◌, ◌<◌, ◌≤◌, ◌≡◌, ◌≢◌, refl, sym, ap, ◌∙◌, false, List, [],
  ◌∷◌, some, Text, All, ◌==◌, Bool-cases, inl, inr, arith, to_string, to_string-All, decimal_onto,
}
use vanilla_rtb.Targeting.{Geo}
use vanilla_rtb.Cache.Ico.{Domain}
use vanilla_rtb.Records.{value}
use vanilla_rtb.Records.Split.{IsPlain, join}
use vanilla_rtb.Records.Readers.{tab_only, to_string-filled, number-IsPlain}
use vanilla_rtb.Records.Places.{
  digits_onto, as_uint32, atol, geo_fields, read_geo, domain_fields, read_domain,
}

digits_onto-digit :
    (n d : ℕ) (rest : Text)
    → d < 10
    → digits_onto n ((48 + d) ∷ rest) ≡ digits_onto (n * 10 + d) rest
unfolding digits_onto
digits_onto-digit n d rest h = ground arith

tenth : (f n : ℕ) → n < 10 ^ suc (suc f) → n / 10 < 10 ^ suc f
tenth f n h = omega (arith, simp unary_clauses at h)

-- The digits of a number are read back.
digits_onto-decimal :
    (f n : ℕ) (rest : Text)
    → n < 10 ^ suc f
    → digits_onto 0 (decimal_onto f n rest) ≡ digits_onto n rest
unfolding decimal_onto
digits_onto-decimal zero n rest h =
    digits_onto-digit 0 (n % 10) rest (omega arith) ∙ ap (λ m. digits_onto m rest) (omega arith)
digits_onto-decimal (suc f) n rest h = elim (Bool-cases (n / 10 == 0)) [
  | inl e ↦ rw e (
      digits_onto-digit 0 (n % 10) rest (omega arith)
      ∙ ap (λ m. digits_onto m rest) (ground (arith, e)))
  | inr e ↦ rw e (
      digits_onto-decimal f (n / 10) ((48 + n % 10) ∷ rest) (tenth f n h)
      ∙ digits_onto-digit (n / 10) (n % 10) rest (omega arith)
      ∙ ap (λ m. digits_onto m rest) (omega arith))
]

atol-digit :
    (c : ℕ) (cs : Text)
    → (48 ≤ c) × (c < 58)
    → atol (c ∷ cs) ≡ as_uint32 false (digits_onto 0 (c ∷ cs))
unfolding atol
atol-digit c cs (low, high) = ground arith

atol-to_string : (n : ℕ) → n < 2 ^ 32 → atol (to_string n) ≡ some n
unfolding to_string digits_onto
atol-to_string n h =
    let (c, cs, same, all) =
      to_string-All (λ c. (48 ≤ c) × (c < 58)) (λ d small. (omega arith, omega arith)) n in
    let read : digits_onto 0 (to_string n) ≡ n = digits_onto-decimal 19 n [] (omega arith) in
    ap atol same
    ∙ atol-digit c cs all.0
    ∙ ap (λ t. as_uint32 false (digits_onto 0 t)) (sym same)
    ∙ ap (as_uint32 false) read
    ∙ ground arith

-- Fields that a tab can stand between.
abbrev pub IsField : Text → Type 0
IsField t = (t ≢ []) × All (IsPlain tab_only) t

-- boost::split gives back fields that were joined.
pub record IsSplit (split : Text → List Text) : Type 0 where
  pub split-join :
      (f : Text) (fs : List Text)
      → All IsField (f ∷ fs)
      → split (join tab_only b'\t' (f ∷ fs)) ≡ f ∷ fs

number-IsField : (n : ℕ) → IsField (to_string n)
number-IsField n = (to_string-filled n, number-IsPlain n)

-- The lines of a place and of a domain.
abbrev pub geo_line : ℕ → Text → Text → Text
geo_line id city country = join tab_only b'\t' (to_string id ∷ city ∷ country ∷ [])

abbrev pub domain_line : Text → ℕ → Text
domain_line name id = join tab_only b'\t' (name ∷ to_string id ∷ [])

module _ (split : Text → List Text) (law : IsSplit split) where
  -- If boost::split gives back fields that were joined: the line of a place, its number below 2 ^ 32 and
  -- its names not empty and without tabs and null characters, is read as that place, whatever was read before.
  pub read_geo-line :
      (id : ℕ) (city country : Text) (old : Geo)
      → id < 2 ^ 32
      → IsField city
      → IsField country
      → read_geo split (geo_line id city country) old
        ≡ value (record {
          geo_id = id;
          city = city;
          country = country;
          line = geo_line id city country;
        })
  unfolding read_geo geo_fields
  read_geo-line id city country old h named in_ =
      rw
        (
          law.split-join (to_string id) (city ∷ country ∷ [])
              (number-IsField id, (named, (in_, tt))),
          geo_fields,
          atol-to_string id h,
        )
        refl

  -- The line of a domain is read as that domain, under the same conditions.
  pub read_domain-line :
      (name : Text) (id : ℕ) (old : Domain)
      → id < 2 ^ 32
      → IsField name
      → read_domain split (domain_line name id) old ≡ value (record { name = name; dom_id = id })
  unfolding read_domain domain_fields
  read_domain-line name id old h named =
      rw
        (
          law.split-join name (to_string id ∷ []) (named, (number-IsField id, tt)),
          domain_fields,
          atol-to_string id h,
        )
        refl
