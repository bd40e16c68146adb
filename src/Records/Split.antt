-- ===== src/Records/Split.antt =====
-- What split_string makes of fields that were joined.
use mathlib.Core.List.{append_assoc, append-nil}
use vanilla_rtb.Base.{
  ℕ, ◌≡◌, ◌≢◌, refl, sym, ap, ◌∙◌, true, false, List, [], ◌∷◌, ◌++◌, map, some, Text, ◌==◌, All,
}
use vanilla_rtb.Records.{View, is_any_of, split_from, split_string}

-- The texts of the fields.
abbrev pub texts : List View → List Text
texts fields = map (λ (f : View). f.text) fields

module _ (delims : Text) where
  -- A character that neither separates fields nor ends a C string.
  abbrev pub IsPlain : ℕ → Type 0
  IsPlain c = ((c == 0) ≡ false) × (is_any_of delims c ≡ false)

  abbrev pub IsDelimiter : ℕ → Type 0
  IsDelimiter c = ((c == 0) ≡ false) × (is_any_of delims c ≡ true)

  -- Fields of plain characters of which the first and the last are not empty.
  abbrev pub EndsFilled : List Text → Type 0
  EndsFilled [] = ⊥
  EndsFilled (f ∷ []) = f ≢ []
  EndsFilled (f ∷ g ∷ fs) = EndsFilled (g ∷ fs)

  split_from-plain :
      (passed : Text) (c : ℕ) (cs : Text)
      → IsPlain c
      → split_from delims passed (c ∷ cs) ≡ split_from delims (passed ++ c ∷ []) cs
  unfolding split_from
  split_from-plain passed c cs (z, d) = rw (z, d) refl

  split_from-delimiter :
      (passed : Text) (c : ℕ) (cs : Text)
      → IsDelimiter c
      → texts (split_from delims passed (c ∷ cs)) ≡ passed ∷ texts (split_from delims [] cs)
  unfolding split_from
  split_from-delimiter passed c cs (z, d) = rw (z, d) refl

  split_from-field :
      (f passed rest : Text)
      → All IsPlain f
      → split_from delims passed (f ++ rest) ≡ split_from delims (passed ++ f) rest
  split_from-field [] passed rest ok = ap (λ p. split_from delims p rest) (sym (append-nil passed))
  split_from-field (c ∷ f) passed rest (p, ok) =
      split_from-plain passed c (f ++ rest) p
      ∙ split_from-field f (passed ++ c ∷ []) rest ok
      ∙ ap (λ q. split_from delims q rest) (append_assoc passed (c ∷ []) f)

  split_from-nil : (passed : Text) → passed ≢ [] → texts (split_from delims passed []) ≡ passed ∷ []
  unfolding split_from
  split_from-nil [] ne = absurd (ne refl)
  split_from-nil (c ∷ cs) ne = refl

  module _ (tab : ℕ) where
    abbrev pub join : List Text → Text
    join [] = []
    join (f ∷ []) = f
    join (f ∷ g ∷ fs) = f ++ tab ∷ join (g ∷ fs)

    split_from-join :
        (f passed : Text) (fs : List Text)
        → IsDelimiter tab
        → All (All IsPlain) (f ∷ fs)
        → EndsFilled ((passed ++ f) ∷ fs)
        → texts (split_from delims passed (join (f ∷ fs))) ≡ (passed ++ f) ∷ fs
    split_from-join f passed [] t (ok, _) ends =
        ap (λ x. texts (split_from delims passed x)) (sym (append-nil f))
        ∙ ap texts (split_from-field f passed [] ok)
        ∙ split_from-nil (passed ++ f) ends
    split_from-join f passed (g ∷ fs) t (ok, oks) ends =
        ap texts (split_from-field f passed (tab ∷ join (g ∷ fs)) ok)
        ∙ split_from-delimiter (passed ++ f) tab (join (g ∷ fs)) t
        ∙ ap (λ gs. (passed ++ f) ∷ gs) (split_from-join g [] fs t oks ends)

    join-cons : (c : ℕ) (f : Text) (fs : List Text) → join ((c ∷ f) ∷ fs) ≡ c ∷ join (f ∷ fs)
    join-cons c f [] = refl
    join-cons c f (g ∷ fs) = refl

    split_string-cons :
        (c : ℕ) (cs : Text) → split_string delims (c ∷ cs) ≡ some (split_from delims (c ∷ []) cs)
    unfolding split_string
    split_string-cons c cs = refl

    -- Fields of plain characters that a separator has joined are found again, empty ones among them
    -- too, if the first and the last are not empty.
    pub split_string-join :
        (f : Text) (fs : List Text)
        → IsDelimiter tab
        → f ≢ []
        → All (All IsPlain) (f ∷ fs)
        → EndsFilled (f ∷ fs)
        → (fields : List View) × (split_string delims (join (f ∷ fs)) ≡ some fields)
          × (texts fields ≡ f ∷ fs)
    split_string-join [] fs t filled ok ends = absurd (filled refl)
    split_string-join (c ∷ f) fs t filled ((p, ok), oks) ends = (
      split_from delims (c ∷ []) (join (f ∷ fs)),
      ap (split_string delims) (join-cons c f fs) ∙ split_string-cons c (join (f ∷ fs)),
      split_from-join f (c ∷ []) fs t (ok, oks) ends,
    )
