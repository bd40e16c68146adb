-- ===== src/Selection/Maximum.antt =====
-- What the largest element is, and which ad wins.
use vanilla_rtb.Base.{
  ℕ, ◌≤◌, ◌<◌, ◌≡◌, refl, ◌≢◌, ◌⊎◌, inl, inr, Bool, true, false, List, [], ◌∷◌, arith, ltb, subst,
  sym, All, Bool-cases, is_some,
}
use vanilla_rtb.Selection.{Ad, bid_micros, bids_less, max_element, calculate_max_bid}

module _ {A : Type 0} (less : A → A → Bool) where
  max_element-nil : (m : A) → max_element less m [] ≡ m
  unfolding max_element
  max_element-nil m = refl

  max_element-replace :
      (m x : A) (xs : List A)
      → less m x ≡ true
      → max_element less m (x ∷ xs) ≡ max_element less x xs
  unfolding max_element
  max_element-replace m x xs e = rw e

  max_element-keep :
      (m x : A) (xs : List A)
      → less m x ≡ false
      → max_element less m (x ∷ xs) ≡ max_element less m xs
  unfolding max_element
  max_element-keep m x xs e = rw e

module _ {A : Type 0} (key : A → ℕ) where
  -- `r` is the first of the largest: what stands before it is smaller, and nothing is larger.
  abbrev pub FirstMax : A → List A → Type 0
  FirstMax r [] = ⊥
  FirstMax r (x ∷ xs) = ((x ≡ r) × All (λ y. key y ≤ key r) xs) ⊎ ((key x < key r) × FirstMax r xs)

  FirstMax-head : (r x : A) (xs : List A) → FirstMax r (x ∷ xs) → key x ≤ key r
  FirstMax-head r x xs (inl (e, _)) = ground arith
  FirstMax-head r x xs (inr (h, _)) = ground arith

  -- A smaller element may stand behind the first.
  FirstMax-insert :
      (r m y : A) (ys : List A) → key y ≤ key m → FirstMax r (m ∷ ys) → FirstMax r (m ∷ y ∷ ys)
  FirstMax-insert r m y ys h (inl (e, rest)) = inl (e, (ground arith, rest))
  FirstMax-insert r m y ys h (inr (lt, rest)) = inr (lt, inr (omega arith, rest))

  module _ (P : A → Type 0) (less : A → A → Bool) where
    -- Among the elements of `P` the comparison is that of the keys.
    abbrev pub ComparesBy : Type 0
    ComparesBy = (a b : A) → P a → P b → less a b ≡ ltb (key a) (key b)

    pub max_element-FirstMax :
        ComparesBy
        → (m : A) (xs : List A) → P m
        → All P xs
        → FirstMax (max_element less m xs) (m ∷ xs)
    max_element-FirstMax agree m [] p ps = rw (max_element-nil less m) (inl (refl, tt))
    max_element-FirstMax agree m (x ∷ xs) p (q, ps) = elim (Bool-cases (less m x)) [
      | inl e ↦
          let rest = max_element-FirstMax agree x xs q ps in
          subst (λ r. FirstMax r (m ∷ x ∷ xs)) (sym (max_element-replace less m x xs e))
            (inr (ground (arith, agree m x p q, FirstMax-head _ x xs rest), rest))
      | inr e ↦
          subst (λ r. FirstMax r (m ∷ x ∷ xs)) (sym (max_element-keep less m x xs e))
            (FirstMax-insert _ m x xs (ground (arith, agree m x p q))
              (max_element-FirstMax agree m xs p ps))
    ]

abbrev pub IsAuthorised : Ad → Type 0
IsAuthorised ad = is_some ad.auth_bid_micros ≡ true

abbrev pub IsUnauthorised : Ad → Type 0
IsUnauthorised ad = is_some ad.auth_bid_micros ≡ false

pub bids_less_authorised :
    (a b : Ad) → IsAuthorised a → IsAuthorised b → bids_less a b ≡ ltb (bid_micros a) (bid_micros b)
unfolding bids_less
bids_less_authorised a b p q = ground arith

bids_less_unauthorised :
    (a b : Ad)
    → IsUnauthorised a
    → IsUnauthorised b
    → bids_less a b ≡ ltb (bid_micros a) (bid_micros b)
unfolding bids_less
bids_less_unauthorised a b p q = ground arith

-- Of a nonempty list of ads that all carry an authorised bid, or of which none does, the first ad
-- with the highest bid wins.
pub calculate_max_bid-FirstMax :
    (ads : List Ad)
    → ads ≢ []
    → All IsAuthorised ads ⊎ All IsUnauthorised ads
    → FirstMax bid_micros (calculate_max_bid ads) ads
unfolding calculate_max_bid
calculate_max_bid-FirstMax [] ne h = absurd (ne refl)
calculate_max_bid-FirstMax (ad ∷ ads) ne (inl h) =
    max_element-FirstMax bid_micros IsAuthorised bids_less bids_less_authorised ad ads h.0 h.1
calculate_max_bid-FirstMax (ad ∷ ads) ne (inr h) =
    max_element-FirstMax bid_micros IsUnauthorised bids_less bids_less_unauthorised ad ads h.0 h.1
