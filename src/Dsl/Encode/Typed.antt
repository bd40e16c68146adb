-- ===== src/Dsl/Encode/Typed.antt =====
-- What the walk gives on any tokens at all, of a well-formed text or not.
use vanilla_rtb.Base.{
  ℕ, zero, suc, ◌+◌, ◌^◌, ◌≤◌, ◌<◌, ◌≡◌, ◌≢◌, refl, sym, List, [], ◌∷◌, Bool, true, false, Option,
  none, some, Text, ℤ, pos, negsuc, length, length-drop, drop, ltb, ◌==◌, if◌then◌else◌, arith,
  Option-cases, Bool-cases, inl, inr, text_eq, text_eq_iff,
}
use vanilla_rtb.Dsl.Values.{
  TokenType, undefined, object, array, string, primitive, Token, Any, empty, double, int64, boolean,
  view, map_of, vector_of, Members, no_members, member, Items, no_items, item, map_find, add_last,
  map_insert, push_back, span,
}
use vanilla_rtb.Dsl.Encode.{
  out_of_fuel, Result, ok, err, ◌>>=◌, Casts, cast_or, as_int64, has_char, starts_with,
  primitive_value, insert_pair, push_value, Walk, read_members, read_items, encode_token, encode,
  sub_size,
}

abbrev pub InInt64 : ℤ → Type 0
InInt64 (pos n) = n < 2 ^ 63
InInt64 (negsuc n) = n < 2 ^ 63

-- The conversions keep to the types that they are asked for.
pub record IsCasts (casts : Casts) : Type 0 where
  pub int64_range : (s : Text) (n : ℤ) → casts.to_int64 s ≡ some n → InInt64 n
  pub uint64_range : (s : Text) (n : ℕ) → casts.to_uint64 s ≡ some n → n < 2 ^ 64

-- Every `int64_t` is in range, and no map has a name twice.
unfoldable mutual
  pub IsTyped : Any → Type 0
  IsTyped empty = Unit
  IsTyped (double x) = Unit
  IsTyped (int64 n) = InInt64 n
  IsTyped (boolean b) = Unit
  IsTyped (view s) = Unit
  IsTyped (map_of ms) = AreTypedMembers ms
  IsTyped (vector_of xs) = AreTypedItems xs

  pub AreTypedMembers : Members → Type 0
  AreTypedMembers no_members = Unit
  AreTypedMembers (member name v ms) = (map_find name ms ≡ none) × IsTyped v × AreTypedMembers ms

  pub AreTypedItems : Items → Type 0
  AreTypedItems no_items = Unit
  AreTypedItems (item v xs) = IsTyped v × AreTypedItems xs

find-add_last :
    (j name : Text) (v : Any) (ms : Members)
    → map_find j ms ≡ none
    → text_eq j name ≡ false
    → map_find j (add_last name v ms) ≡ none
unfolding map_find
find-add_last j name v no_members h ne = rw ne refl
find-add_last j name v (member k w ms) h ne = elim (Bool-cases (text_eq j k)) [
  | inl e ↦ let found = rw e at h in cc
  | inr e ↦ rw e (find-add_last j name v ms (rw e at h) ne)
]

text_eq_flip : (s t : Text) → text_eq s t ≡ false → text_eq t s ≡ false
text_eq_flip s t h = elim (Bool-cases (text_eq t s)) [
  | inl e ↦ let same = (text_eq_iff s t).1 (sym ((text_eq_iff t s).0 e)) in cc
  | inr e ↦ e
]

add_last-AreTyped :
    (name : Text) (v : Any) (ms : Members)
    → map_find name ms ≡ none
    → IsTyped v
    → AreTypedMembers ms
    → AreTypedMembers (add_last name v ms)
unfolding IsTyped map_find
add_last-AreTyped name v no_members free typed all = (refl, typed, tt)
add_last-AreTyped name v (member k w ms) free typed all = elim (Bool-cases (text_eq name k)) [
  | inl e ↦ let found = rw e at free in cc
  | inr e ↦ (
    find-add_last k name v ms all.0 (text_eq_flip name k e),
    all.1,
    add_last-AreTyped name v ms (rw e at free) typed all.2,
  )
]

insert-AreTyped :
    (name : Text) (v : Any) (ms : Members)
    → IsTyped v
    → AreTypedMembers ms
    → AreTypedMembers (map_insert name v ms)
unfolding map_insert
insert-AreTyped name v ms typed all = elim (Option-cases (map_find name ms)) [
  | inl free ↦ rw (free, map_insert) (add_last-AreTyped name v ms free typed all)
  | inr (w, taken) ↦ rw (taken, map_insert) all
]

push_back-AreTyped :
    (v : Any) (xs : Items) → IsTyped v → AreTypedItems xs → AreTypedItems (push_back v xs)
unfolding IsTyped push_back
push_back-AreTyped v no_items typed all = (typed, tt)
push_back-AreTyped v (item w xs) typed all = (all.0, push_back-AreTyped v xs typed all.1)

push_value-AreTyped :
    (v : Any) (xs : Items) → IsTyped v → AreTypedItems xs → AreTypedItems (push_value v xs)
unfolding push_value
push_value-AreTyped empty xs typed all = all
push_value-AreTyped v xs typed all = push_back-AreTyped v xs typed all

-- The run ends: `P` holds of what it returns, or it stops for a reason that the program has.
abbrev pub Ends : {A : Type 0} → (A → Type 0) → Result A → Type 0
Ends P (ok a) = P a
Ends P (err e) = e ≢ out_of_fuel

Ends-bind :
    {A B : Type 0} (P : A → Type 0) (Q : B → Type 0) (m : Result A) (g : A → Result B)
    → Ends P m
    → ((a : A) → P a → Ends Q (g a))
    → Ends Q (m >>= g)
Ends-bind P Q (ok a) g h k = k a h
Ends-bind P Q (err e) g h k = h

Ends-if :
    {A : Type 0} (P : A → Type 0) (b : Bool) (x y : Result A)
    → Ends P x
    → Ends P y
    → Ends P (if b then x else y)
Ends-if P true x y hx hy = hx
Ends-if P false x y hx hy = hy

cast_or-Ends :
    {A : Type 0} (P : A → Type 0) (o : Option A) → ((a : A) → o ≡ some a → P a) → Ends P (cast_or o)
cast_or-Ends P none h = λ e. cc
cast_or-Ends P (some a) h = h a refl

insert_pair-Ends :
    (k v : Any) (ms : Members)
    → IsTyped v
    → AreTypedMembers ms
    → Ends AreTypedMembers (insert_pair k v ms)
unfolding insert_pair
insert_pair-Ends empty v ms typed all = all
insert_pair-Ends (view s) empty ms typed all = all
insert_pair-Ends (view s) v ms typed all = insert-AreTyped s v ms typed all
insert_pair-Ends _ empty ms typed all = all
insert_pair-Ends _ v ms typed all = λ e. cc

empty-IsTyped : IsTyped empty
unfolding IsTyped
empty-IsTyped = tt

as_int64-InInt64 : (n : ℕ) → n < 2 ^ 64 → InInt64 (as_int64 n)
unfolding as_int64
as_int64-InInt64 n h = elim (Bool-cases (ltb n (2 ^ 63))) [
  | inl e ↦ rw e (ground arith)
  | inr e ↦ rw e (ground arith)
]

abbrev Good : ℕ → Any × ℕ → Type 0
Good n r = IsTyped r.0 × (r.1 ≤ n)

-- The loops, over a walk that is good below `t`.
module _ (walk : Walk) (t : List Token) (count : ℕ)
    (good : (j c : ℕ) → Ends (Good (length (drop j t))) (walk (drop j t) c)) where
  read_items-Ends :
      (n j : ℕ) (xs : Items)
      → j ≤ length t
      → AreTypedItems xs
      → Ends (λ r. AreTypedItems r.0 × (r.1 ≤ length t)) (read_items walk n t count j xs)
  unfolding read_items
  read_items-Ends zero j xs h all = (all, h)
  read_items-Ends (suc n) j xs h all =
      Ends-bind (Good (length (drop j t))) _ (walk (drop j t) (sub_size count j)) _
        (good j (sub_size count j))
        (λ r ok_.
          read_items-Ends n (j + r.1) (push_value r.0 xs) (omega (arith, length-drop j t))
            (push_value-AreTyped r.0 xs ok_.0 all))

  read_members-Ends :
      (n j : ℕ) (ms : Members)
      → j ≤ length t
      → AreTypedMembers ms
      → Ends (λ r. AreTypedMembers r.0 × (r.1 ≤ length t)) (read_members walk n t count j ms)
  unfolding read_members
  read_members-Ends zero j ms h all = (all, h)
  read_members-Ends (suc n) j ms h all =
      Ends-bind (Good (length (drop j t))) _ (walk (drop j t) (sub_size count j)) _
        (good j (sub_size count j))
        (λ k okk.
          Ends-bind (Good (length (drop (j + k.1) t))) _
            (walk (drop (j + k.1) t) (sub_size count (j + k.1))) _
            (good (j + k.1) (sub_size count (j + k.1)))
            (λ v okv.
              Ends-bind AreTypedMembers _ (insert_pair k.0 v.0 ms) _
                (insert_pair-Ends k.0 v.0 ms okv.0 all)
                (λ ms' typed.
                  read_members-Ends n (j + k.1 + v.1) ms'
                    (omega (arith, length-drop j t, length-drop (j + k.1) t)) typed)))

module _ (casts : Casts) (law : IsCasts casts) (js : Text) where
  primitive_value-Ends : (s : Text) → Ends IsTyped (primitive_value casts s)
  unfolding primitive_value IsTyped
  primitive_value-Ends s =
      Ends-if IsTyped (has_char b'.' s) _ _
        (Ends-bind (λ _. Unit {0}) IsTyped (cast_or (casts.to_double s)) _
          (cast_or-Ends _ (casts.to_double s) (λ _ _. tt)) (λ _ _. tt))
        (Ends-if IsTyped (starts_with b'-' s) _ _
          (Ends-bind InInt64 IsTyped (cast_or (casts.to_int64 s)) _
            (cast_or-Ends InInt64 (casts.to_int64 s) (law.int64_range s)) (λ _ h. h))
          (Ends-if IsTyped (starts_with b't' s) _ _ tt (
            Ends-if IsTyped (starts_with b'f' s) _ _ tt (
              Ends-bind (λ n. n < 2 ^ 64) IsTyped (cast_or (casts.to_uint64 s)) _
                (cast_or-Ends _ (casts.to_uint64 s) (law.uint64_range s)) as_int64-InInt64))))

  encode_token-Ends :
      (walk : Walk) (type : TokenType) (k : Token) (t : List Token) (count : ℕ)
      → ((j c : ℕ) → Ends (Good (length (drop j t))) (walk (drop j t) c))
      → Ends (Good (suc (length t))) (encode_token casts js walk type k t count)
  unfolding encode_token IsTyped
  encode_token-Ends walk primitive k t count good =
      Ends-bind IsTyped _ (primitive_value casts (span js k.start k.end)) _
        (primitive_value-Ends (span js k.start k.end)) (λ v typed. (typed, omega arith))
  encode_token-Ends walk string k t count good = (tt, omega arith)
  encode_token-Ends walk object k t count good =
      Ends-bind _ _ (read_members walk k.size t count 0 no_members) _
        (read_members-Ends walk t count good k.size 0 no_members (omega arith) tt)
        (λ r h. (h.0, omega arith))
  encode_token-Ends walk array k t count good =
      Ends-bind _ _ (read_items walk k.size t count 0 no_items) _
        (read_items-Ends walk t count good k.size 0 no_items (omega arith) tt)
        (λ r h. (h.0, omega arith))
  encode_token-Ends walk undefined k t count good = (tt, omega arith)

  -- Whatever the tokens are, the walk ends when its calls may nest deeper than there are tokens: it
  -- throws, or it reads behind the tokens, or it returns a value in which every `int64_t` is in range
  -- and no map has a name twice, having used no more tokens than there are.
  pub encode-Ends :
      (f : ℕ) (t : List Token) (count : ℕ)
      → length t < f
      → Ends (λ r. IsTyped r.0 × (r.1 ≤ length t)) (encode casts js f t count)
  unfolding encode
  encode-Ends zero t count h = elim h [ ]
  encode-Ends (suc f) [] count h = Ends-if _ (count == 0) _ _ (empty-IsTyped, omega arith) (λ e. cc)
  encode-Ends (suc f) (k ∷ t) count h =
      Ends-if _ (count == 0) _ _ (empty-IsTyped, omega arith)
        (encode_token-Ends (encode casts js f) k.type k t count
          (λ j c. encode-Ends f (drop j t) c (omega (arith, length-drop j t))))
