-- ===== src/Dsl/Encode/Rounds.antt =====
-- One round of each loop of the walk, and what is left of the tokens behind it.

use vanilla_rtb.Base.{
  ℕ, suc, ◌+◌, ◌≤◌, ◌≡◌, refl, ap, ◌∙◌, List, [], ◌∷◌, ◌++◌, Bool, true, false, Text, length,
  drop-add, drop-append_exact, drop, arith,
}
use vanilla_rtb.Dsl.Values.{Token, Any, empty, view, Members, Items, no_items, item, push_back}
use vanilla_rtb.Dsl.Encode.{
  Result, ok, err, ◌>>=◌, sub_size, Walk, read_members, read_items, insert_pair, push_value,
}
use vanilla_rtb.Dsl.Encode.Trees.{TokenTree, primitive, string, object, array, tokens, Named, fill}

-- What is left behind a first part.
pub drop-rest {ℓ} :
    {A : Type ℓ} (j : ℕ) (t xs ys : List A) → drop j t ≡ xs ++ ys → drop (j + length xs) t ≡ ys
drop-rest j t xs ys e = drop-add j (length xs) t ∙ ap (drop (length xs)) e ∙ drop-append_exact xs ys

abbrev pub is_nothing : Any → Bool
is_nothing empty = true
is_nothing _ = false

abbrev pub Full : Result Any → Type 0
Full (ok a) = is_nothing a ≡ false
Full (err e) = Unit

pub Full-bind :
    {A : Type 0} (m : Result A) (g : A → Any)
    → ((a : A) → is_nothing (g a) ≡ false)
    → Full (m >>= λ a. ok (g a))
Full-bind (ok a) g full = full a
Full-bind (err e) g full = tt

pub Full-ok : (m : Result Any) (a : Any) → Full m → m ≡ ok a → is_nothing a ≡ false
Full-ok (ok b) a full e = cc
Full-ok (err f) a full e = cc

pub push_value-full :
    (a : Any) (xs : Items) → is_nothing a ≡ false → push_value a xs ≡ push_back a xs
unfolding push_value
push_value-full empty xs h = cc
push_value-full _ xs h = refl

pub insert_pair-full :
    (name : Text) (a : Any) (ms : Members)
    → is_nothing a ≡ false
    → insert_pair (view name) a ms ≡ ok (fill ((name, a) ∷ []) ms)
unfolding insert_pair fill
insert_pair-full name empty ms h = cc
insert_pair-full name _ ms h = refl

unfoldable pub append_items : Items → Items → Items
append_items no_items ys = ys
append_items (item a xs) ys = item a (append_items xs ys)

pub append-push_back :
    (xs : Items) (a : Any) (ys : Items)
    → append_items (push_back a xs) ys ≡ append_items xs (item a ys)
unfolding append_items push_back
append-push_back no_items a ys = refl
append-push_back (item b xs) a ys = ap (item b) (append-push_back xs a ys)

pub append-no_items : (xs : Items) → append_items xs no_items ≡ xs
unfolding append_items
append-no_items no_items = refl
append-no_items (item a xs) = ap (item a) (append-no_items xs)

pub sub_size-le : (a b : ℕ) → b ≤ a → b + sub_size a b ≡ a
unfolding sub_size
sub_size-le a b h = ground arith

module _ (walk : Walk) (t : List Token) (count : ℕ) where
  pub items_done : (j : ℕ) (xs : Items) → read_items walk 0 t count j xs ≡ ok (xs, j)
  unfolding read_items
  items_done j xs = refl

  pub members_done : (j : ℕ) (ms : Members) → read_members walk 0 t count j ms ≡ ok (ms, j)
  unfolding read_members
  members_done j ms = refl

  -- A round of the loop over an array, behind a child that uses `used` tokens.
  pub items_round :
      (n j used : ℕ) (xs : Items) (m : Result Any) (r : Any → Result (Items × ℕ))
      → walk (drop j t) (sub_size count j) ≡ (m >>= λ a. ok (a, used))
      → ((a : Any) → m ≡ ok a → read_items walk n t count (j + used) (push_value a xs) ≡ r a)
      → read_items walk (suc n) t count j xs ≡ (m >>= r)
  unfolding read_items
  items_round n j used xs (ok a) r child rest = rw child (rest a refl)
  items_round n j used xs (err e) r child rest = rw child refl

  -- A round of the loop over an object, behind a key of one token.
  pub members_round :
      (n j used : ℕ) (name : Text) (ms : Members) (m : Result Any) (r : Any → Result (Members × ℕ))
      → walk (drop j t) (sub_size count j) ≡ ok (view name, 1)
      → walk (drop (j + 1) t) (sub_size count (j + 1)) ≡ (m >>= λ a. ok (a, used))
      → ((a : Any)
          → m ≡ ok a
          → (insert_pair (view name) a ms >>= read_members walk n t count (j + 1 + used)) ≡ r a)
      → read_members walk (suc n) t count j ms ≡ (m >>= r)
  unfolding read_members
  members_round n j used name ms (ok a) r key child rest = rw key (rw child (rest a refl))
  members_round n j used name ms (err e) r key child rest = rw key (rw child refl)

pub tokens_pos : (v : TokenTree) → 1 ≤ length (tokens v)
unfolding tokens
tokens_pos (primitive s e) = omega arith
tokens_pos (string s e) = omega arith
tokens_pos (object s e fs) = omega arith
tokens_pos (array s e vs) = omega arith

pub regroup_items :
    {B : Type 0} (m : Result Any) (m' : Result Items) (g : Items → Result B)
    → ((m >>= λ a. m' >>= λ ys. ok (item a ys)) >>= g) ≡ (m >>= λ a. m' >>= λ ys. g (item a ys))
regroup_items (ok a) (ok ys) g = refl
regroup_items (ok a) (err x) g = refl
regroup_items (err x) m' g = refl

pub regroup_named :
    {B : Type 0} (m : Result Any) (m' : Result Named) (name : Text) (g : Named → Result B)
    → ((m >>= λ a. m' >>= λ named. ok ((name, a) ∷ named)) >>= g)
      ≡ (m >>= λ a. m' >>= λ named. g ((name, a) ∷ named))
regroup_named (ok a) (ok named) name g = refl
regroup_named (ok a) (err x) name g = refl
regroup_named (err x) m' name g = refl
