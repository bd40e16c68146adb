-- ===== src/Dsl/Encode/Reads.antt =====
-- The walk over the tokens of a well-formed text: it uses them all, and fills in the text's value.
use mathlib.Core.List.{append_assoc}
use vanilla_rtb.Base.{
  ℕ, zero, suc, ◌+◌, ◌≤◌, ◌≡◌, refl, sym, ap, fun_ext, ◌∙◌, List, [], ◌∷◌, ◌++◌, Text, length,
  length-append, drop, ==_ne, arith,
}
use vanilla_rtb.Dsl.Values.{
  TokenType, Token, Any, view, map_of, vector_of, Members, no_members, Items, no_items, item,
  push_back, map_insert, span, double, int64,
}
use vanilla_rtb.Dsl.Encode.{
  Result, ok, err, ◌>>=◌, Casts, primitive_value, cast_or, sub_size, Walk, read_members, read_items,
  encode_token, encode, as_int64,
}
use vanilla_rtb.Dsl.Encode.Trees.{
  TokenTree, primitive, string, object, array, TreeFields, no_fields, field, TreeElements,
  no_elements, element, count_fields, count_elements, tokens, field_tokens, element_tokens, token,
  Named, fill, meaning, meaning_fields, meaning_elements,
}
use vanilla_rtb.Dsl.Encode.Rounds.{
  drop-rest, Full, Full-bind, Full-ok, push_value-full, insert_pair-full, append_items,
  append-push_back, append-no_items, sub_size-le, items_done, members_done, items_round,
  members_round, tokens_pos, regroup_items, regroup_named,
}

-- The call of the walk at a node of the tree, and the rest of the loop at its later siblings.
module _ (casts : Casts) (js : Text) where
  abbrev ReadsTree : TokenTree → Type 0
  ReadsTree v =
      (rest : List Token) (f count : ℕ)
      → length (tokens v) ≤ count
      → length (tokens v) ≤ f
      → encode casts js f (tokens v ++ rest) count
        ≡ (meaning casts js v >>= λ a. ok (a, length (tokens v)))

  abbrev ReadsElements : TreeElements → Type 0
  ReadsElements vs =
      (rest t : List Token) (f count j : ℕ) (xs : Items)
      → drop j t ≡ element_tokens vs ++ rest
      → j + length (element_tokens vs) ≤ count
      → length (element_tokens vs) ≤ f
      → read_items (encode casts js f) (count_elements vs) t count j xs ≡ (
          meaning_elements casts js vs >>= λ ys.
          ok (append_items xs ys, j + length (element_tokens vs)))

  abbrev ReadsFields : TreeFields → Type 0
  ReadsFields fs =
      (rest t : List Token) (f count j : ℕ) (ms : Members)
      → drop j t ≡ field_tokens fs ++ rest
      → j + length (field_tokens fs) ≤ count
      → length (field_tokens fs) ≤ f
      → read_members (encode casts js f) (count_fields fs) t count j ms
        ≡ (meaning_fields casts js fs >>= λ named. ok (fill named ms, j + length (field_tokens fs)))

  primitive_value-Full : (s : Text) → Full (primitive_value casts s)
  unfolding primitive_value
  primitive_value-Full s = ground (
    arith,
    Full-bind (cast_or (casts.to_double s)) double (λ _. refl),
    Full-bind (cast_or (casts.to_int64 s)) int64 (λ _. refl),
    Full-bind (cast_or (casts.to_uint64 s)) (λ n. int64 (as_int64 n)) (λ _. refl),
  )

  meaning-Full : (v : TokenTree) → Full (meaning casts js v)
  unfolding meaning
  meaning-Full (primitive s e) = primitive_value-Full (span js s e)
  meaning-Full (string s e) = refl
  meaning-Full (object s e fs) =
      Full-bind (meaning_fields casts js fs) (λ named. map_of (fill named no_members)) (λ _. refl)
  meaning-Full (array s e vs) = Full-bind (meaning_elements casts js vs) vector_of (λ _. refl)

  pub encode_step :
      (f count : ℕ) (k : Token) (t : List Token)
      → 1 ≤ count
      → encode casts js (suc f) (k ∷ t) count
        ≡ encode_token casts js (encode casts js f) k.type k t count
  unfolding encode
  encode_step f count k t h = rw (==_ne count 0 (omega arith)) refl

  object_token :
      (walk : Walk) (s e size : ℕ) (t : List Token) (count used : ℕ) (m : Result Named)
      → read_members walk size t count 0 no_members
        ≡ (m >>= λ named. ok (fill named no_members, 0 + used))
      → encode_token casts js walk TokenType.object (token TokenType.object s e size) t count
        ≡ ((m >>= λ named. ok (map_of (fill named no_members))) >>= λ a. ok (a, suc used))
  unfolding encode_token
  object_token walk s e size t count used (ok named) h =
      rw h (ap (λ n. ok (map_of (fill named no_members), n)) (omega arith))
  object_token walk s e size t count used (err x) h = rw h refl

  array_token :
      (walk : Walk) (s e size : ℕ) (t : List Token) (count used : ℕ) (m : Result Items)
      → read_items walk size t count 0 no_items ≡ (m >>= λ xs. ok (xs, 0 + used))
      → encode_token casts js walk TokenType.array (token TokenType.array s e size) t count
        ≡ ((m >>= λ xs. ok (vector_of xs)) >>= λ a. ok (a, suc used))
  unfolding encode_token
  array_token walk s e size t count used (ok xs) h =
      rw h (ap (λ n. ok (vector_of xs, n)) (omega arith))
  array_token walk s e size t count used (err x) h = rw h refl

  items_step :
      (f n : ℕ) (t : List Token) (count j used used' : ℕ) (xs : Items) (v : TokenTree)
      (m : Result Items)
      → encode casts js f (drop j t) (sub_size count j) ≡ (meaning casts js v >>= λ a. ok (a, used))
      → ((a : Any)
          → read_items (encode casts js f) n t count (j + used) (push_back a xs)
            ≡ (m >>= λ ys. ok (append_items (push_back a xs) ys, j + used + used')))
      → read_items (encode casts js f) (suc n) t count j xs ≡ (
          (meaning casts js v >>= λ a. m >>= λ ys. ok (item a ys)) >>= λ ys.
          ok (append_items xs ys, j + (used + used')))
  items_step f n t count j used used' xs v m here later =
      items_round (encode casts js f) t count n j used xs (meaning casts js v)
        (λ a. m >>= λ ys. ok (append_items xs (item a ys), j + (used + used'))) here
        (λ a found.
          ap (read_items (encode casts js f) n t count (j + used))
            (push_value-full a xs (Full-ok (meaning casts js v) a (meaning-Full v) found))
          ∙ later a
          ∙ ap (λ (g : Items → Result (Items × ℕ)). m >>= g)
              (fun_ext λ ys.
                ap (λ (zs : Items). ok (zs, j + used + used')) (append-push_back xs a ys)
                ∙ ap (λ (l : ℕ). ok (append_items xs (item a ys), l)) (omega arith)))
      ∙ sym (regroup_items (meaning casts js v) m _)

  members_step :
      (f n : ℕ) (t : List Token) (count j used used' : ℕ) (ms : Members) (name : Text)
      (v : TokenTree) (m : Result Named)
      → encode casts js f (drop j t) (sub_size count j) ≡ ok (view name, 1)
      → encode casts js f (drop (j + 1) t) (sub_size count (j + 1))
        ≡ (meaning casts js v >>= λ a. ok (a, used))
      → ((a : Any)
          → read_members (encode casts js f) n t count (j + 1 + used) (map_insert name a ms)
            ≡ (m >>= λ named. ok (fill named (map_insert name a ms), j + 1 + used + used')))
      → read_members (encode casts js f) (suc n) t count j ms ≡ (
          (meaning casts js v >>= λ a. m >>= λ named. ok ((name, a) ∷ named)) >>= λ named.
          ok (fill named ms, j + suc (used + used')))
  unfolding fill
  members_step f n t count j used used' ms name v m key here later =
      members_round (encode casts js f) t count n j used name ms (meaning casts js v)
        (λ a. m >>= λ named. ok (fill named (map_insert name a ms), j + suc (used + used'))) key
        here
        (λ a found.
          ap (λ r. r >>= read_members (encode casts js f) n t count (j + 1 + used))
            (insert_pair-full name a ms (Full-ok (meaning casts js v) a (meaning-Full v) found))
          ∙ later a
          ∙ ap (λ (g : Named → Result (Members × ℕ)). m >>= g)
              (fun_ext
                λ named. ap (λ (l : ℕ). ok (fill named (map_insert name a ms), l)) (omega arith)))
      ∙ sym (regroup_named (meaning casts js v) m name _)

  pub key_read :
      (f count s e size : ℕ) (t : List Token)
      → 1 ≤ count
      → 1 ≤ f
      → encode casts js f (token TokenType.string s e size ∷ t) count ≡ ok (view (span js s e), 1)
  unfolding encode_token
  key_read zero count s e size t h k = absurd (omega arith)
  key_read (suc f) count s e size t h k = encode_step f count _ t h

  mutual
    unfolding tokens meaning append_items encode_token fill

    reads_tree : (v : TokenTree) → ReadsTree v
    reads_tree v rest zero count h k = absurd (omega (arith, tokens_pos v))
    reads_tree (primitive s e) rest (suc f) count h k = encode_step f count _ rest h
    reads_tree (string s e) rest (suc f) count h k = encode_step f count _ rest h
    reads_tree (object s e fs) rest (suc f) count h k =
        encode_step f count _ (field_tokens fs ++ rest) (omega arith)
        ∙ object_token (encode casts js f) s e (count_fields fs) (field_tokens fs ++ rest) count
            (length (field_tokens fs)) (meaning_fields casts js fs)
            (reads_fields fs rest (field_tokens fs ++ rest) f count 0 no_members refl (omega arith)
              (omega arith))
    reads_tree (array s e vs) rest (suc f) count h k =
        encode_step f count _ (element_tokens vs ++ rest) (omega arith)
        ∙ array_token (encode casts js f) s e (count_elements vs) (element_tokens vs ++ rest) count
            (length (element_tokens vs)) (meaning_elements casts js vs)
            (reads_elements vs rest (element_tokens vs ++ rest) f count 0 no_items refl
              (omega arith) (omega arith))

    reads_elements : (vs : TreeElements) → ReadsElements vs
    reads_elements no_elements rest t f count j xs e h k =
        items_done (encode casts js f) t count j xs
        ∙ ap (λ (r : Items × ℕ). ok r)
            (ap (λ ys. (ys, j)) (sym (append-no_items xs))
              ∙ ap (λ n. (append_items xs no_items, n)) (omega arith))
    reads_elements (element v vs) rest t f count j xs e h k =
        let sizes = length-append (tokens v) (element_tokens vs) in
        let here = e ∙ append_assoc (tokens v) (element_tokens vs) rest in
        items_step f (count_elements vs) t count j (length (tokens v)) (length (element_tokens vs))
          xs v (meaning_elements casts js vs)
          (ap (λ l. encode casts js f l (sub_size count j)) here
            ∙ reads_tree v (element_tokens vs ++ rest) f (sub_size count j)
                (omega (arith, sub_size-le count j)) (omega arith))
          (λ a.
            reads_elements vs rest t f count (j + length (tokens v)) (push_back a xs)
              (drop-rest j t (tokens v) (element_tokens vs ++ rest) here) (omega arith)
              (omega arith))
        ∙ ap
            (λ (l : ℕ).
              meaning_elements casts js (element v vs) >>= λ ys. ok (append_items xs ys, j + l))
            (sym sizes)

    pub reads_fields : (fs : TreeFields) → ReadsFields fs
    reads_fields no_fields rest t f count j ms e h k =
        members_done (encode casts js f) t count j ms ∙ ap (λ (n : ℕ). ok (ms, n)) (omega arith)
    reads_fields (field s e v fs) rest t f count j ms told h k =
        let sizes = length-append (tokens v) (field_tokens fs) in
        let here =
          drop-rest j t (token TokenType.string s e 1 ∷ []) _ told
          ∙ append_assoc (tokens v) (field_tokens fs) rest in
        members_step f (count_fields fs) t count j (length (tokens v)) (length (field_tokens fs)) ms
          (span js s e) v (meaning_fields casts js fs)
          (ap (λ l. encode casts js f l (sub_size count j)) told
            ∙ key_read f (sub_size count j) s e 1 (tokens v ++ field_tokens fs ++ rest)
                (omega (arith, sub_size-le count j)) (omega arith))
          (ap (λ l. encode casts js f l (sub_size count (j + 1))) here
            ∙ reads_tree v (field_tokens fs ++ rest) f (sub_size count (j + 1))
                (omega (arith, sub_size-le count (j + 1))) (omega arith))
          (λ a.
            reads_fields fs rest t f count (j + 1 + length (tokens v))
              (map_insert (span js s e) a ms)
              (drop-rest (j + 1) t (tokens v) (field_tokens fs ++ rest) here) (omega arith)
              (omega arith))
        ∙ ap
            (λ (l : ℕ).
              meaning_fields casts js (field s e v fs) >>= λ named. ok (fill named ms, j + l))
            (omega (arith, sizes))

  -- On the tokens of a well-formed text, whatever follows them, the walk returns the value of the text
  -- and the number of its tokens, or throws where a primitive of the text does not convert; it needs no
  -- more than the number of tokens for `count` and for the nesting of its calls.
  pub encode-tokens :
      (v : TokenTree) (rest : List Token) (f count : ℕ)
      → length (tokens v) ≤ count
      → length (tokens v) ≤ f
      → encode casts js f (tokens v ++ rest) count
        ≡ (meaning casts js v >>= λ a. ok (a, length (tokens v)))
  encode-tokens v rest f count = reads_tree v rest f count
