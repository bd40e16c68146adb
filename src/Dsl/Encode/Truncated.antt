-- ===== src/Dsl/Encode/Truncated.antt =====
-- An object whose last key has no value, which jsmn accepts.
use vanilla_rtb.Base.{
  ℕ, zero, suc, ◌+◌, ◌≤◌, ◌≡◌, refl, ap, ◌∙◌, List, [], ◌∷◌, ◌++◌, Text, length, drop, ==_ne, arith,
  length-append,
}
use vanilla_rtb.Dsl.Values.{TokenType, Token, view, Members, no_members, span}
use vanilla_rtb.Dsl.Encode.{
  past_end, Result, ok, err, ◌>>=◌, Casts, sub_size, Walk, read_members, insert_pair, encode_token,
  encode,
}
use vanilla_rtb.Dsl.Encode.Trees.{
  TreeFields, count_fields, field_tokens, token, Named, fill, meaning_fields,
}
use vanilla_rtb.Dsl.Encode.Rounds.{drop-rest, sub_size-le}
use vanilla_rtb.Dsl.Encode.Reads.{encode_step, key_read, reads_fields}

bind_step :
    {A B C : Type 0} (m : Result A) (f : A → Result B) (g : A → Result C) (r : B → Result C)
    → ((a : A) → g a ≡ (f a >>= r))
    → (m >>= g) ≡ ((m >>= f) >>= r)
bind_step (ok a) f g r h = h a
bind_step (err e) f g r h = refl

-- The last round of the loop stands for itself.
read_members_last :
    (walk : Walk) (n : ℕ) (t : List Token) (count j : ℕ) (ms : Members)
    → read_members walk (suc n) t count j ms
      ≡ (read_members walk n t count j ms >>= λ r. read_members walk 1 t count r.1 r.0)
unfolding read_members
read_members_last walk zero t count j ms = refl
read_members_last walk (suc n) t count j ms =
    bind_step (walk (drop j t) (sub_size count j)) _ _ _ λ k.
      bind_step (walk (drop (j + k.1) t) (sub_size count (j + k.1))) _ _ _ λ v.
        bind_step (insert_pair k.0 v.0 ms) _ _ _
          λ ms'. read_members_last walk n t count (j + k.1 + v.1) ms'

-- A round at a key with nothing behind it.
read_members_cut :
    (walk : Walk) (t : List Token) (count j : ℕ) (ms : Members) (name : Text)
    → walk (drop j t) (sub_size count j) ≡ ok (view name, 1)
    → walk (drop (j + 1) t) (sub_size count (j + 1)) ≡ err past_end
    → read_members walk 1 t count j ms ≡ err past_end
unfolding read_members
read_members_cut walk t count j ms name key behind = rw key (rw behind refl)

-- The tokens of an object that ends with a bare key.
abbrev pub cut_object : ℕ → ℕ → TreeFields → ℕ → ℕ → List Token
cut_object s e fs ks ke =
    token TokenType.object s e (suc (count_fields fs))
    ∷ (field_tokens fs ++ token TokenType.string ks ke 0 ∷ [])

module _ (casts : Casts) (js : Text) where
  end_read : (f count : ℕ) → 1 ≤ count → 1 ≤ f → encode casts js f [] count ≡ err past_end
  unfolding encode
  end_read zero count h k = absurd (omega arith)
  end_read (suc f) count h k = rw (==_ne count 0 (omega arith)) refl

  cut_token :
      (walk : Walk) (s e size : ℕ) (t : List Token) (count : ℕ)
      → read_members walk size t count 0 no_members ≡ err past_end
      → encode_token casts js walk TokenType.object (token TokenType.object s e size) t count
        ≡ err past_end
  unfolding encode_token
  cut_token walk s e size t count h = rw h refl

  -- At an object whose last key stands at the end of the tokens and has no value, the fields before it
  -- being good, the walk reads behind the tokens, although `count` is their number.
  pub encode-cut_object :
      (s e : ℕ) (fs : TreeFields) (ks ke : ℕ) (named : Named) (f : ℕ)
      → meaning_fields casts js fs ≡ ok named
      → length (cut_object s e fs ks ke) ≤ f
      → encode casts js f (cut_object s e fs ks ke) (length (cut_object s e fs ks ke))
        ≡ err past_end
  encode-cut_object s e fs ks ke named zero good h = absurd (omega arith)
  encode-cut_object s e fs ks ke named (suc f) good h =
      let key = token TokenType.string ks ke 0 ∷ [] in
      let t = field_tokens fs ++ key in
      let n = length (field_tokens fs) in
      let count = suc (length t) in
      let sizes = length-append (field_tokens fs) key in
      let walk = encode casts js f in
      let at_key = drop-rest 0 t (field_tokens fs) key refl in
      let at_end = drop-rest (0 + n) t key [] at_key in
      encode_step casts js f count (token TokenType.object s e (suc (count_fields fs))) t
        (omega arith)
      ∙ cut_token walk s e (suc (count_fields fs)) t count (
          read_members_last walk (count_fields fs) t count 0 no_members
          ∙ ap (λ m. m >>= λ r. read_members walk 1 t count r.1 r.0)
              (reads_fields casts js fs key t f count 0 no_members refl (omega arith) (omega arith)
                ∙ ap (λ m. m >>= λ xs. ok (fill xs no_members, 0 + n)) good)
          ∙ read_members_cut walk t count (0 + n) (fill named no_members) (span js ks ke)
              (ap (λ l. walk l (sub_size count (0 + n))) at_key
                ∙ key_read casts js f (sub_size count (0 + n)) ks ke 0 []
                    (omega (arith, sub_size-le count (0 + n))) (omega arith))
              (ap (λ l. walk l (sub_size count (0 + n + 1))) at_end
                ∙ end_read f (sub_size count (0 + n + 1))
                    (omega (arith, sub_size-le count (0 + n + 1))) (omega arith)))
