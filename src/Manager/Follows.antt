-- ===== src/Manager/Follows.antt =====
-- What one request does to the book of the campaign manager, and what it is answered.
use vanilla_rtb.Base.{
  ℕ, ◌≡◌, ◌↔◌, inl, inr, refl, sym, ap, ◌∙◌, fun_ext, ◌⊎◌, ◌&&◌, ◌||◌, is_some, Bool, true, false,
  [], ◌∷◌, Option, none, some, Text, text_eq, if◌then◌else◌, arith, Bool-cases, Option-cases,
}
use vanilla_rtb.Budget.{CampaignBudget, kept_budget}
use vanilla_rtb.Cache.Index.{UniqueIndex}
use vanilla_rtb.Cache.Entities.{Entity}
use vanilla_rtb.Cache.{Written, written, throws, escaped, insert, update}
use vanilla_rtb.Cache.Laws.{IsCache}
use vanilla_rtb.Cache.Campaigns.{insert_budget, remove_budget}
use vanilla_rtb.Manager.{
  Request, put, post, del, get, Answer, silent, many, Handled, answered, logged, escapes, Reading,
  by_id, listing, compose, on_put, on_post, on_del, on_get, handle, Log, command, after_write,
}
use vanilla_rtb.Manager.Book.{
  Book, book, apply_request, enter, replace, strike, insert-enters, update-replaces, remove-strikes,
  insert-throws, book-grow,
}
use vanilla_rtb.Manager.Listing.{found, Lists, compose-found, all_listed}

-- The answer to a question by id, with its digits read, and to one for the list, without digits.
abbrev pub AnswersId : Option ℕ → Book → Answer → Type 0
AnswersId none m a = Unit
AnswersId (some k) m a = a ≡ found (m k)

abbrev pub AnswersList : Book → Answer → Type 0
AnswersList m (many ds) = Lists m ds
AnswersList m _ = ⊥

abbrev pub digits : Reading → Text → Option ℕ
digits rd [] = none
digits rd (c ∷ cs) = rd.to_uint32 (c ∷ cs)

module _ (rd : Reading) where
  abbrev pub Answers : Request → Book → Answer → Type 0
  Answers (put key id body) m a = a ≡ silent
  Answers (post key id body) m a = a ≡ silent
  Answers (del key id) m a = a ≡ silent
  Answers (get key id) m a =
      if text_eq key by_id
      then AnswersId (digits rd id) m a
      else elim id [ [] ↦ AnswersList m a | _ ∷ _ ↦ Unit ]

  -- A request that the manager can make out: its data and its digits can be read, and it names a command
  -- of its kind.
  abbrev pub is_readable : Request → Bool
  is_readable (put key id body) =
      is_some (rd.extract_request body) && (is_some (rd.to_uint32 id) && text_eq key by_id)
  is_readable (post key id body) =
      is_some (rd.extract_request body) && (is_some (rd.to_uint32 id) && text_eq key by_id)
  is_readable (del key id) = is_some (rd.to_uint32 id) && text_eq key by_id
  is_readable (get key []) = text_eq key by_id || text_eq key listing
  is_readable (get key (d ∷ ds)) =
      is_some (rd.to_uint32 (d ∷ ds)) && (text_eq key by_id || text_eq key listing)

module _ {E C : Type 0} (ix : UniqueIndex ℕ ℕ E C) (en : Entity ℕ CampaignBudget E)
    (rd : Reading) where
  -- A budget is put, and the segment is full also after it has grown.
  abbrev pub Overflows : Request → Book → Type 0
  Overflows (put key id body) m =
      (k : ℕ) × (b : CampaignBudget) × (c c' : C) × (rd.extract_request body ≡ some b)
      × (rd.to_uint32 id ≡ some k)
      × (book ix en c ≡ m)
      × (insert ix en k b c ≡ throws c')
  Overflows _ m = ⊥

  -- Why a request is logged.
  abbrev pub IsRefused : Request → Book → Type 0
  IsRefused r m = (is_readable rd r ≡ false) ⊎ Overflows r m

  -- The answers of a log, one after another, are those of the book, which each answered request turns.
  -- The requests that can be made out are answered, but for those that overflow; the others are logged
  -- and leave the book alone.
  abbrev pub Explains : Book → Log → Book → Type 0
  Explains m [] m' = m' ≡ m
  Explains m ((r, none) ∷ log) m' = IsRefused r m × Explains m log m'
  Explains m ((r, some a) ∷ log) m' =
      (is_readable rd r ≡ true) × Answers rd r m a × Explains (apply_request rd r m) log m'

module _ {E C : Type 0} (ix : UniqueIndex ℕ ℕ E C) (en : Entity ℕ CampaignBudget E)
    (law : IsCache ix en kept_budget) (whole : (q k : ℕ) → (ix.matches q k ≡ true) ↔ (q ≡ k))
    (rd : Reading) where
  abbrev pub Follows : Request → C → Handled C → Type 0
  Follows r c (answered c' a) =
      (book ix en c' ≡ apply_request rd r (book ix en c))
      × (is_readable rd r ≡ true)
      × Answers rd r (book ix en c) a
  Follows r c (logged c') = (book ix en c' ≡ book ix en c) × IsRefused ix en rd r (book ix en c)
  Follows r c (escapes c') = Unit

  -- A write, whichever way it ends.
  write-Follows :
      (r : Request) (key : Text) (w : Written C) (c : C)
      → ((c' : C) (ok : Bool)
          → w ≡ written c' ok
          → book ix en c' ≡ apply_request rd r (book ix en c))
      → ((c' : C)
          → w ≡ throws c'
          → (book ix en c' ≡ book ix en c) × IsRefused ix en rd r (book ix en c))
      → (is_readable rd r ≡ text_eq key by_id)
      → Answers rd r (book ix en c) silent
      → Follows r c (command by_id key (after_write ix en rd w) (logged c))
  write-Follows r key w c done full clear_ quiet = elim (Bool-cases (text_eq key by_id)) [
    | inl e ↦ rw e (ended w done full (clear_ ∙ e))
    | inr e ↦ rw e (refl, inl (clear_ ∙ e))
  ]
    where
      ended :
          (w : Written C)
          → ((c' : C) (ok : Bool)
              → w ≡ written c' ok
              → book ix en c' ≡ apply_request rd r (book ix en c))
          → ((c' : C)
              → w ≡ throws c'
              → (book ix en c' ≡ book ix en c) × IsRefused ix en rd r (book ix en c))
          → (is_readable rd r ≡ true)
          → Follows r c (after_write ix en rd w)
      ended (written c' ok) done full read = (done c' ok refl, read, quiet)
      ended (throws c') done full read = full c' refl
      ended (escaped c') done full read = tt

  update-no_throw : (k : ℕ) (b : CampaignBudget) (c c' : C) → update ix en k k b c ≡ throws c' → ⊥
  unfolding update
  update-no_throw k b c c' h = ground arith

  put-Follows :
      (key id body : Text) (c : C) → Follows (put key id body) c (on_put ix en rd key id body c)
  unfolding on_put insert_budget
  put-Follows key id body c = elim (Option-cases (rd.extract_request body)) [
    | inl e ↦ rw (e, on_put) (refl, inl (rw e refl))
    | inr (b, e) ↦ elim (Option-cases (rd.to_uint32 id)) [
      | inl e' ↦ rw (e, on_put) (rw e' (refl, inl (rw (e, e') refl)))
      | inr (k, e') ↦
          let turned : apply_request rd (put key id body) (book ix en c)
              ≡ enter k b (book ix en c) =
            rw (e, apply_request) (rw e' refl) in
          rw (e, on_put)
            (rw e' (
              write-Follows (put key id body) key (insert ix en k b c) c
                (λ c' ok h. fun_ext (insert-enters ix en law k b c c' ok h) ∙ sym turned)
                (λ c' h. (
                  ap (book ix en) (insert-throws ix en law k b c c' h)
                      ∙ fun_ext (book-grow ix en law c),
                  inr (k, b, c, c', e, e', refl, h),
                ))
                (rw e (rw e' refl)) refl))
    ]
  ]

  post-Follows :
      (key id body : Text) (c : C) → Follows (post key id body) c (on_post ix en rd key id body c)
  unfolding on_post
  post-Follows key id body c = elim (Option-cases (rd.extract_request body)) [
    | inl e ↦ rw (e, on_post) (refl, inl (rw e refl))
    | inr (b, e) ↦ elim (Option-cases (rd.to_uint32 id)) [
      | inl e' ↦ rw (e, on_post) (rw e' (refl, inl (rw (e, e') refl)))
      | inr (k, e') ↦
          let turned : apply_request rd (post key id body) (book ix en c)
              ≡ replace k b (book ix en c) =
            rw (e, apply_request) (rw e' refl) in
          rw (e, on_post)
            (rw e' (
              write-Follows (post key id body) key (update ix en k k b c) c
                (λ c' ok h. fun_ext (update-replaces ix en law k b c c' ok h) ∙ sym turned)
                (λ c' h. absurd (update-no_throw k b c c' h)) (rw e (rw e' refl)) refl))
    ]
  ]

  del-Follows : (key id : Text) (c : C) → Follows (del key id) c (on_del ix en rd key id c)
  unfolding on_del remove_budget
  del-Follows key id c = elim (Option-cases (rd.to_uint32 id)) [
    | inl e ↦ rw (e, on_del) (refl, inl (rw e refl))
    | inr (k, e) ↦ elim (Bool-cases (text_eq key by_id)) [
      | inl named ↦
          let turned : apply_request rd (del key id) (book ix en c) ≡ strike k (book ix en c) =
            rw (e, apply_request) refl in
          rw (e, on_del)
            (rw named
              (fun_ext (remove-strikes ix en law k c) ∙ sym turned, rw (e, named) refl, refl))
      | inr other ↦ rw (e, on_del) (rw other (refl, inl (rw (e, other) refl)))
    ]
  ]

  get-Follows : (key id : Text) (c : C) → Follows (get key id) c (on_get ix en rd key id c)
  unfolding on_get compose
  get-Follows key [] c = elim (Bool-cases (text_eq key by_id)) [
    | inl named ↦ rw named (refl, rw named refl, rw named tt)
    | inr other ↦ elim (Bool-cases (text_eq key listing)) [
      | inl all ↦
          rw other (rw all (refl, rw (other, all) refl, rw other (all_listed ix en law whole c)))
      | inr none_ ↦ rw other (rw none_ (refl, inl (rw (other, none_) refl)))
    ]
  ]
  get-Follows key (d ∷ ds) c = elim (Option-cases (rd.to_uint32 (d ∷ ds))) [
    | inl e ↦ rw (e, on_get) (refl, inl (rw e refl))
    | inr (k, e) ↦
        rw (e, on_get)
          (elim (Bool-cases (text_eq key by_id)) [
            | inl named ↦
                rw named
                  (refl, rw (e, named) refl, rw named (rw e (compose-found ix en law whole k c)))
            | inr other ↦ elim (Bool-cases (text_eq key listing)) [
              | inl all ↦ rw other (rw all (refl, rw (e, other, all) refl, rw other tt))
              | inr none_ ↦ rw other (rw none_ (refl, inl (rw (e, other, none_) refl)))
            ]
          ])
  ]

  pub handle-Follows : (r : Request) (c : C) → Follows r c (handle ix en rd r c)
  unfolding handle
  handle-Follows (put key id body) c = put-Follows key id body c
  handle-Follows (post key id body) c = post-Follows key id body c
  handle-Follows (del key id) c = del-Follows key id c
  handle-Follows (get key id) c = get-Follows key id c
