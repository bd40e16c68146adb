-- ===== src/Manager/Returns.antt =====
-- The campaign manager comes through every request, where an update finds the memory that it needs.
use vanilla_rtb.Base.{
  ℕ, ◌≡◌, ◌≢◌, inl, inr, refl, List, [], ◌∷◌, Option, none, some, Text, arith, Option-cases,
}
use vanilla_rtb.Budget.{CampaignBudget}
use vanilla_rtb.Cache.Index.{UniqueIndex}
use vanilla_rtb.Cache.Entities.{Entity}
use vanilla_rtb.Cache.Index.{bad_alloc}
use vanilla_rtb.Cache.{update_data, Written, written, throws, escaped, insert, update}
use vanilla_rtb.Cache.Campaigns.{insert_budget}
use vanilla_rtb.Manager.{
  Request, put, post, del, get, Answer, Handled, answered, logged, escapes, Reading, by_id, on_put,
  on_post, on_del, on_get, handle, serve_all, Log, log_answer, command, after_write,
}

module _ {E C : Type 0} (ix : UniqueIndex ℕ ℕ E C) (en : Entity ℕ CampaignBudget E) (rd : Reading)
    (roomy : (k : ℕ) (e : E) (c : C) → ix.modify k e c ≢ bad_alloc) where
  update-no_escape : (k : ℕ) (b : CampaignBudget) (c c' : C) → update ix en k k b c ≢ escaped c'
  unfolding update update_data
  update-no_escape k b c c' h = ground (arith, roomy k (en.store k b) c)

  insert-no_escape : (k : ℕ) (b : CampaignBudget) (c c' : C) → insert ix en k b c ≢ escaped c'
  unfolding insert
  insert-no_escape k b c c' h = ground arith

  abbrev Stays : Handled C → Type 0
  Stays (answered c a) = Unit
  Stays (logged c) = Unit
  Stays (escapes c) = ⊥

  write-Stays :
      (key : Text) (w : Written C) (c : C)
      → ((c' : C) → w ≢ escaped c')
      → Stays (command by_id key (after_write ix en rd w) (logged c))
  write-Stays key (written c' ok) c h = ground arith
  write-Stays key (throws c') c h = ground arith
  write-Stays key (escaped c') c h = absurd (h c' refl)

  put-Stays : (key id body : Text) (c : C) → Stays (on_put ix en rd key id body c)
  unfolding on_put insert_budget
  put-Stays key id body c = elim (Option-cases (rd.extract_request body)) [
    | inl e ↦ rw (e, on_put) tt
    | inr (b, e) ↦ elim (Option-cases (rd.to_uint32 id)) [
      | inl e' ↦ rw (e, on_put) (rw e' tt)
      | inr (k, e') ↦
          rw (e, on_put) (rw e' (write-Stays key (insert ix en k b c) c (insert-no_escape k b c)))
    ]
  ]

  post-Stays : (key id body : Text) (c : C) → Stays (on_post ix en rd key id body c)
  unfolding on_post
  post-Stays key id body c = elim (Option-cases (rd.extract_request body)) [
    | inl e ↦ rw (e, on_post) tt
    | inr (b, e) ↦ elim (Option-cases (rd.to_uint32 id)) [
      | inl e' ↦ rw (e, on_post) (rw e' tt)
      | inr (k, e') ↦
          rw (e, on_post)
            (rw e' (write-Stays key (update ix en k k b c) c (update-no_escape k b c)))
    ]
  ]

  handle-Stays : (r : Request) (c : C) → Stays (handle ix en rd r c)
  unfolding handle on_del on_get
  handle-Stays (put key id body) c = put-Stays key id body c
  handle-Stays (post key id body) c = post-Stays key id body c
  handle-Stays (del key id) c = ground arith
  handle-Stays (get key []) c = ground arith
  handle-Stays (get key (d ∷ ds)) c = ground arith

  abbrev pub Returns : Option (C × Log) → Type 0
  Returns o = (d : C) × (log : Log) × (o ≡ some (d, log))

  answer-Returns :
      (r : Request) (a : Option Answer) (o : Option (C × Log))
      → Returns o
      → Returns (log_answer r a o)
  unfolding log_answer
  answer-Returns r a o (d, log, e) = (d, (r, a) ∷ log, rw e refl)

  pub serve_all-Returns : (rs : List Request) (c : C) → Returns (serve_all ix en rd rs c)
  unfolding serve_all
  serve_all-Returns [] c = (c, [], refl)
  serve_all-Returns (r ∷ rs) c =
      handled (handle ix en rd r c) (handle-Stays r c) (serve_all-Returns rs)
    where
      handled :
          (h : Handled C)
          → Stays h
          → ((c' : C) → Returns (serve_all ix en rd rs c'))
          → Returns (elim h [
            | answered c' a ↦ log_answer r (some a) (serve_all ix en rd rs c')
            | logged c' ↦ log_answer r none (serve_all ix en rd rs c')
            | escapes c' ↦ none
          ])
      handled (answered c' a) stays later = answer-Returns r (some a) _ (later c')
      handled (logged c') stays later = answer-Returns r none _ (later c')
      handled (escapes c') stays later = absurd stays
