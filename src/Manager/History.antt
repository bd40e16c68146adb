-- ===== src/Manager/History.antt =====
-- A history of requests to the campaign manager, and the book behind it.
use vanilla_rtb.Base.{ℕ, ◌≡◌, ◌≢◌, ◌↔◌, refl, subst, true, List, [], ◌∷◌, Option, none, some}
use vanilla_rtb.Budget.{CampaignBudget, kept_budget}
use vanilla_rtb.Cache.Index.{UniqueIndex}
use vanilla_rtb.Cache.Entities.{Entity}
use vanilla_rtb.Cache.Index.{bad_alloc}
use vanilla_rtb.Cache.Laws.{IsCache}
use vanilla_rtb.Manager.{
  Request, Answer, Handled, answered, logged, escapes, Reading, handle, serve_all, Log, log_answer,
}
use vanilla_rtb.Manager.Book.{Book, book, apply_request}
use vanilla_rtb.Manager.Follows.{is_readable, IsRefused, Answers, Explains, Follows, handle-Follows}
use vanilla_rtb.Manager.Returns.{serve_all-Returns}

module _ {E C : Type 0} (ix : UniqueIndex ℕ ℕ E C) (en : Entity ℕ CampaignBudget E)
    (law : IsCache ix en kept_budget) (whole : (q k : ℕ) → (ix.matches q k ≡ true) ↔ (q ≡ k))
    (rd : Reading) where
  abbrev Explained : Book → Option (C × Log) → Type 0
  Explained m none = Unit
  Explained m (some (d, log)) = Explains ix en rd m log (book ix en d)

  explain_answer :
      (r : Request) (a : Answer) (m : Book) (o : Option (C × Log))
      → is_readable rd r ≡ true
      → Answers rd r m a
      → Explained (apply_request rd r m) o
      → Explained m (log_answer r (some a) o)
  unfolding log_answer
  explain_answer r a m none read h k = tt
  explain_answer r a m (some (d, log)) read h k = (read, h, k)

  explain_logged :
      (r : Request) (m : Book) (o : Option (C × Log))
      → IsRefused ix en rd r m
      → Explained m o
      → Explained m (log_answer r none o)
  unfolding log_answer
  explain_logged r m none unread k = tt
  explain_logged r m (some (d, log)) unread k = (unread, k)

  explain : (rs : List Request) (c : C) → Explained (book ix en c) (serve_all ix en rd rs c)
  unfolding serve_all
  explain [] c = refl
  explain (r ∷ rs) c =
      handled (handle ix en rd r c) (handle-Follows ix en law whole rd r c) (explain rs)
    where
      handled :
          (h : Handled C)
          → Follows ix en law whole rd r c h
          → ((c' : C) → Explained (book ix en c') (serve_all ix en rd rs c'))
          → Explained (book ix en c) (elim h [
            | answered c' a ↦ log_answer r (some a) (serve_all ix en rd rs c')
            | logged c' ↦ log_answer r none (serve_all ix en rd rs c')
            | escapes c' ↦ none
          ])
      handled (answered c' a) follows later =
          explain_answer r a (book ix en c) (serve_all ix en rd rs c') follows.1 follows.2
            (subst (λ m. Explained m (serve_all ix en rd rs c')) follows.0 (later c'))
      handled (logged c') follows later =
          explain_logged r (book ix en c) (serve_all ix en rd rs c') follows.1
            (subst (λ m. Explained m (serve_all ix en rd rs c')) follows.0 (later c'))
      handled (escapes c') follows later = tt

  -- Over a cache that obeys its laws and keeps of a budget all but the overdraft, whatever requests come,
  -- and as long as an update finds the memory that it needs: the manager comes through the requests. It
  -- answers those whose data and digits can be read and which name a command of their kind, but for what is
  -- put when the segment is full also after it has grown; the others are logged and change nothing. The
  -- answers are those of a book: what is put under an id that has no budget is entered, what is posted
  -- replaces the budget under an id that has one, a deleted one is struck out, a question by id with digits
  -- is answered by the budget or by an empty array, and the list without digits holds the budgets of the
  -- book and no others.
  pub serve_all-Explains :
      (roomy : (k : ℕ) (e : E) (c : C) → ix.modify k e c ≢ bad_alloc) (rs : List Request) (c : C)
      → (d : C) × (log : Log) × (serve_all ix en rd rs c ≡ some (d, log))
        × Explains ix en rd (book ix en c) log (book ix en d)
  serve_all-Explains roomy rs c =
      let (d, log, served) = serve_all-Returns ix en rd roomy rs c in
      (d, log, served, subst (Explained (book ix en c)) served (explain rs c))
