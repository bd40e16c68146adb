-- ===== src/Manager.antt =====
-- examples/campaign/campaign_manager_test.cpp: the handlers that the campaign manager sets on the
-- dispatcher of CRUD requests, over the cache of the campaigns. The dispatcher, the DSL and the JSON
-- values are not part of this code: a request comes as the groups of its match and its data.
pub mod Book
pub mod Listing
pub mod Follows
pub mod Returns
pub mod History
use vanilla_rtb.Base.{ℕ, List, [], ◌∷◌, Option, none, some, Text, codes, text_eq, if◌then◌else◌}
use vanilla_rtb.Budget.{CampaignBudget}
use vanilla_rtb.Cache.Index.{UniqueIndex}
use vanilla_rtb.Cache.Entities.{Entity}
use vanilla_rtb.Cache.{Written, written, throws, escaped, update, retrieve_range, retrieve_all}
use vanilla_rtb.Cache.Campaigns.{insert_budget, remove_budget}

-- match[1] is the name of a command, match[2] the digits behind it.
pub data Request : Type 0 where
  put post : Text → Text → Text → Request
  del get : Text → Text → Request

-- What is written to the reply: nothing, one budget, or an array.
pub data Answer : Type 0 where
  silent : Answer
  one : CampaignBudget → Answer
  many : List CampaignBudget → Answer

-- How a handler ends; `logged` is an exception, which is caught and logged, and `escapes` a cache that
-- goes on outside of its range.
pub data Handled (C : Type 0) : Type 0 where
  answered : C → Answer → Handled C
  logged : C → Handled C
  escapes : C → Handled C

-- CampaignDSL::extract_request and boost::lexical_cast<uint32_t>; `none` is an exception.
pub record Reading : Type 0 where
  pub extract_request : Text → Option CampaignBudget
  pub to_uint32 : Text → Option ℕ

abbrev pub by_id : Text
by_id = codes "budget/id/"

abbrev pub listing : Text
listing = codes "budget"

-- `commands[key]`: the one command of its map, or an empty function, whose call throws.
abbrev pub command : {A : Type 0} → Text → Text → A → A → A
command wanted key run throw = if text_eq key wanted then run else throw

-- `response`, of what was retrieved.
unfoldable pub compose : Option ℕ → List CampaignBudget → Answer
compose (some id) (d ∷ ds) = one d
compose (some id) [] = many []
compose none ds = many ds

abbrev pub Log : Type 0
Log = List (Request × Option Answer)

unfoldable pub log_answer :
    {C : Type 0} → Request → Option Answer → Option (C × Log) → Option (C × Log)
log_answer r a none = none
log_answer r a (some (c, log)) = some (c, (r, a) ∷ log)

module _ {E C : Type 0} (ix : UniqueIndex ℕ ℕ E C) (en : Entity ℕ CampaignBudget E)
    (rd : Reading) where
  abbrev pub after_write : Written C → Handled C
  after_write (written c ok) = answered c silent
  after_write (throws c) = logged c
  after_write (escaped c) = escapes c

  -- The lambda of put: the cache's insert.
  unfoldable pub on_put : Text → Text → Text → C → Handled C
  on_put key id body c = elim (rd.extract_request body) [
    | none ↦ logged c
    | some budget ↦ elim (rd.to_uint32 id) [
      | none ↦ logged c
      | some k ↦ command by_id key (after_write (insert_budget ix en budget k c)) (logged c)
    ]
  ]

  -- The lambda of post: CampaignCache::update, under one key.
  unfoldable pub on_post : Text → Text → Text → C → Handled C
  on_post key id body c = elim (rd.extract_request body) [
    | none ↦ logged c
    | some budget ↦ elim (rd.to_uint32 id) [
      | none ↦ logged c
      | some k ↦ command by_id key (after_write (update ix en k k budget c)) (logged c)
    ]
  ]

  -- The lambda of del.
  unfoldable pub on_del : Text → Text → C → Handled C
  on_del key id c = elim (rd.to_uint32 id) [
    | none ↦ logged c
    | some k ↦ command by_id key (answered (remove_budget ix en k c).0 silent) (logged c)
  ]

  -- The two commands of get, once the digits are read; 0 stands for no digits.
  abbrev pub read_command : Text → Option ℕ → ℕ → C → Handled C
  read_command key campaign_id k c =
      command by_id key (answered c (compose campaign_id (retrieve_range ix en k [] c).0)) (
        command listing key (answered c (compose campaign_id (retrieve_all ix en [] c).0))
          (logged c))

  -- The lambda of get.
  unfoldable pub on_get : Text → Text → C → Handled C
  on_get key [] c = read_command key none 0 c
  on_get key (digit ∷ digits) c = elim (rd.to_uint32 (digit ∷ digits)) [
    | none ↦ logged c
    | some k ↦ read_command key (some k) k c
  ]

  unfoldable pub handle : Request → C → Handled C
  handle (put key id body) c = on_put key id body c
  handle (post key id body) c = on_post key id body c
  handle (del key id) c = on_del key id c
  handle (get key id) c = on_get key id c

  -- Requests one after another, each with its answer, or `none` where it was logged; it stops at one
  -- that escapes.
  unfoldable pub serve_all : List Request → C → Option (C × Log)
  unfolding log_answer
  serve_all [] c = some (c, [])
  serve_all (r ∷ rs) c = elim (handle r c) [
    | answered c' a ↦ log_answer r (some a) (serve_all rs c')
    | logged c' ↦ log_answer r none (serve_all rs c')
    | escapes c' ↦ none
  ]
