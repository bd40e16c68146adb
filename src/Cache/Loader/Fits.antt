-- ===== src/Cache/Loader/Fits.antt =====
-- What a loaded cache answers to the question for a range, if the questions of the container are known.
use mathlib.Core.List.{Mem}
use vanilla_rtb.Base.{◌≡◌, ◌↔◌, subst, fun_ext, Bool, true, List, [], All, some}
use vanilla_rtb.Cache.Index.{UniqueIndex, IsLawful}
use vanilla_rtb.Cache.Entities.{Entity}
use vanilla_rtb.Cache.Campaigns.{loaded}
use vanilla_rtb.Cache.Loader.{load_records, append_range}
use vanilla_rtb.Cache.Loader.Found.{InRange, IsItem, load_records-range}

-- An index with the laws, whose key is the key that an entity stores and whose questions are those of
-- `fits`.
pub record IsIndex {K Q D E C : Type 0} (ix : UniqueIndex K Q E C) (en : Entity K D E)
    (fits : Q → K → Bool) : Type 0 where
  pub index_law : IsLawful ix
  pub same_key : (e : E) → ix.key e ≡ en.key_of e
  pub same_fits : (q : Q) (k : K) → ix.matches q k ≡ fits q k

module _ {K Q D E C : Type 0} (ix : UniqueIndex K Q E C) (en : Entity K D E) (fits : Q → K → Bool)
    (law : IsIndex ix en fits) (same : K → K → Bool)
    (same_iff : (j k : K) → (same j k ≡ true) ↔ (j ≡ k)) (keys : D → K) (kept : D → D)
    (items : IsItem ix en keys kept) where
  pub load_records-fits :
      (ds : List D) (c c' : C) (q : Q)
      → load_records ix en keys (some ds) c ≡ loaded c'
      → All (InRange same keys kept fits q ds) (append_range ix en q [] c').0
        × ((x : D) → InRange same keys kept fits q ds x → Mem x (append_range ix en q [] c').0)
  load_records-fits ds c c' q h =
      subst
        (λ (f : Q → K → Bool).
          All (InRange same keys kept f q ds) (append_range ix en q [] c').0
          × ((x : D) → InRange same keys kept f q ds x → Mem x (append_range ix en q [] c').0))
        (fun_ext (λ p. fun_ext (λ k. law.same_fits p k)))
        (load_records-range ix en law.index_law same same_iff keys kept items ds c c' q h)
