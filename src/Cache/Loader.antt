-- ===== src/Cache/Loader.antt =====
-- The caches of examples/matchers: AdDataEntity, GeoDataEntity, GeoCampaignEntity, DomainEntity and
-- ICOCampaignEntity share the way in which they are loaded from records and asked for a range.
pub mod Found
pub mod Fits
use vanilla_rtb.Base.{Bool, not, List, [], ◌∷◌, ◌++◌, map, Option, none, some, is_empty}
use vanilla_rtb.Cache.Index.{UniqueIndex}
use vanilla_rtb.Cache.Entities.{Entity}
use vanilla_rtb.Cache.{Written, written, throws, escaped, insert, clear}
use vanilla_rtb.Cache.Campaigns.{Loaded, loaded, failed}

module _ {K Q D E C : Type 0} (ix : UniqueIndex K Q E C) (en : Entity K D E) where
  -- The std::for_each of `load`, with the keys that it makes of a record; the answer of an insertion is
  -- dropped, or logged.
  unfoldable pub insert_records : (D → K) → List D → C → Loaded C
  insert_records keys [] c = loaded c
  insert_records keys (d ∷ ds) c = elim (insert ix en (keys d) d c) [
    | written c' ok ↦ insert_records keys ds c'
    | throws c' ↦ failed c'
    | escaped c' ↦ failed c'
  ]

  -- load, of the records of the file, or of a file that does not open.
  unfoldable pub load_records : (D → K) → Option (List D) → C → Loaded C
  load_records keys none c = failed c
  load_records keys (some ds) c = insert_records keys ds (clear ix en c)

  -- retrieve, through retrieve_raw: what is in range is appended, and the answer is whether there is
  -- anything in range.
  unfoldable pub append_range : Q → List D → C → List D × Bool
  append_range q ds c =
      let range = ix.equal_range q c in (ds ++ map en.retrieve range, not (is_empty range))
