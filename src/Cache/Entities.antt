-- ===== src/Cache/Entities.antt =====
-- rtb/datacache/base_entity.hpp, campaign_entity.hpp and ad_entity.hpp: what a cache holds. An entity
-- stands for a value of type `D` under a key; its blob is the value in Boost's binary archive format.
use mathlib.Core.List.{append-nil}
use vanilla_rtb.Base.{ℕ, ◌≡◌, refl, [], ◌++◌, Text}

-- The interface that entity_cache uses: `store` on a fresh item, and `retrieve`.
pub record Entity (K D E : Type 0) : Type 0 where
  pub store : K → D → E
  pub retrieve : E → D
  pub key_of : E → K

-- What the theorems about a cache need of an entity: it gives back what is kept of a value.
pub record Keeps {K D E : Type 0} (en : Entity K D E) (kept : D → D) : Type 0 where
  pub retrieve-store : (k : K) (d : D) → en.retrieve (en.store k d) ≡ kept d
  pub key_of-store : (k : K) (d : D) → en.key_of (en.store k d) ≡ k

-- boost::archive: an archive is written at the end of a blob, and read from its front, into a fresh
-- value.
pub record Archive (D : Type 0) : Type 0 where
  pub write : D → Text
  pub read : Text → D

-- The archive gives back what the program's `serialize` writes of a value.
pub record IsArchive {D : Type 0} (ar : Archive D) (kept : D → D) : Type 0 where
  pub read-write : (d : D) (rest : Text) → ar.read (ar.write d ++ rest) ≡ kept d

-- base_entity
pub record BaseEntity : Type 0 where
  pub blob : Text

abbrev pub fresh_base : BaseEntity
fresh_base = record { blob = [] }

module _ {D : Type 0} (ar : Archive D) where
  -- base_entity::store appends to the blob.
  unfoldable pub store_base : D → BaseEntity → BaseEntity
  store_base d e = record { blob = e.blob ++ ar.write d }

  unfoldable pub retrieve_base : BaseEntity → D
  retrieve_base e = ar.read e.blob

-- base_entity::operator(), by which `modify` copies an item into an element.
abbrev pub copy_base : BaseEntity → BaseEntity → BaseEntity
copy_base item entry = record entry { blob = item.blob }

-- campaign_entity
pub record CampaignEntity : Type 0 where
  pub base : BaseEntity
  pub campaign_id : ℕ

abbrev pub fresh_campaign : CampaignEntity
fresh_campaign = record { base = fresh_base; campaign_id = 0 }

abbrev pub copy_campaign : CampaignEntity → CampaignEntity → CampaignEntity
copy_campaign item entry = record {
  base = copy_base item.base entry.base;
  campaign_id = item.campaign_id;
}

-- The keys of an ad: vanilla::tagged_tuple by its tags.
pub record AdKey : Type 0 where
  pub campaign : ℕ
  pub width : ℕ
  pub height : ℕ
  pub ad_id : ℕ

-- ad_entity
pub record AdEntity : Type 0 where
  pub base : BaseEntity
  pub campaign_id : ℕ
  pub width : ℕ
  pub height : ℕ
  pub ad_id : ℕ

abbrev pub fresh_ad : AdEntity
fresh_ad = record { base = fresh_base; campaign_id = 0; width = 0; height = 0; ad_id = 0 }

abbrev pub copy_ad : AdEntity → AdEntity → AdEntity
copy_ad item entry = record {
  base = copy_base item.base entry.base;
  campaign_id = item.campaign_id;
  width = item.width;
  height = item.height;
  ad_id = item.ad_id;
}

module _ {D : Type 0} (ar : Archive D) where
  -- campaign_entity::store
  unfoldable pub store_campaign : ℕ → D → CampaignEntity → CampaignEntity
  unfolding store_base
  store_campaign key d e = record { base = store_base ar d e.base; campaign_id = key }

  unfoldable pub campaigns : Entity ℕ D CampaignEntity
  unfolding store_campaign retrieve_base
  campaigns = record {
    store = λ k d. store_campaign k d fresh_campaign;
    retrieve = λ e. retrieve_base ar e.base;
    key_of = λ e. e.campaign_id;
  }

  -- ad_entity::store
  unfoldable pub store_ad : AdKey → D → AdEntity → AdEntity
  unfolding store_base
  store_ad key d e = record {
    base = store_base ar d e.base;
    campaign_id = key.campaign;
    width = key.width;
    height = key.height;
    ad_id = key.ad_id;
  }

  unfoldable pub ads : Entity AdKey D AdEntity
  unfolding store_ad retrieve_base
  ads = record {
    store = λ k d. store_ad k d fresh_ad;
    retrieve = λ e. retrieve_base ar e.base;
    key_of = λ e. record {
      campaign = e.campaign_id;
      width = e.width;
      height = e.height;
      ad_id = e.ad_id;
    };
  }

  -- What is stored in a fresh item is read back as far as it is kept.
  read-write_nil : {kept : D → D} → IsArchive ar kept → (d : D) → ar.read (ar.write d) ≡ kept d
  read-write_nil lawful d = rw append-nil at (lawful.read-write d [])

  -- Of a stored campaign or ad what is kept is retrieved, under its key.
  pub campaigns-Keeps : {kept : D → D} → IsArchive ar kept → Keeps campaigns kept
  unfolding campaigns
  campaigns-Keeps lawful = record {
    retrieve-store = λ k d. read-write_nil lawful d;
    key_of-store = λ k d. refl;
  }

  pub ads-Keeps : {kept : D → D} → IsArchive ar kept → Keeps ads kept
  unfolding ads
  ads-Keeps lawful = record {
    retrieve-store = λ k d. read-write_nil lawful d;
    key_of-store = λ k d. refl;
  }
