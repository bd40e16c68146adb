-- ===== src/Cache/Laws.antt =====
-- What a cache promises, over a lawful index and entities that keep what is stored in them.
use vanilla_rtb.Base.{
  ◌≡◌, ◌≢◌, sym, ap, ◌∙◌, ◌⊎◌, inl, inr, Bool, true, false, none, some, arith, Option-cases,
}
use vanilla_rtb.Cache.Index.{allocated, bad_alloc, UniqueIndex, IsLawful}
use vanilla_rtb.Cache.Entities.{Entity, Keeps}
use vanilla_rtb.Cache.{
  written, escaped, insert_data, insert, update_data, update, retrieve, remove, clear,
}

module _ {K Q D E C : Type 0} (ix : UniqueIndex K Q E C) (en : Entity K D E) where
  -- The index is keyed by the key that an entity stores.
  pub record IsCache (kept : D → D) : Type 0 where
    pub index_law : IsLawful ix
    pub entity_law : Keeps en kept
    pub same_key : (e : E) → ix.key e ≡ en.key_of e

  module _ {kept : D → D} (law : IsCache kept) where
    key-store : (k : K) (d : D) → ix.key (en.store k d) ≡ k
    key-store k d = law.same_key (en.store k d) ∙ law.entity_law.key_of-store k d

    retrieve-find :
        (k : K) (entry : D) (c c' : C)
        → ix.find k c' ≡ ix.find k c
        → retrieve ix en k entry c' ≡ retrieve ix en k entry c
    unfolding retrieve
    retrieve-find k entry c c' e = rw (e, retrieve)

    pub retrieve-some :
        (k : K) (entry : D) (c : C) (e : E)
        → ix.find k c ≡ some e
        → retrieve ix en k entry c ≡ (en.retrieve e, true)
    unfolding retrieve
    retrieve-some k entry c e h = rw (h, retrieve)

    pub retrieve-none :
        (k : K) (entry : D) (c : C) → ix.find k c ≡ none → retrieve ix en k entry c ≡ (entry, false)
    unfolding retrieve
    retrieve-none k entry c h = rw (h, retrieve)

    -- What an insertion has done to a cache that answers `c` before and `c'` after.
    pub record Inserted (k : K) (d : D) (c c' : C) (ok : Bool) : Type 0 where
      pub stored : (entry : D) → ok ≡ true → retrieve ix en k entry c' ≡ (kept d, true)
      pub was_free : (entry : D) → ok ≡ true → retrieve ix en k entry c ≡ (entry, false)
      pub refused : (entry : D) → ok ≡ false → retrieve ix en k entry c' ≡ retrieve ix en k entry c
      pub was_taken : (entry : D) → ok ≡ false → (retrieve ix en k entry c).1 ≡ true
      pub others :
          (j : K) (entry : D) → j ≢ k → retrieve ix en j entry c' ≡ retrieve ix en j entry c

    insert_data-Inserted :
        (k : K) (d : D) (c c' : C) (ok : Bool)
        → insert_data ix en k d c ≡ allocated (c', ok)
        → Inserted k d c c' ok
    unfolding insert_data
    insert_data-Inserted k d c c' ok h = elim (Option-cases (ix.find k c)) [
      | inl free ↦
          let (done, found, rest) =
            rw (key-store k d) at
              (law.index_law.insert_new (en.store k d) c c' ok h (rw (key-store k d) free)) in
          record {
            stored = λ entry _.
                retrieve-some k entry c' (en.store k d) found
                ∙ ap (λ (x : D). (x, true)) (law.entity_law.retrieve-store k d);
            was_free = λ entry _. retrieve-none k entry c free;
            refused = λ entry no_. cc;
            was_taken = λ entry no_. cc;
            others = λ j entry ne. retrieve-find j entry c c' (rest j ne);
          }
      | inr (x, taken) ↦
          let (done, rest) =
            law.index_law.insert_taken (en.store k d) x c c' ok h (rw (key-store k d) taken) in
          record {
            stored = λ entry yes_. cc;
            was_free = λ entry yes_. cc;
            refused = λ entry _. retrieve-find k entry c c' (rest k);
            was_taken = λ entry _. ap (λ (r : D × Bool). r.1) (retrieve-some k entry c x taken);
            others = λ j entry ne. retrieve-find j entry c c' (rest j);
          }
    ]

    insert-tries :
        (k : K) (d : D) (c c' : C) (ok : Bool)
        → insert ix en k d c ≡ written c' ok
        → (insert_data ix en k d c ≡ allocated (c', ok))
          ⊎ (insert_data ix en k d (ix.grow c) ≡ allocated (c', ok))
    unfolding insert
    insert-tries k d c c' ok h = ground arith

    pub retrieve-grow :
        (k : K) (entry : D) (c : C) → retrieve ix en k entry (ix.grow c) ≡ retrieve ix en k entry c
    retrieve-grow k entry c = retrieve-find k entry c (ix.grow c) (law.index_law.grow_keeps k c)

    -- An insertion that returns, with or without growing the segment, stores what is kept of the data under a free
    -- key, leaves a taken key alone, and answers which of the two it was; no other entry changes.
    pub insert-Inserted :
        (k : K) (d : D) (c c' : C) (ok : Bool)
        → insert ix en k d c ≡ written c' ok
        → Inserted k d c c' ok
    insert-Inserted k d c c' ok h = elim (insert-tries k d c c' ok h) [
      | inl at_once ↦ insert_data-Inserted k d c c' ok at_once
      | inr grown ↦
          let after = insert_data-Inserted k d (ix.grow c) c' ok grown in
          record {
            stored = after.stored;
            was_free = λ entry e. sym (retrieve-grow k entry c) ∙ after.was_free entry e;
            refused = λ entry e. after.refused entry e ∙ retrieve-grow k entry c;
            was_taken = λ entry e. rw (retrieve-grow k entry c) at (after.was_taken entry e);
            others = λ j entry ne. after.others j entry ne ∙ retrieve-grow j entry c;
          }
    ]

    -- What an update under one key has done.
    pub record Updated (k : K) (d : D) (c c' : C) (ok : Bool) : Type 0 where
      pub answered : (entry : D) → (retrieve ix en k entry c).1 ≡ ok
      pub stored : (entry : D) → ok ≡ true → retrieve ix en k entry c' ≡ (kept d, true)
      pub missing : (entry : D) → ok ≡ false → retrieve ix en k entry c' ≡ (entry, false)
      pub others :
          (j : K) (entry : D) → j ≢ k → retrieve ix en j entry c' ≡ retrieve ix en j entry c

    update-tries :
        (k : K) (d : D) (c c' : C) (ok : Bool)
        → update ix en k k d c ≡ written c' ok
        → ((ix.find k c ≡ none) × (c' ≡ c) × (ok ≡ false))
          ⊎ ((x : E) × (ix.find k c ≡ some x) × (ix.modify k (en.store k d) c ≡ allocated (c', ok)))
    unfolding update update_data
    update-tries k d c c' ok h = ground arith

    -- An update under an unchanged key that does not run out of memory puts what is kept of the data in the place
    -- of the data that is there, answers whether there was any, and changes no other entry.
    pub update-Updated :
        (k : K) (d : D) (c c' : C) (ok : Bool)
        → update ix en k k d c ≡ written c' ok
        → Updated k d c c' ok
    update-Updated k d c c' ok h = elim (update-tries k d c c' ok h) [
      | inl (free, same, missed) ↦ record {
        answered = λ entry. ap (λ (r : D × Bool). r.1) (retrieve-none k entry c free) ∙ sym missed;
        stored = λ entry yes_. cc;
        missing = λ entry _. retrieve-none k entry c' (ap (ix.find k) same ∙ free);
        others = λ j entry ne. retrieve-find j entry c c' (ap (ix.find j) same);
      }
      | inr (x, found, changed) ↦
          let (done, there, gone, rest) = rw (key-store k d) at (
            law.index_law.modify_free k (en.store k d) x c c' ok changed found
              (λ ne. absurd (ne (key-store k d)))) in
          record {
            answered =
                λ entry. ap (λ (r : D × Bool). r.1) (retrieve-some k entry c x found) ∙ sym done;
            stored = λ entry _.
                retrieve-some k entry c' (en.store k d) there
                ∙ ap (λ (y : D). (y, true)) (law.entity_law.retrieve-store k d);
            missing = λ entry no_. cc;
            others = λ j entry ne. retrieve-find j entry c c' (rest j ne ne);
          }
    ]

    -- An update that runs out of memory at the element that it was to change retries past the end of
    -- its range: it never comes back with the element changed.
    pub update_bad_alloc :
        (arg k : K) (d : D) (c : C) (e : E)
        → ix.find arg c ≡ some e
        → update_data ix en arg k d c ≡ bad_alloc
        → update ix en arg k d c ≡ escaped (ix.grow c)
    unfolding update
    update_bad_alloc arg k d c e found full = rw (found, update) (rw full)

    -- A removed key is gone, and every other entry stays.
    pub retrieve-remove :
        (k : K) (entry : D) (c : C)
        → (retrieve ix en k entry (remove ix en k c) ≡ (entry, false))
          × ((j : K) → j ≢ k → retrieve ix en j entry (remove ix en k c) ≡ retrieve ix en j entry c)
    unfolding remove
    retrieve-remove k entry c = (
      retrieve-none k entry _ (law.index_law.erase_self k c),
      λ j ne. retrieve-find j entry c _ (law.index_law.erase_other k j c ne),
    )

    -- A cleared cache answers nothing.
    pub retrieve-clear :
        (k : K) (entry : D) (c : C) → retrieve ix en k entry (clear ix en c) ≡ (entry, false)
    unfolding clear
    retrieve-clear k entry c = retrieve-none k entry _ (law.index_law.clear_all k c)

    -- An answer `false` leaves the caller's entry as it is.
    pub retrieve_missing :
        (k : K) (entry : D) (c : C)
        → (retrieve ix en k entry c).1 ≡ false
        → retrieve ix en k entry c ≡ (entry, false)
    unfolding retrieve
    retrieve_missing k entry c h = ground arith
