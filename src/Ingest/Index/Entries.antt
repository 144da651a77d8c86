-- ===== src/Ingest/Index/Entries.antt =====
-- `new_entries` keeps the first entry of each new filing, and nothing else.
use evnt_trden_public.Base.{
  ◌≡◌, refl, ◌∙◌, false, ◌||◌, Option, none, some, is_some, List, [], ◌∷◌, map, if◌then◌else◌, Text,
  text_eq, text_eq_iff, text_eq_refl, one_of, arith, Bool-cases, inl, inr,
}
use evnt_trden_public.Db.Rows.{NodupIds}
use evnt_trden_public.Ingest.Index.{new_entries_onto, new_entries}

module _ {E : Type 0} (entry_id : E → Text) where
  -- The first entry of a filing.
  unfoldable pub find_entry : Text → List E → Option E
  find_entry id [] = none
  find_entry id (e ∷ entries) =
      let rest = find_entry id entries in if text_eq (entry_id e) id then some e else rest

  find_entry-new_entries_onto :
      (existing seen : List Text) (entries : List E) (id : Text)
      → find_entry id (new_entries_onto entry_id existing seen entries)
        ≡ (if one_of existing id || one_of seen id then none else find_entry id entries)
  unfolding find_entry new_entries_onto one_of
  find_entry-new_entries_onto existing seen [] id = ground arith
  find_entry-new_entries_onto existing seen (e ∷ entries) id = ground (
    arith,
    text_eq_iff (entry_id e) id,
    text_eq_iff id (entry_id e),
    find_entry-new_entries_onto existing seen entries id,
    find_entry-new_entries_onto existing (entry_id e ∷ seen) entries id,
  )

  -- Of the entries of a filing that is not stored yet the first one is kept; of a stored one, none.
  pub find_entry-new_entries :
      (entries : List E) (existing : List Text) (id : Text)
      → find_entry id (new_entries entry_id entries existing)
        ≡ (if one_of existing id then none else find_entry id entries)
  unfolding new_entries one_of
  find_entry-new_entries entries existing id =
      find_entry-new_entries_onto existing [] entries id ∙ ground arith

  pub is_some-find_entry :
      (id : Text) (entries : List E)
      → is_some (find_entry id entries) ≡ one_of (map entry_id entries) id
  unfolding find_entry one_of
  is_some-find_entry id [] = refl
  is_some-find_entry id (e ∷ entries) = ground (
    arith,
    is_some-find_entry id entries,
    text_eq_iff (entry_id e) id,
    text_eq_iff id (entry_id e),
  )

  -- What was seen is not kept again.
  seen_again :
      (existing seen : List Text) (entries : List E) (id : Text)
      → one_of (map entry_id (new_entries_onto entry_id existing (id ∷ seen) entries)) id ≡ false
  unfolding one_of
  seen_again existing seen entries id = ground (
    arith,
    is_some-find_entry id (new_entries_onto entry_id existing (id ∷ seen) entries),
    find_entry-new_entries_onto existing (id ∷ seen) entries id,
    text_eq_refl id,
  )

  new_entries_onto-NodupIds :
      (existing seen : List Text) (entries : List E)
      → NodupIds (map entry_id (new_entries_onto entry_id existing seen entries))
  unfolding new_entries_onto
  new_entries_onto-NodupIds existing seen [] = tt
  new_entries_onto-NodupIds existing seen (e ∷ entries) =
      elim (Bool-cases (one_of existing (entry_id e) || one_of seen (entry_id e))) [
        | inl old ↦ rw old (new_entries_onto-NodupIds existing seen entries)
        | inr new ↦ rw new (
          seen_again existing seen entries (entry_id e),
          new_entries_onto-NodupIds existing (entry_id e ∷ seen) entries,
        )
      ]

  -- No filing is kept twice.
  pub new_entries-NodupIds :
      (entries : List E) (existing : List Text)
      → NodupIds (map entry_id (new_entries entry_id entries existing))
  unfolding new_entries
  new_entries-NodupIds entries existing = new_entries_onto-NodupIds existing [] entries

  pub eq_nil_of_find : (es : List E) → ((id : Text) → find_entry id es ≡ none) → es ≡ []
  unfolding find_entry
  eq_nil_of_find [] h = refl
  eq_nil_of_find (e ∷ es) h = ground (arith, h (entry_id e), text_eq_refl (entry_id e))
