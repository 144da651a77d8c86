-- ===== src/Ingest/Index/Alone.antt =====
-- An insertion with no other writer of the table, and insertions one after the other.
use evnt_trden_public.Base.{
  ◌≡◌, refl, sym, ap, ◌∙◌, true, false, ◌||◌, List, [], ◌∷◌, ◌++◌, append_assoc, append-nil, map,
  keep, Text, text_eq_iff, text_eq_refl, one_of, arith, All, Bool-cases, inl, inr,
}
use mathlib.Core.List.{map-append}
use evnt_trden_public.Db.{Filing}
use evnt_trden_public.Db.Rows.{NodupIds, filing_ids, one_of-append}
use evnt_trden_public.Ingest.Index.{new_entries_onto, new_entries, insert_rows, insert_new_filings}
use evnt_trden_public.Ingest.Index.Entries.{
  eq_nil_of_find, find_entry-new_entries, is_some-find_entry, new_entries-NodupIds,
}
use evnt_trden_public.Ingest.Index.Insert.{run_lem, filing_ids-row_of}

-- Rows whose keys are free and differ are all appended.
insert_rows_free :
    (rows table : List Filing)
    → NodupIds (filing_ids rows)
    → ((id : Text) → one_of (filing_ids rows) id ≡ true → one_of (filing_ids table) id ≡ false)
    → insert_rows rows table ≡ (table ++ rows, filing_ids rows)
unfolding insert_rows one_of
insert_rows_free [] table n free = ap (λ t. (t, [])) (sym (append-nil table))
insert_rows_free (f ∷ rows) table n free =
    rw (free f.filing_id (ground (arith, text_eq_refl f.filing_id))) (
      let later = insert_rows_free rows (table ++ f ∷ []) n.1 λ id h. ground (
        arith,
        h,
        n.0,
        free id,
        map-append (λ (g : Filing). g.filing_id) table (f ∷ []),
        one_of-append (filing_ids table) (f.filing_id ∷ []) id,
        text_eq_iff id f.filing_id,
      ) in
      rw later (ap (λ t. (t, f.filing_id ∷ filing_ids rows)) (append_assoc table (f ∷ []) rows)))

module _ {E : Type 0} (entry_id : E → Text) where
  keep_known :
      (ids : List Text) (es : List E)
      → ((id : Text) → one_of (map entry_id es) id ≡ true → one_of ids id ≡ true)
      → keep (λ x. one_of ids (entry_id x)) es ≡ es
  unfolding one_of
  keep_known ids [] known = refl
  keep_known ids (e ∷ es) known =
      rw (known (entry_id e) (ground (arith, text_eq_refl (entry_id e))))
        (ap (◌∷◌ e) (keep_known ids es (λ id h. known id (ground arith))))

  -- Only which ids are known matters.
  new_entries_onto_congr :
      (existing existing' seen seen' : List Text) (entries : List E)
      → ((id : Text)
          → (one_of existing id || one_of seen id) ≡ (one_of existing' id || one_of seen' id))
      → new_entries_onto entry_id existing seen entries
        ≡ new_entries_onto entry_id existing' seen' entries
  unfolding new_entries_onto one_of
  new_entries_onto_congr existing existing' seen seen' [] same = refl
  new_entries_onto_congr existing existing' seen seen' (e ∷ entries) same = ground (
    arith,
    same (entry_id e),
    new_entries_onto_congr existing existing' seen seen' entries same,
    new_entries_onto_congr existing existing' (entry_id e ∷ seen) (entry_id e ∷ seen') entries
        (λ id. ground (arith, same id)),
  )

  new_entries_onto-append :
      (existing seen : List Text) (xs ys : List E)
      → let first = new_entries_onto entry_id existing seen xs in
        new_entries_onto entry_id existing seen (xs ++ ys)
        ≡ first ++ new_entries_onto entry_id (existing ++ map entry_id first) seen ys
  unfolding new_entries_onto
  new_entries_onto-append existing seen [] ys =
      ap (λ ids. new_entries_onto entry_id ids seen ys) (sym (append-nil existing))
  new_entries_onto-append existing seen (x ∷ xs) ys =
      elim (Bool-cases (one_of existing (entry_id x) || one_of seen (entry_id x))) [
        | inl old ↦ rw old (new_entries_onto-append existing seen xs ys)
        | inr new ↦ rw new (
            ap (◌∷◌ x) (
              new_entries_onto-append existing (entry_id x ∷ seen) xs ys
              ∙ ap (◌++◌ (new_entries_onto entry_id existing (entry_id x ∷ seen) xs)) (
                  let later = new_entries_onto entry_id existing (entry_id x ∷ seen) xs in
                  new_entries_onto_congr (existing ++ map entry_id later)
                    (existing ++ entry_id x ∷ map entry_id later) (entry_id x ∷ seen) seen ys
                    λ id.
                      unfold one_of in
                      ground (
                        arith,
                        one_of-append existing (map entry_id later) id,
                        one_of-append existing (entry_id x ∷ map entry_id later) id,
                      ))))
      ]

  new_entries_onto-All :
      (P : E → Type 0) (existing seen : List Text) (es : List E)
      → All P es
      → All P (new_entries_onto entry_id existing seen es)
  unfolding new_entries_onto
  new_entries_onto-All P existing seen [] h = tt
  new_entries_onto-All P existing seen (e ∷ es) (p, h) =
      elim (Bool-cases (one_of existing (entry_id e) || one_of seen (entry_id e))) [
        | inl old ↦ rw old (new_entries_onto-All P existing seen es h)
        | inr new ↦ rw new (p, new_entries_onto-All P existing (entry_id e ∷ seen) es h)
      ]

  -- The new entries of two lists are those of the first, and those of the second that are new still.
  pub new_entries-append :
      (existing : List Text) (xs ys : List E)
      → let first = new_entries entry_id xs existing in
        new_entries entry_id (xs ++ ys) existing
        ≡ first ++ new_entries entry_id ys (existing ++ map entry_id first)
  unfolding new_entries
  new_entries-append existing xs ys = new_entries_onto-append existing [] xs ys

  -- Once they are stored nothing is new.
  pub new_entries_again :
      (existing : List Text) (es : List E)
      → new_entries entry_id es (existing ++ map entry_id (new_entries entry_id es existing)) ≡ []
  new_entries_again existing es =
      let known = existing ++ map entry_id (new_entries entry_id es existing) in
      eq_nil_of_find entry_id (new_entries entry_id es known) λ id. ground (
        arith,
        find_entry-new_entries entry_id es known id,
        find_entry-new_entries entry_id es existing id,
        one_of-append existing (map entry_id (new_entries entry_id es existing)) id,
        is_some-find_entry entry_id id (new_entries entry_id es existing),
      )

  pub new_entries-All :
      (P : E → Type 0) (existing : List Text) (es : List E)
      → All P es
      → All P (new_entries entry_id es existing)
  unfolding new_entries
  new_entries-All P existing es = new_entries_onto-All P existing [] es

  new_entries_free :
      (entries : List E) (existing : List Text) (id : Text)
      → one_of (map entry_id (new_entries entry_id entries existing)) id ≡ true
      → one_of existing id ≡ false
  new_entries_free entries existing id h = ground (
    arith,
    is_some-find_entry entry_id id (new_entries entry_id entries existing),
    find_entry-new_entries entry_id entries existing id,
  )

  module _ (row_of : E → Filing) (row_id : (e : E) → (row_of e).filing_id ≡ entry_id e) where
    -- With no other writer the new entries' rows are appended, and just these entries returned.
    pub insert_new_filings_alone :
        (entries : List E) (table : List Filing)
        → let new = new_entries entry_id entries (filing_ids table) in
          insert_new_filings entry_id (λ t. t) row_of entries table ≡ (table ++ map row_of new, new)
    insert_new_filings_alone entries table =
        let new = new_entries entry_id entries (filing_ids table) in
        let same = filing_ids-row_of entry_id row_of row_id new in
        run_lem entry_id row_of row_id (λ t. t) entries table
        ∙ rw
            (insert_rows_free (map row_of new) table
              (rw same (new_entries-NodupIds entry_id entries (filing_ids table)))
              (rw same (new_entries_free entries (filing_ids table))))
            (ap (λ es. (table ++ map row_of new, es)) (keep_known _ new (rw same (λ id h. h))))

    -- So an insertion after another is one insertion of both.
    pub insert_new_filings-append :
        (xs ys : List E) (table : List Filing)
        → let (stored, first) = insert_new_filings entry_id (λ t. t) row_of xs table in
          let (last, second) = insert_new_filings entry_id (λ t. t) row_of ys stored in
          insert_new_filings entry_id (λ t. t) row_of (xs ++ ys) table ≡ (last, first ++ second)
    insert_new_filings-append xs ys table =
        let first = new_entries entry_id xs (filing_ids table) in
        let known = filing_ids table ++ map entry_id first in
        let second = new_entries entry_id ys known in
        let ids : filing_ids (table ++ map row_of first) ≡ known =
          map-append (λ (f : Filing). f.filing_id) table (map row_of first)
          ∙ ap (◌++◌ (filing_ids table)) (filing_ids-row_of entry_id row_of row_id first) in
        rw
          (
            insert_new_filings_alone xs table,
            insert_new_filings_alone ys (table ++ map row_of first),
            insert_new_filings_alone (xs ++ ys) table,
            ids,
            new_entries-append (filing_ids table) xs ys,
            map-append,
          )
          (ap (λ t. (t, first ++ second))
            (sym (append_assoc table (map row_of first) (map row_of second))))
