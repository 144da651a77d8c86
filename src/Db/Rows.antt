-- ===== src/Db/Rows.antt =====
-- The filings table by its primary key.
use evnt_trden_public.Base.{
  ◌≡◌, refl, true, false, is_some, List, [], ◌∷◌, ◌++◌, map, if◌then◌else◌, Text, text_eq,
  text_eq_iff, one_of, or_else, map_option, arith,
}
use evnt_trden_public.Db.{Filing, get_filing, update_filing}

abbrev pub filing_ids : List Filing → List Text
filing_ids = map (λ f. f.filing_id)

-- The primary key: no id stands twice.
abbrev pub NodupIds : List Text → Type 0
NodupIds [] = Unit
NodupIds (t ∷ ts) = (one_of ts t ≡ false) × NodupIds ts

pub get_filing-append :
    (id : Text) (fs gs : List Filing)
    → get_filing id (fs ++ gs) ≡ or_else (get_filing id fs) (get_filing id gs)
unfolding get_filing
get_filing-append id [] gs = refl
get_filing-append id (f ∷ fs) gs = ground (arith, get_filing-append id fs gs)

-- A row is found exactly if its id is among the table's.
pub is_some-get_filing :
    (id : Text) (fs : List Filing) → is_some (get_filing id fs) ≡ one_of (filing_ids fs) id
unfolding get_filing one_of
is_some-get_filing id [] = refl
is_some-get_filing id (f ∷ fs) =
    ground (arith, is_some-get_filing id fs, text_eq_iff f.filing_id id, text_eq_iff id f.filing_id)

pub one_of-append :
    (ss ts : List Text) (t : Text)
    → one_of (ss ++ ts) t ≡ (if one_of ss t then true else one_of ts t)
unfolding one_of
one_of-append [] ts t = refl
one_of-append (s ∷ ss) ts t = ground (arith, one_of-append ss ts t)

-- A change that keeps the id changes the row of that id and no other.
pub get_filing-update_filing :
    (id j : Text) (change : Filing → Filing) (fs : List Filing)
    → ((f : Filing) → (change f).filing_id ≡ f.filing_id)
    → get_filing j (update_filing id change fs)
      ≡ (if text_eq id j then map_option change (get_filing j fs) else get_filing j fs)
unfolding get_filing update_filing
get_filing-update_filing id j change [] keeps = ground arith
get_filing-update_filing id j change (f ∷ fs) keeps = ground (
  arith,
  keeps f,
  text_eq_iff f.filing_id id,
  text_eq_iff f.filing_id j,
  text_eq_iff id j,
  get_filing-update_filing id j change fs keeps,
)
