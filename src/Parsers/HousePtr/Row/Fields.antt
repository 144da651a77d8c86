-- ===== src/Parsers/HousePtr/Row/Fields.antt =====
-- What `finalize` puts into the fields of a transaction.
use evnt_trden_public.Base.{ℕ, ◌≡◌, some}
use evnt_trden_public.Parsers.HousePtr.{ParsedTransaction}
use evnt_trden_public.Parsers.HousePtr.Row.{OpenRecord, finalize, tx_type_of, owner_of}
use evnt_trden_public.Base.{arith}

module _ (r : OpenRecord) (i : ℕ) {t : ParsedTransaction} (done : finalize r i ≡ some t) where
  pub finalize-row_index : t.row_index ≡ i
  unfolding finalize
  finalize-row_index = ground arith

  pub finalize-tx_type : t.tx_type ≡ tx_type_of r.tx_type_raw r.is_partial
  unfolding finalize
  finalize-tx_type = ground arith

  pub finalize-owner : t.owner ≡ owner_of r.owner_word
  unfolding finalize
  finalize-owner = ground arith
