-- ===== src/Result.antt =====
-- What a call gives back: a value, or what it throws (src/errors.ts). A message is reduced to the
-- check that it reports.
pub data Error : Type 0 where
  key_too_long value_too_long entry_too_large ttl_out_of_range generation_exhausted no_transaction
        not_numeric not_finite invalid_snapshot duplicate_key bad_deadline json_limit json_invalid
        transaction_finished protocol_error empty_channel :
      Error

pub data Result {ℓ} (A : Type ℓ) : Type ℓ where
  ok : A → Result A
  err : Error → Result A
