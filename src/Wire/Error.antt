-- ===== src/Wire/Error.antt =====
-- serialize_util.rs: `DeserializeError`, with one constructor for each message.
use stacks_encoding_native_j.Prelude.{ℕ, zero, suc, Option, none, ◌≡◌, refl}

pub data DeserializeError : Type 0 where
  -- `UnexpectedEof`, from a read behind the end of the slice
  io_error : DeserializeError
  contract_name_length : ℕ → DeserializeError
  contract_name_not_utf8 : DeserializeError
  clarity_name_too_long : ℕ → DeserializeError
  clarity_name_not_utf8 : DeserializeError
  type_signature_too_deep : ℕ → DeserializeError
  unknown_asset_info_id : ℕ → DeserializeError
  unknown_principal_id : ℕ → DeserializeError
  bad_fungible_condition_code : ℕ → DeserializeError
  bad_nonfungible_condition_code : ℕ → DeserializeError
  bad_asset_value : DeserializeError → DeserializeError
  invalid_anchor_mode : ℕ → DeserializeError
  invalid_post_condition_mode : ℕ → DeserializeError
  unrecognized_auth_flags : ℕ → DeserializeError
  invalid_hash_mode : ℕ → DeserializeError
  unknown_singlesig_hash_mode : ℕ → DeserializeError
  unknown_multisig_hash_mode : ℕ → DeserializeError
  unknown_key_encoding : ℕ → DeserializeError
  incompatible_hash_mode : DeserializeError
  too_many_signatures : DeserializeError
  wrong_signature_count : ℕ → ℕ → DeserializeError
  expected_compressed_keys : DeserializeError
  unknown_auth_field_id : ℕ → DeserializeError
  unknown_payload_id : ℕ → DeserializeError

-- `impl From<&str> for DeserializeError`: `from` calls `err.into()`, which is `from` again. The
-- argument is how many of these calls are followed; `none` means that no value was returned by
-- then. The text is left out, as that of all errors.
unfoldable pub from_str : ℕ → Option DeserializeError
from_str zero = none
from_str (suc calls) = from_str calls

-- The conversion of a plain string into an error returns after no number of calls.
pub from_str-eq-none : (calls : ℕ) → from_str calls ≡ none
unfolding from_str
from_str-eq-none zero = refl
from_str-eq-none (suc calls) = from_str-eq-none calls
