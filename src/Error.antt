-- ===== src/Error.antt =====
-- src/error.c and include/olm/error.h: the error codes and their names.
use Prim.Native.String.{String}
use olm.Base.{ℕ, List, [], ◌∷◌, length, get_or, ltb, ◌==◌, if◌then◌else◌}

-- `enum OlmErrorCode`, in the order of its numbers.
pub data ErrorCode : Type 0 where
  success not_enough_random output_buffer_too_small bad_message_version : ErrorCode
  bad_message_format bad_message_mac bad_message_key_id invalid_base64 : ErrorCode
  bad_account_key unknown_pickle_version corrupted_pickle bad_session_key : ErrorCode
  unknown_message_index bad_legacy_account_pickle bad_signature : ErrorCode
  input_buffer_too_small sas_their_key_not_set pickle_extra_data : ErrorCode
  message_out_of_order already_decrypted_or_keys_skipped : ErrorCode
  max_message_gap_exceeded sender_chain_not_acknowledged : ErrorCode

abbrev errors : List String
errors =
    "SUCCESS" ∷ "NOT_ENOUGH_RANDOM" ∷ "OUTPUT_BUFFER_TOO_SMALL" ∷ "BAD_MESSAGE_VERSION"
    ∷ "BAD_MESSAGE_FORMAT" ∷ "BAD_MESSAGE_MAC" ∷ "BAD_MESSAGE_KEY_ID" ∷ "INVALID_BASE64"
    ∷ "BAD_ACCOUNT_KEY" ∷ "UNKNOWN_PICKLE_VERSION" ∷ "CORRUPTED_PICKLE" ∷ "BAD_SESSION_KEY"
    ∷ "UNKNOWN_MESSAGE_INDEX" ∷ "BAD_LEGACY_ACCOUNT_PICKLE" ∷ "BAD_SIGNATURE"
    ∷ "OLM_INPUT_BUFFER_TOO_SMALL" ∷ "OLM_SAS_THEIR_KEY_NOT_SET" ∷ "OLM_PICKLE_EXTRA_DATA"
    ∷ "OLM_MESSAGE_OUT_OF_ORDER" ∷ "OLM_ALREADY_DECRYPTED_OR_KEYS_SKIPPED"
    ∷ "OLM_MAX_MESSAGE_GAP_EXCEEDED" ∷ "OLM_SENDER_CHAIN_NOT_ACKNOWLEDGED" ∷ []

-- The number of a code. `255` is no code of the enumeration; the function below still names it.
unfoldable pub code_number : ErrorCode → ℕ
code_number success = 0
code_number not_enough_random = 1
code_number output_buffer_too_small = 2
code_number bad_message_version = 3
code_number bad_message_format = 4
code_number bad_message_mac = 5
code_number bad_message_key_id = 6
code_number invalid_base64 = 7
code_number bad_account_key = 8
code_number unknown_pickle_version = 9
code_number corrupted_pickle = 10
code_number bad_session_key = 11
code_number unknown_message_index = 12
code_number bad_legacy_account_pickle = 13
code_number bad_signature = 14
code_number input_buffer_too_small = 15
code_number sas_their_key_not_set = 16
code_number pickle_extra_data = 17
code_number message_out_of_order = 18
code_number already_decrypted_or_keys_skipped = 19
code_number max_message_gap_exceeded = 20
code_number sender_chain_not_acknowledged = 21

unfoldable pub error_to_string : ℕ → String
error_to_string error =
    if ltb error (length errors)
    then get_or errors error ""
    else if error == 255
    then "NO_UNPUBLISHED_PREKEY"
    else "UNKNOWN_ERROR"
