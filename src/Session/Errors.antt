-- ===== src/Session/Errors.antt =====
-- Calls of src/session.cpp that fail, and messages that it reads through a null pointer.
use olm.Base.{
  ℕ, Bytes, Bool, true, Option, none, some, List-cases, ◌≡◌, ◌≢◌, ◌∙◌, sym, refl, arith, ap, inl,
  inr, Option-cases,
}
use olm.Error.{ErrorCode, success, code_number}
use olm.Crypto.External.{Primitives}
use olm.Crypto.{Decrypted, plaintext, failed, fault}
use olm.Message.PreKey.{PreKeyMessageReader, decode_one_time_key_message}
use olm.Ratchet.{Ratchet, Received, ratchet_fail}
use olm.Ratchet.Decryption.{ratchet_decrypt, accept_new_chain, pass_message}
use olm.Ratchet.Cases.{Outcomes, ratchet_decrypt_case}
use olm.Ratchet.Failure.{Unopened, ratchet_decrypt-Unopened}
use olm.Account.{Account}
use olm.Session.{
  Session, MessageType, session_fail, take_ratchet_error, message_body, session_decrypt,
}
use olm.Session.Starting.{
  stray, is_present, agrees, load_keys, check_message_fields, new_inbound_session,
}

load_keys_missing :
    (session : Session) (reader : PreKeyMessageReader)
    → reader.prekey ≡ none
    → load_keys session reader ≡ none
unfolding load_keys
load_keys_missing session reader h = ground (arith, h)

pub new_inbound_session_stray :
    (p : Primitives) (session : Session) (local_account : Account)
    (their_identity_key : Option Bytes) (text : Bytes) (reader : PreKeyMessageReader)
    → decode_one_time_key_message text ≡ some reader
    → check_message_fields reader (is_present their_identity_key) ≡ true
    → agrees their_identity_key reader.identity_key ≡ true
    → reader.prekey ≡ none
    → new_inbound_session p session local_account their_identity_key text ≡ (session, stray)
unfolding new_inbound_session
new_inbound_session_stray p session local_account their text reader h fields same missing =
    rw (h, new_inbound_session, fields, same, load_keys_missing session reader missing) refl

-- Between two calls the ratchet holds no error.
abbrev pub IsClear : Session → Type 0
IsClear session = session.ratchet.last_error ≡ success

-- A call that fails sets an error code, leaves none in the ratchet, and changes nothing else; a call
-- that opens a message leaves none in the ratchet.
unfoldable pub Failed : Session → Session × Decrypted → Type 0
Failed session (session', plaintext plain) = IsClear session'
Failed session (session', failed) =
    (session' ≡ session_fail session session'.last_error) × (code_number session'.last_error ≢ 0)
Failed session (session', fault) = session' ≡ session

-- A call of the ratchet that opens a message leaves the error code alone.
unfoldable Quiet : Ratchet → Ratchet × Decrypted → Type 0
Quiet session (session', plaintext plain) = session'.last_error ≡ session.last_error
Quiet session (session', failed) = Unit
Quiet session (session', fault) = Unit

accept_new_chain_quiet :
    (p : Primitives) (session : Ratchet) (reader : Received)
    → (accept_new_chain p session reader).0.last_error ≡ session.last_error
unfolding accept_new_chain
accept_new_chain_quiet p session reader = elim (List-cases session.sender_chain) [
  | inl e ↦ rw (e, accept_new_chain) refl
  | inr (sender, rest, e) ↦ rw (e, accept_new_chain) refl
]

Quiet-Outcomes :
    (p : Primitives) (session : Ratchet) (input : Bytes) → Outcomes p session input (Quiet session)
unfolding Quiet pass_message
Quiet-Outcomes p session input = record {
  on_refused = λ error h. tt;
  on_fault = tt;
  on_new_chain =
      λ reader sender senders plain r missing e near. accept_new_chain_quiet p session reader;
  on_skipped = λ reader max position at chain plain r found earlier tried. refl;
  on_chain = λ reader position chain plain r found later near. refl;
}

cleared :
    (session : Session) (ratchet : Ratchet)
    → IsClear session
    → ratchet ≡ ratchet_fail session.ratchet ratchet.last_error
    → ratchet_fail ratchet success ≡ session.ratchet
cleared session ratchet clear h =
    ap (λ (r : Ratchet). ratchet_fail r success) h
    ∙ ap (λ (e : ErrorCode). ratchet_fail session.ratchet e) (sym clear)

ending-Failed :
    (session : Session) (outcome : Ratchet × Decrypted)
    → IsClear session
    → Unopened session.ratchet outcome
    → Quiet session.ratchet outcome
    → Failed session (elim outcome.1 [
      | failed ↦ (take_ratchet_error session outcome.0, failed)
      | fault ↦ (record session { ratchet = outcome.0 }, fault)
      | plaintext plain ↦
          (record session { ratchet = outcome.0; received_message = true }, plaintext plain)
    ])
unfolding Failed Unopened Quiet
ending-Failed session (ratchet, plaintext plain) clear h q = q ∙ clear
ending-Failed session (ratchet, failed) clear (h, code) q = (
  ap (λ (r : Ratchet). record session { ratchet = r; last_error = ratchet.last_error })
      (cleared session ratchet clear h),
  code,
)
ending-Failed session (ratchet, fault) clear h q =
    ap (λ (r : Ratchet). record session { ratchet = r }) h

-- For a session whose ratchet holds no error, every message type and every text: where
-- `session_decrypt` fails, nothing of the session has changed but its error code, which is not the
-- one of success; where it would leave its buffers, nothing has changed; and where it opens the
-- message, the ratchet holds no error again.
pub session_decrypt-Failed :
    (p : Primitives) (session : Session) (message_type : MessageType) (text : Bytes) (max : ℕ)
    (sequential : Bool)
    → IsClear session
    → Failed session (session_decrypt p session message_type text max sequential)
unfolding session_decrypt
session_decrypt-Failed p session message_type text max sequential clear =
    elim (Option-cases (message_body message_type text)) [
      | inl e ↦ rw (e, session_decrypt) (unfold Failed code_number in (refl, omega arith))
      | inr (body, e) ↦
          rw (e, session_decrypt)
            (ending-Failed session (ratchet_decrypt p session.ratchet body max sequential) clear
              (ratchet_decrypt-Unopened p session.ratchet body max sequential)
              (ratchet_decrypt_case p session.ratchet body (Quiet session.ratchet)
                (Quiet-Outcomes p session.ratchet body) max sequential))
    ]
