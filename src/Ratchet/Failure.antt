-- ===== src/Ratchet/Failure.antt =====
-- What a call of `decrypt` of src/ratchet.cpp that opens nothing leaves behind.
use olm.Base.{ℕ, Bytes, Bool, ◌≡◌, ◌≢◌, refl}
use olm.Error.{code_number}
use olm.Crypto.External.{Primitives}
use olm.Crypto.{Decrypted, plaintext, failed, fault}
use olm.Ratchet.{Ratchet, ratchet_fail}
use olm.Ratchet.Decryption.{ratchet_decrypt}
use olm.Ratchet.Cases.{Outcomes, ratchet_decrypt_case}

-- Nothing but the error code has changed, and it names an error where the call failed.
unfoldable pub Unopened : Ratchet → Ratchet × Decrypted → Type 0
Unopened session (session', plaintext plain) = Unit
Unopened session (session', failed) =
    (session' ≡ ratchet_fail session session'.last_error) × (code_number session'.last_error ≢ 0)
Unopened session (session', fault) = session' ≡ session

module _ (p : Primitives) where
  Unopened-Outcomes :
      (session : Ratchet) (input : Bytes) → Outcomes p session input (Unopened session)
  unfolding Unopened
  Unopened-Outcomes session input = record {
    on_refused = λ error h. (refl, h);
    on_fault = refl;
    on_new_chain = λ reader sender senders plain r missing e near. tt;
    on_skipped = λ reader max position at chain plain r found earlier tried. tt;
    on_chain = λ reader position chain plain r found later near. tt;
  }

  -- On every message, where `ratchet_decrypt` fails, nothing of the ratchet has changed but its
  -- error code, which is not the one of success; where it would leave its buffers, nothing has
  -- changed.
  pub ratchet_decrypt-Unopened :
      (session : Ratchet) (input : Bytes) (max : ℕ) (sequential : Bool)
      → Unopened session (ratchet_decrypt p session input max sequential)
  ratchet_decrypt-Unopened session input =
      ratchet_decrypt_case p session input (Unopened session) (Unopened-Outcomes session input)
