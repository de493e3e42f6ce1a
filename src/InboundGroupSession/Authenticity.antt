-- ===== src/InboundGroupSession/Authenticity.antt =====
-- Messages from anyone in src/inbound_group_session.c.
use olm.Base.{
  ℕ, ◌-◌, ◌^◌, Bytes, Option, none, some, length, take, drop, ltb, ◌==◌, Bool-cases, Option-cases,
  inl, inr, ◌≡◌, refl,
}
use olm.Base64.{decode_base64}
use olm.Crypto.External.{Primitives}
use olm.Crypto.{Decrypted, plaintext, failed, fault, crypto_ed25519_verify}
use olm.Cipher.{decrypt, decrypt_max_plaintext_length}
use olm.Megolm.{megolm_get_data, megolm_cipher}
use olm.Message.{decode_group_message}
use olm.InboundGroupSession.{InboundGroupSession}
use olm.InboundGroupSession.Ratchet.{counter_minus, get_megolm}
use olm.InboundGroupSession.Decryption.{
  decrypt_verified, decrypt_fields, decrypt_raw, group_decrypt,
}

-- Same first ratchet, same signing key.
pub record Keeps (session after : InboundGroupSession) : Type 0 where
  pub same_initial : after.initial_ratchet ≡ session.initial_ratchet
  pub same_key : after.signing_key ≡ session.signing_key

abbrev unchanged : (session : InboundGroupSession) → Keeps session session
unchanged session = record { same_initial = refl; same_key = refl }

data Opened (d : Decrypted) : Type 0 where
  opened : (plain : Bytes) → d ≡ plaintext plain → Opened d
  not_opened : d ≡ failed → Opened d
  out_of_bounds : d ≡ fault → Opened d

Decrypted-cases : (d : Decrypted) → Opened d
Decrypted-cases (plaintext plain) = opened plain refl
Decrypted-cases failed = not_opened refl
Decrypted-cases fault = out_of_bounds refl

module _ (p : Primitives) where
  get_megolm-Keeps :
      (session : InboundGroupSession) (index : ℕ) → Keeps session (get_megolm p session index).0
  unfolding get_megolm
  get_megolm-Keeps session index =
      elim (Bool-cases (ltb (counter_minus index session.latest_ratchet.counter) (2 ^ 31))) [
        | inl near ↦ rw near (record { same_initial = refl; same_key = refl })
        | inr far ↦
            elim (Bool-cases (ltb (counter_minus index session.initial_ratchet.counter) (2 ^ 31))) [
              | inl after ↦ rw (far, after) (unchanged session)
              | inr before ↦ rw (far, before) (record { same_initial = refl; same_key = refl })
            ]
      ]

  decrypt_verified-Keeps :
      (session : InboundGroupSession) (message : Bytes) (index : ℕ) (ct : Bytes) (max : ℕ)
      → Keeps session (decrypt_verified p session message index ct max).0
  unfolding decrypt_verified
  decrypt_verified-Keeps session message index ct max =
      let k = get_megolm-Keeps session index in
      elim (Option-cases (get_megolm p session index).1) [
        | inl e ↦ rw (e, decrypt_verified) k
        | inr (m, e) ↦
            elim (Decrypted-cases (decrypt p megolm_cipher (megolm_get_data m) message ct max)) [
              | opened plain d ↦
                  rw (e, d, decrypt_verified)
                    (record { same_initial = k.same_initial; same_key = k.same_key })
              | not_opened d ↦
                  rw (e, d, decrypt_verified)
                    (record { same_initial = k.same_initial; same_key = k.same_key })
              | out_of_bounds d ↦ rw (e, d, decrypt_verified) k
            ]
      ]

  decrypt_fields-Keeps :
      (session : InboundGroupSession) (message : Bytes) (index : ℕ) (ct : Option Bytes) (max : ℕ)
      → Keeps session (decrypt_fields p session message index ct max).0
  unfolding decrypt_fields decrypt_max_plaintext_length
  decrypt_fields-Keeps session message index none max = record {
    same_initial = refl;
    same_key = refl;
  }
  decrypt_fields-Keeps session message index (some ct) max =
      let signed = take (length message - 64) message in
      let signature = drop (length message - 64) message in
      let k = decrypt_verified-Keeps session signed index ct max in
      elim (Bool-cases (crypto_ed25519_verify p session.signing_key signed signature)) [
        | inl valid ↦ elim (Bool-cases (ltb max (length ct))) [
          | inl small ↦ rw (valid, small) (record { same_initial = refl; same_key = refl })
          | inr room ↦ rw (valid, room) k
        ]
        | inr invalid ↦ rw invalid (record { same_initial = refl; same_key = refl })
      ]

  decrypt_raw-Keeps :
      (session : InboundGroupSession) (message : Bytes) (max : ℕ)
      → Keeps session (decrypt_raw p session message max).0
  unfolding decrypt_raw
  decrypt_raw-Keeps session message max = elim (Option-cases (decode_group_message message 8 64)) [
    | inl e ↦ rw (e, decrypt_raw) (unchanged session)
    | inr (r, e) ↦ elim (Bool-cases (r.version == 3)) [
      | inl version ↦ elim (Bool-cases r.has_message_index) [
        | inl found ↦
            rw (e, version, found, decrypt_raw)
              (decrypt_fields-Keeps session message r.message_index r.ciphertext max)
        | inr missing ↦
            rw (e, version, missing, decrypt_raw) (record { same_initial = refl; same_key = refl })
      ]
      | inr other ↦ rw (e, other, decrypt_raw) (record { same_initial = refl; same_key = refl })
    ]
  ]

  -- On every message and buffer size, whatever the outcome, `group_decrypt` leaves the initial
  -- ratchet and the signing key of the session as they were.
  pub group_decrypt-Keeps :
      (session : InboundGroupSession) (message : Bytes) (max : ℕ)
      → Keeps session (group_decrypt p session message max).0
  unfolding group_decrypt
  group_decrypt-Keeps session message max = elim (Option-cases (decode_base64 message)) [
    | inl e ↦ rw (e, group_decrypt) (record { same_initial = refl; same_key = refl })
    | inr (raw, e) ↦ rw (e, group_decrypt) (decrypt_raw-Keeps session raw max)
  ]
