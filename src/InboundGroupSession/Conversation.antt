-- ===== src/InboundGroupSession/Conversation.antt =====
-- A whole conversation over src/outbound_group_session.c and src/inbound_group_session.c: messages
-- sent one after another, and received in any order, with gaps and repetitions.
use olm.Base.{
  ℕ, zero, suc, ◌+◌, ◌%◌, ◌^◌, ◌≤◌, ◌<◌, Bytes, IsBytes, Option, none, some, List, [], ◌∷◌, All,
  length, replicate, length-replicate, ltb, Bool-cases, inl, inr, ◌≡◌, refl, sym, ap, arith, ◌∙◌,
}
use mathlib.Core.List.{map}
use olm.Base64.{encode_base64}
use olm.Crypto.External.{Primitives, PrimitiveLaws}
use olm.Crypto.{Decrypted, plaintext}
use olm.Cipher.{encrypt_ciphertext_length}
use olm.Megolm.{Megolm, megolm_advance}
use olm.Megolm.Advance.{advance_times}
use olm.Megolm.Ahead.{advance_times-add}
use olm.OutboundGroupSession.{OutboundGroupSession, group_encrypt_message_length, group_encrypt}
use olm.OutboundGroupSession.Encrypting.{group_message, next_session, group_encrypt_lem}
use olm.InboundGroupSession.{InboundGroupSession}
use olm.InboundGroupSession.Decryption.{group_decrypt}
use olm.InboundGroupSession.Following.{later, Follows}
use olm.InboundGroupSession.Exchange.{verified_at, opens-group_message}

-- What the receiver is to get.
abbrev pub all_opened : OutboundGroupSession → (ℕ → Bytes) → List ℕ → List (Option ℕ × Decrypted)
all_opened sender plain order =
    map (λ n. (some ((sender.ratchet.counter + n) % 2 ^ 32), plaintext (plain n))) order

later-lt : (j k : ℕ) → j < 2 ^ 31 → k < 2 ^ 31 → later j k < 2 ^ 31
later-lt j k hj hk = elim (Bool-cases (ltb k j)) [ inl e ↦ rw e hj | inr e ↦ rw e hk ]

module _ (p : Primitives) (sender : OutboundGroupSession) (plain : ℕ → Bytes) where
  -- A message with an output buffer of the length announced.
  abbrev send : OutboundGroupSession → Bytes → OutboundGroupSession × Option Bytes
  send session bytes =
      group_encrypt p session bytes
        (replicate (group_encrypt_message_length session (length bytes)) 0)

  -- The sender after `n` messages, of which message `i` says `plain i`, and the text of a message.
  unfoldable pub sender_after : ℕ → OutboundGroupSession
  sender_after zero = sender
  sender_after (suc n) = let before = sender_after n in (send before (plain n)).0

  unfoldable pub text_of : ℕ → Option Bytes
  text_of n = (send (sender_after n) (plain n)).1

  -- What a receiver gets from the messages with the given numbers, in that order.
  unfoldable pub receive_all : InboundGroupSession → ℕ → List ℕ → List (Option ℕ × Decrypted)
  receive_all session max [] = []
  receive_all session max (n ∷ order) = elim (text_of n) [
    | none ↦ []
    | some text ↦
        let (session', index, opened) = group_decrypt p session text max in
        (index, opened) ∷ receive_all session' max order
  ]

module _ (p : Primitives) (laws : PrimitiveLaws p) (sender : OutboundGroupSession)
    (plain : ℕ → Bytes) (plain_bytes : (n : ℕ) → IsBytes (plain n)) where
  sent :
      (session : OutboundGroupSession) (n : ℕ)
      → group_encrypt p session
          (plain n)
          (replicate (group_encrypt_message_length session (length (plain n))) 0)
        ≡ (next_session p session, some (encode_base64 (group_message p session (plain n))))
  sent session n =
      let zero_byte : ℕ = 0 in
      let size =
        length-replicate (group_encrypt_message_length session (length (plain n))) zero_byte in
      group_encrypt_lem p laws session (plain n) _ (plain_bytes n) (omega (arith, size))

  abbrev at : ℕ → OutboundGroupSession
  at n = record sender { ratchet = advance_times p n sender.ratchet }

  advance_times-suc :
      (n : ℕ) (m : Megolm) → megolm_advance p (advance_times p n m) ≡ advance_times p (suc n) m
  unfolding advance_times
  advance_times-suc n m =
      let e : n + 1 ≡ suc n = omega arith in
      sym (advance_times-add p n 1 m) ∙ ap (λ (k : ℕ). advance_times p k m) e

  sender_after-eq-at : (n : ℕ) → sender_after p sender plain n ≡ at n
  unfolding sender_after advance_times
  sender_after-eq-at zero = refl
  sender_after-eq-at (suc n) =
      ap (λ (r : OutboundGroupSession × Option Bytes). r.0) (sent (sender_after p sender plain n) n)
      ∙ ap (next_session p) (sender_after-eq-at n)
      ∙ ap (λ (r : Megolm). record sender { ratchet = r }) (advance_times-suc n sender.ratchet)

  text_of_lem :
      (n : ℕ) → text_of p sender plain n ≡ some (encode_base64 (group_message p (at n) (plain n)))
  unfolding text_of
  text_of_lem n =
      ap (λ (r : OutboundGroupSession × Option Bytes). r.1) (sent (sender_after p sender plain n) n)
      ∙ ap (λ (s : OutboundGroupSession). some (encode_base64 (group_message p s (plain n))))
          (sender_after-eq-at n)

  receive_all_step :
      (session session' : InboundGroupSession) (max n : ℕ) (order : List ℕ) (text : Bytes)
      → (index : Option ℕ) (opened : Decrypted) → text_of p sender plain n ≡ some text
      → group_decrypt p session text max ≡ (session', index, opened)
      → receive_all p sender plain session max (n ∷ order)
        ≡ (index, opened) ∷ receive_all p sender plain session' max order
  unfolding receive_all
  receive_all_step session session' max n order text index opened ht hd = rw (ht, hd, receive_all)

  verified_at-Follows :
      (session : InboundGroupSession) (j k : ℕ)
      → Follows p sender.ratchet j session
      → k < 2 ^ 31
      → Follows p sender.ratchet
          (later j k)
          (verified_at session (advance_times p (later j k) sender.ratchet))
  verified_at-Follows session j k f hk = record {
    initial_here = f.initial_here;
    latest_ahead = refl;
    counter_bits = f.counter_bits;
    in_reach = later-lt j k f.in_reach hk;
  }

  -- With primitives that keep the stated laws: A sender with a generated signing key encrypts
  -- messages one after another, message `n` saying `plain n`, each into a buffer of the announced
  -- length. A receiver that was shared at the sender's first ratchet, whose latest ratchet is `j`
  -- < 2 ^ 31 steps further and who holds the sender's public key, decrypts the messages with any
  -- list of numbers below 2 ^ 31, in any order, with gaps and repetitions: it gets the index and
  -- the plaintext of each of them. The plaintexts are bytes, and their ciphertexts are shorter
  -- than 2 ^ 64 and fit in the receiver's buffers.
  pub receive_all-eq-all_opened :
      (session : InboundGroupSession) (seed : Bytes) (j max : ℕ) (order : List ℕ)
      → Follows p sender.ratchet j session
      → sender.signing_key ≡ p.ed25519_create_keypair seed
      → session.signing_key ≡ sender.signing_key.public_key
      → ((n : ℕ) → encrypt_ciphertext_length (length (plain n)) < 2 ^ 64)
      → ((n : ℕ) → encrypt_ciphertext_length (length (plain n)) ≤ max)
      → All (λ n. n < 2 ^ 31) order
      → receive_all p sender plain session max order ≡ all_opened sender plain order
  unfolding receive_all
  receive_all-eq-all_opened session seed j max [] f hkey hsign small fits reach = refl
  receive_all-eq-all_opened session seed j max (n ∷ order) f hkey hsign small fits (hn, reach) =
      let m = sender.ratchet in
      let session' = verified_at session (advance_times p (later j n) m) in
      let opens =
        opens-group_message p laws (at n) session m seed (plain n) j n max refl hn f hkey hsign
          (plain_bytes n) (small n) (fits n) in
      receive_all_step session session' max n order _ _ _ (text_of_lem n) opens
      ∙ ap
          (λ (rest : List (Option ℕ × Decrypted)).
            (some ((m.counter + n) % 2 ^ 32), plaintext (plain n)) ∷ rest)
          (receive_all-eq-all_opened session' seed (later j n) max order
            (verified_at-Follows session j n f hn) hkey hsign small fits reach)
