-- ===== src/Ratchet/Replay.antt =====
-- Calls of any number and order on a ratchet of src/ratchet.cpp, and a message that comes again.
use olm.Base.{
  ℕ, ◌≤◌, Bytes, Bool, List, [], ◌∷◌, ◌++◌, length, ◌≡◌, ◌≢◌, refl, ltb, List-cases, inl, inr,
}
use olm.Crypto.External.{Primitives, PrimitiveLaws}
use olm.Crypto.{Decrypted, plaintext}
use olm.Ratchet.{Ratchet}
use olm.Ratchet.Encrypting.{
  Encrypted, encrypt_random_length, encrypt_output_length, ratchet_encrypt, encrypt_on_chain,
  start_sender_chain,
}
use olm.Ratchet.Decryption.{ratchet_decrypt}
use olm.Ratchet.Cases.{if_case}
use olm.Ratchet.Invariant.{IsRatchet, ratchet_decrypt-IsRatchet, ratchet_encrypt-IsRatchet}
use olm.Ratchet.Counters.{IsDistinct}
use olm.Ratchet.Spent.{IsNumbered, index_of, IsOrderly, IsSpent, Step}
use olm.Ratchet.SpentCalls.{ratchet_decrypt-Step, ratchet_decrypt_spent}

-- One call of `decrypt`.
pub record Delivery : Type 0 where
  pub text : Bytes
  pub max_plaintext_length : ℕ
  pub is_sequential : Bool

-- One call of `decrypt` or of `encrypt`.
pub data Call : Type 0 where
  receive : Delivery → Call
  send : (plain random output : Bytes) → Call

module _ (p : Primitives) where
  abbrev pub deliver : Ratchet → Delivery → Ratchet × Decrypted
  deliver session delivery =
      ratchet_decrypt p session delivery.text delivery.max_plaintext_length delivery.is_sequential

  unfoldable pub after_call : Ratchet → Call → Ratchet
  after_call session (receive delivery) = (deliver session delivery).0
  after_call session (send plain random output) = (ratchet_encrypt p session plain random output).0

  -- The ratchet after one call after another.
  unfoldable pub after_calls : Ratchet → List Call → Ratchet
  after_calls session [] = session
  after_calls session (call ∷ calls) = after_calls (after_call session call) calls

  -- No call lowers the index of the chain: the chain is not dropped for newer ones, and its counter
  -- does not wrap.
  unfoldable pub IsKept : Bytes → Ratchet → List Call → Type 0
  IsKept ratchet_key session [] = Unit
  IsKept ratchet_key session (call ∷ calls) =
      (index_of ratchet_key session ≤ index_of ratchet_key (after_call session call))
      × IsKept ratchet_key (after_call session call) calls

  -- `encrypt` has nothing to do with what is received.
  abbrev IsApart : Ratchet → Ratchet × Encrypted → Type 0
  IsApart session outcome =
      (outcome.0.receiver_chains ≡ session.receiver_chains)
      × (outcome.0.skipped_message_keys ≡ session.skipped_message_keys)

  pub ratchet_encrypt-IsApart :
      (session : Ratchet) (plain random output : Bytes)
      → IsApart session (ratchet_encrypt p session plain random output)
  unfolding ratchet_encrypt encrypt_on_chain start_sender_chain
  ratchet_encrypt-IsApart session plain random output =
      if_case (IsApart session) (ltb (length random) (encrypt_random_length session)) _ _
        (λ _. (refl, refl))
        (λ _.
          if_case (IsApart session)
            (ltb (length output) (encrypt_output_length session (length plain))) _ _
            (λ _. (refl, refl))
            (λ _. elim (List-cases session.sender_chain) [
              | inr (sender, rest, e) ↦ rw e (refl, refl)
              | inl e ↦ elim (List-cases session.receiver_chains) [
                | inl none_at_all ↦ rw (e, none_at_all) (none_at_all, refl)
                | inr (receiver, rest, f) ↦ rw (e, f) (f, refl)
              ]
            ]))

module _ (p : Primitives) (laws : PrimitiveLaws p) (ratchet_key : Bytes)
    (size : length ratchet_key ≡ 32) (counter : ℕ) where
  after_call-IsRatchet :
      (session : Ratchet) (call : Call) → IsRatchet session → IsRatchet (after_call p session call)
  unfolding after_call
  after_call-IsRatchet session (receive delivery) =
      ratchet_decrypt-IsRatchet p laws session delivery.text delivery.max_plaintext_length
        delivery.is_sequential
  after_call-IsRatchet session (send plain random output) =
      ratchet_encrypt-IsRatchet p laws session plain random output

  deliver-Step :
      (session : Ratchet) (delivery : Delivery)
      → IsRatchet session
      → IsOrderly ratchet_key session
      → index_of ratchet_key session ≤ index_of ratchet_key (deliver p session delivery).0
      → Step ratchet_key counter session delivery.text (deliver p session delivery)
  deliver-Step session delivery whole orderly =
      ratchet_decrypt-Step p laws ratchet_key size counter session delivery.text whole orderly
        delivery.max_plaintext_length delivery.is_sequential

  -- One call keeps the order of the keys, and a spent message spent.
  after_call-IsOrderly :
      (session : Ratchet) (call : Call)
      → IsRatchet session
      → IsOrderly ratchet_key session
      → index_of ratchet_key session ≤ index_of ratchet_key (after_call p session call)
      → IsOrderly ratchet_key (after_call p session call)
        × (IsSpent ratchet_key counter session
            → IsSpent ratchet_key counter (after_call p session call))
  unfolding after_call
  after_call-IsOrderly session (receive delivery) whole orderly rises =
      let step = deliver-Step session delivery whole orderly rises in (step.orderly, step.still)
  after_call-IsOrderly session (send plain random output) whole orderly rises =
      let (chains, keys) = ratchet_encrypt-IsApart p session plain random output in
      (rw (chains, keys) orderly, λ spent. rw (chains, keys) spent)

  -- A spent message stays spent, and is not opened at the end.
  spent_at_end :
      (session : Ratchet) (after : List Call) (again : Delivery) (plain : Bytes)
      → IsRatchet session
      → IsOrderly ratchet_key session
      → IsSpent ratchet_key counter session
      → IsNumbered again.text ratchet_key counter
      → IsKept p ratchet_key session after
      → (deliver p (after_calls p session after) again).1 ≢ plaintext plain
  unfolding after_calls IsKept
  spent_at_end session [] again plain whole orderly spent numbered kept =
      ratchet_decrypt_spent p ratchet_key counter session again.text numbered spent
        again.max_plaintext_length again.is_sequential plain
  spent_at_end session (call ∷ after) again plain whole orderly spent numbered (rises, kept) =
      let (orderly', still) = after_call-IsOrderly session call whole orderly rises in
      spent_at_end (after_call p session call) after again plain
        (after_call-IsRatchet session call whole) orderly' (still spent) numbered kept

  opened_once :
      (session : Ratchet) (before after : List Call) (first again : Delivery) (plain plain' : Bytes)
      → IsRatchet session
      → IsOrderly ratchet_key session
      → IsNumbered first.text ratchet_key counter
      → IsNumbered again.text ratchet_key counter
      → IsKept p ratchet_key session (before ++ (receive first ∷ after))
      → (deliver p (after_calls p session before) first).1 ≡ plaintext plain
      → (deliver p (after_calls p session (before ++ (receive first ∷ after))) again).1
        ≢ plaintext plain'
  unfolding after_calls after_call IsKept
  opened_once session [] after first again plain plain' whole orderly numbered numbered'
        (rises, kept) opened =
      let step = deliver-Step session first whole orderly rises in
      spent_at_end (deliver p session first).0 after again plain'
        (after_call-IsRatchet session (receive first) whole) step.orderly
        (step.spends numbered plain opened) numbered' kept
  opened_once session (call ∷ before) after first again plain plain' whole orderly numbered
        numbered' (rises, kept) opened =
      opened_once (after_call p session call) before after first again plain plain'
        (after_call-IsRatchet session call whole)
        (after_call-IsOrderly session call whole orderly rises).0 numbered numbered' kept opened

  -- With primitives that keep the stated laws: A well-formed ratchet without skipped keys gets any
  -- series of calls of `decrypt` and `encrypt`, on any texts of anyone. A text that carries a
  -- ratchet key of 32 bytes and a counter is opened on the way, on its chain, with a stored key,
  -- or on a chain that it starts. As long as no call lowers the index of the chain of that ratchet
  -- key, that is, the chain is not dropped for newer ones and its counter does not wrap, no text
  -- with the same ratchet key and counter is opened after the series, whatever came in between.
  pub ratchet_decrypt_once :
      (session : Ratchet) (before after : List Call) (first again : Delivery) (plain plain' : Bytes)
      → IsRatchet session
      → session.skipped_message_keys ≡ []
      → IsNumbered first.text ratchet_key counter
      → IsNumbered again.text ratchet_key counter
      → IsKept p ratchet_key session (before ++ (receive first ∷ after))
      → (deliver p (after_calls p session before) first).1 ≡ plaintext plain
      → (deliver p (after_calls p session (before ++ (receive first ∷ after))) again).1
        ≢ plaintext plain'
  unfolding IsDistinct
  ratchet_decrypt_once session before after first again plain plain' whole fresh =
      opened_once session before after first again plain plain' whole (rw fresh tt, rw fresh tt)
