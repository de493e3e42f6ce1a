-- ===== src/Ratchet/Conversation.antt =====
-- Whole conversations over src/ratchet.cpp, from the start of a session on.
use olm.Base.{
  Bytes, Bool, true, false, List, [], ◌∷◌, take, drop, none, ◌≡◌, refl, ap₂, ◌⊎◌, inl, inr,
}
use mathlib.Core.List.{map}
use olm.Crypto.External.{Primitives, PrimitiveLaws}
use olm.Crypto.{Decrypted, plaintext, curve25519_generate_key, hkdf_sha256}
use olm.Ratchet.{
  Ratchet, SenderChain, initialise_as_alice, initialise_as_bob, new_ratchet, derive_root_secrets,
  KdfInfo,
}
use olm.Ratchet.Turns.{
  InStep, following_chain, IsFit, Turn, exchange, exchange_continued, InStep_continued,
}
use olm.Ratchet.Replies.{exchange-turned, InStep_turned}

module _ (p : Primitives) where
  -- What comes out of the messages of a conversation; a turn that is marked is the first device's.
  pub converse : List (Bool × Turn) → Ratchet → Ratchet → List Decrypted
  converse [] first second = []
  converse ((true, turn) ∷ turns) first second =
      let ((first', second'), result) = exchange p first second turn in
      result ∷ converse turns first' second'
  converse ((false, turn) ∷ turns) first second =
      let ((second', first'), result) = exchange p second first turn in
      result ∷ converse turns first' second'

  -- Every turn has what it needs in the state in which it is taken.
  unfoldable pub AllFit : List (Bool × Turn) → Ratchet → Ratchet → Type 0
  AllFit [] first second = Unit
  AllFit ((true, turn) ∷ turns) first second =
      let ((first', second'), result) = exchange p first second turn in
      IsFit p first second turn × AllFit turns first' second'
  AllFit ((false, turn) ∷ turns) first second =
      let ((second', first'), result) = exchange p second first turn in
      IsFit p second first turn × AllFit turns first' second'

  abbrev pub InContact : Ratchet → Ratchet → Type 0
  InContact first second = InStep p first second ⊎ InStep p second first

abbrev pub plain_of : Bool × Turn → Decrypted
plain_of (first, turn) = plaintext turn.plain

module _ (p : Primitives) where
  -- The first sender chain.
  abbrev pub first_sender : KdfInfo → Bytes → Bytes → SenderChain
  first_sender info shared_secret secret = record {
    ratchet_key = curve25519_generate_key p secret;
    chain_key = record {
      index = 0;
      key = take 32 (drop 32 (hkdf_sha256 p shared_secret none info.root_info 64));
    };
  }

  -- The two sides of a shared secret.
  abbrev pub first_alice : KdfInfo → Bytes → Bytes → Bytes → Bytes → Ratchet
  first_alice info cipher shared_secret secret memory =
      initialise_as_alice p (new_ratchet info cipher memory) shared_secret
        (curve25519_generate_key p secret)

  abbrev pub first_bob : KdfInfo → Bytes → Bytes → Bytes → Bytes → Ratchet
  first_bob info cipher shared_secret secret memory =
      initialise_as_bob p (new_ratchet info cipher memory) shared_secret
        (curve25519_generate_key p secret).public_key

  pub first_chains :
      (info : KdfInfo) (cipher shared_secret secret memory : Bytes)
      → ((first_alice info cipher shared_secret secret memory).sender_chain
          ≡ first_sender info shared_secret secret ∷ [])
        × ((first_bob info cipher shared_secret secret memory).receiver_chains
            ≡ following_chain (first_sender info shared_secret secret) ∷ [])
  unfolding initialise_as_alice initialise_as_bob new_ratchet derive_root_secrets
  first_chains info cipher shared_secret secret memory = (refl, refl)

  unfoldable pub initialise-InStep :
      (info : KdfInfo) (cipher shared_secret secret memory memory' : Bytes)
      → InStep p
          (first_alice info cipher shared_secret secret memory)
          (first_bob info cipher shared_secret secret memory')
  unfolding initialise_as_alice initialise_as_bob new_ratchet derive_root_secrets
  initialise-InStep info cipher shared_secret secret memory memory' = record {
    sender = first_sender info shared_secret secret;
    secret = secret;
    others = [];
    leader_chain = refl;
    follower_none = refl;
    key_made = refl;
    follower_chain = refl;
    same_root = refl;
    same_info = refl;
    same_cipher = refl;
  }

module _ (p : Primitives) (laws : PrimitiveLaws p) where
  -- After a turn of either device the two are in contact, and the message has come out.
  abbrev IsDelivered : Ratchet → Ratchet → Turn → Type 0
  IsDelivered sender receiver turn =
      InContact p (exchange p sender receiver turn).0.0 (exchange p sender receiver turn).0.1
      × ((exchange p sender receiver turn).1 ≡ plaintext turn.plain)

  exchange-IsDelivered :
      (sender receiver : Ratchet) (turn : Turn)
      → InContact p sender receiver
      → IsFit p sender receiver turn
      → IsDelivered sender receiver turn
  exchange-IsDelivered sender receiver turn (inl s) f =
      rw (exchange_continued p laws sender receiver turn s f)
        (inl (InStep_continued p laws sender receiver s), refl)
  exchange-IsDelivered sender receiver turn (inr s) f =
      rw (exchange-turned p laws receiver sender turn s f)
        (inl (InStep_turned p laws receiver sender turn.random s), refl)

  swapped : (first second : Ratchet) → InContact p first second → InContact p second first
  swapped first second (inl s) = inr s
  swapped first second (inr s) = inl s

  pub converse_delivered :
      (turns : List (Bool × Turn)) (first second : Ratchet)
      → InContact p first second
      → AllFit p turns first second
      → converse p turns first second ≡ map plain_of turns
  unfolding converse AllFit
  converse_delivered [] first second c f = refl
  converse_delivered ((true, turn) ∷ turns) first second c (f, fs) =
      let (contact, out) = exchange-IsDelivered first second turn c f in
      ap₂ (λ (r : Decrypted) (rs : List Decrypted). r ∷ rs) out
        (converse_delivered turns _ _ contact fs)
  converse_delivered ((false, turn) ∷ turns) first second c (f, fs) =
      let (contact, out) = exchange-IsDelivered second first turn (swapped first second c) f in
      ap₂ (λ (r : Decrypted) (rs : List Decrypted). r ∷ rs) out
        (converse_delivered turns _ _ (swapped _ _ contact) fs)

  pub initialise-InContact :
      (info : KdfInfo) (cipher shared_secret secret memory memory' : Bytes)
      → InContact p
          (initialise_as_alice p
            (new_ratchet info cipher memory)
            shared_secret
            (curve25519_generate_key p secret))
          (initialise_as_bob p
            (new_ratchet info cipher memory')
            shared_secret
            (curve25519_generate_key p secret).public_key)
  initialise-InContact info cipher shared_secret secret memory memory' =
      inl (initialise-InStep p info cipher shared_secret secret memory memory')

  -- With primitives that keep the stated laws: Two ratchets are initialised from one shared secret
  -- and one first key pair, and take turns of any number and in any order of the two sides, each
  -- message decrypted before the next is written. Where every turn has a plaintext of bytes, 32
  -- random bytes, room in both buffers, a ciphertext shorter than 2 ^ 64, a counter that does not
  -- wrap and, where it starts a chain, a key that the receiver does not have yet, every message
  -- comes out as the plaintext that was put in.
  pub converse_started :
      (turns : List (Bool × Turn)) (info : KdfInfo)
      (cipher shared_secret secret memory memory' : Bytes)
      → AllFit p turns
          (initialise_as_alice p
            (new_ratchet info cipher memory)
            shared_secret
            (curve25519_generate_key p secret))
          (initialise_as_bob p
            (new_ratchet info cipher memory')
            shared_secret
            (curve25519_generate_key p secret).public_key)
      → converse p turns
          (initialise_as_alice p
            (new_ratchet info cipher memory)
            shared_secret
            (curve25519_generate_key p secret))
          (initialise_as_bob p
            (new_ratchet info cipher memory')
            shared_secret
            (curve25519_generate_key p secret).public_key)
        ≡ map plain_of turns
  converse_started turns info cipher shared_secret secret memory memory' fit =
      converse_delivered turns _ _
        (initialise-InContact info cipher shared_secret secret memory memory') fit
