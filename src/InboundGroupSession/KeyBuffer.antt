-- ===== src/InboundGroupSession/KeyBuffer.antt =====
-- The layout of session keys and exported sessions in src/outbound_group_session.c and
-- src/inbound_group_session.c, and how the receiver reads it.
use olm.Base.{
  ==_refl, get_or, ℕ, ◌+◌, ◌*◌, ◌/◌, ◌%◌, ◌^◌, ◌<◌, bit_and, Bytes, IsByte, IsBuffer, Bool, true,
  false, some, [], ◌∷◌, ◌++◌, length, take, drop, length-append, take-append, drop-append, take_all,
  All-append, append_assoc, append-nil, ◌≡◌, refl, ap, arith, ◌∙◌,
}
use olm.Base.Bits.{bit_and_mask, bit_and_comm}
use olm.Base64.{encode_base64}
use olm.Base64.RoundTrip.{decode_base64_length-encode_base64, decode_base64-encode_base64}
use olm.Pickle.{pickle_uint32, pickle_loop}
use olm.Pickle.RoundTrip.{pickle_uint32-IsBuffer, pickle_loop-append, uint32_loop}
use olm.Crypto.External.{Primitives}
use olm.Crypto.{crypto_ed25519_verify}
use olm.Megolm.{Megolm, megolm_get_data, megolm_init}
use olm.Megolm.Pickling.{IsMegolm, megolm_get_data-IsBuffer, parts_of-megolm_get_data}
use olm.OutboundGroupSession.{encode_counter}
use olm.InboundGroupSession.{
  InboundGroupSession, decode_counter, store_session_key, init_group_session_keys, init_from_text,
}

low_byte : (a : ℕ) → bit_and 255 a ≡ a % 256
low_byte a = bit_and_comm 255 a ∙ bit_and_mask 8 a

encode_counter-eq-pickle_uint32 : (c : ℕ) → c < 2 ^ 32 → encode_counter 4 c ≡ pickle_uint32 c
unfolding encode_counter pickle_uint32 pickle_loop
encode_counter-eq-pickle_uint32 c h = ground (
  arith,
  low_byte (c / 16777216),
  low_byte (c * 256 % 4294967296 / 16777216),
  low_byte (c * 256 % 4294967296 * 256 % 4294967296 / 16777216),
  low_byte (c * 256 % 4294967296 * 256 % 4294967296 * 256 % 4294967296 / 16777216),
)

decode_counter-encode_counter :
    (c : ℕ) (rest : Bytes) → c < 2 ^ 32 → decode_counter (encode_counter 4 c ++ rest) ≡ (c, rest)
unfolding decode_counter pickle_uint32
decode_counter-encode_counter c rest h =
    rw (encode_counter-eq-pickle_uint32 c h, pickle_loop-append 4 c [] rest) (uint32_loop c rest h)

-- A key buffer: version, counter, ratchet and signing key, and what follows.
unfoldable pub key_buffer : ℕ → Megolm → Bytes → Bytes → Bytes
key_buffer version m signing_key rest =
    version ∷ (encode_counter 4 m.counter ++ (megolm_get_data m ++ (signing_key ++ rest)))

abbrev pub shared_at : InboundGroupSession → Megolm → Bytes → InboundGroupSession
shared_at session m signing_key = record session {
  initial_ratchet = m;
  latest_ratchet = m;
  signing_key = signing_key;
}

megolm_init-megolm_get_data :
    (m : Megolm) (rest : Bytes) → IsMegolm m → megolm_init (megolm_get_data m ++ rest) m.counter ≡ m
unfolding megolm_init
megolm_init-megolm_get_data m rest h = rw (parts_of-megolm_get_data m rest h)

pub store_session_key-key_buffer :
    (session : InboundGroupSession) (version : ℕ) (m : Megolm) (signing_key rest : Bytes)
    → IsMegolm m
    → length signing_key ≡ 32
    → store_session_key session (key_buffer version m signing_key rest)
      ≡ shared_at session m signing_key
unfolding store_session_key key_buffer
store_session_key-key_buffer session version m signing_key rest h hk = rw (
  decode_counter-encode_counter m.counter (megolm_get_data m ++ (signing_key ++ rest))
      h.counter_bits,
  megolm_init-megolm_get_data m (signing_key ++ rest) h,
  drop-append 128 (megolm_get_data m) (signing_key ++ rest) (megolm_get_data-IsBuffer m h).0,
  take-append 32 signing_key rest hk,
)

pub key_buffer-append :
    (version : ℕ) (m : Megolm) (signing_key rest : Bytes)
    → key_buffer version m signing_key [] ++ rest ≡ key_buffer version m signing_key rest
unfolding key_buffer
key_buffer-append version m signing_key rest =
    ap (λ (bytes : Bytes). version ∷ bytes) (simp (append_assoc, append-nil))

pub key_buffer-first :
    (version : ℕ) (m : Megolm) (signing_key rest : Bytes)
    → get_or (key_buffer version m signing_key rest) 0 0 ≡ version
unfolding key_buffer
key_buffer-first version m signing_key rest = refl

pub encode_counter-IsBuffer : (c : ℕ) → c < 2 ^ 32 → IsBuffer 4 (encode_counter 4 c)
encode_counter-IsBuffer c h = rw (encode_counter-eq-pickle_uint32 c h) (pickle_uint32-IsBuffer c)

pub key_buffer-IsBuffer :
    (version : ℕ) (m : Megolm) (signing_key rest : Bytes) (n : ℕ)
    → IsByte version
    → IsMegolm m
    → IsBuffer 32 signing_key
    → IsBuffer n rest
    → IsBuffer (165 + n) (key_buffer version m signing_key rest)
unfolding key_buffer
key_buffer-IsBuffer version m signing_key rest n hv h hk hr =
    let counter = encode_counter 4 m.counter in
    let counter_bytes = encode_counter-IsBuffer m.counter h.counter_bits in
    let ratchet_bytes = megolm_get_data-IsBuffer m h in
    (
      omega (
        arith,
        length-append counter (megolm_get_data m ++ (signing_key ++ rest)),
        length-append (megolm_get_data m) (signing_key ++ rest),
        length-append signing_key rest,
        counter_bytes.0,
        ratchet_bytes.0,
        hk.0,
        hr.0,
      ),
      (
        hv,
        All-append IsByte counter _ counter_bytes.1 (
            All-append IsByte (megolm_get_data m) _ ratchet_bytes.1
              (All-append IsByte signing_key rest hk.1 hr.1)),
      ),
    )

module _ (p : Primitives) where
  pub init_group_session_keys-signed :
      (session : InboundGroupSession) (m : Megolm) (signing_key signature : Bytes)
      → IsMegolm m
      → IsBuffer 32 signing_key
      → length signature ≡ 64
      → crypto_ed25519_verify p signing_key (key_buffer 2 m signing_key []) signature ≡ true
      → init_group_session_keys p session (key_buffer 2 m signing_key signature) false
        ≡ (record (shared_at session m signing_key) { signing_key_verified = true }, some 0)
  unfolding init_group_session_keys
  init_group_session_keys-signed session m signing_key signature h hk hs hv =
      let body = key_buffer 2 m signing_key [] in
      let body_length : length body ≡ 165 =
        (key_buffer-IsBuffer 2 m signing_key [] 0 (omega arith) h hk (refl, tt)).0 in
      let whole = key_buffer-append 2 m signing_key signature in
      let front : take 165 (key_buffer 2 m signing_key signature) ≡ body =
        rw (← whole) (take-append 165 body signature body_length) in
      let back : take 64 (drop 165 (key_buffer 2 m signing_key signature)) ≡ signature =
        rw (← whole, drop-append 165 body signature body_length)
          (take_all 64 signature (omega (arith, hs))) in
      rw (
        store_session_key-key_buffer session 2 m signing_key signature h hk.0,
        front,
        back,
        hv,
        key_buffer-first 2 m signing_key signature,
      )

  pub init_from_text-key_buffer :
      (session : InboundGroupSession) (buffer : Bytes) (n : ℕ) (export_format : Bool)
      → IsBuffer n buffer
      → init_from_text p session (encode_base64 buffer) n export_format
        ≡ init_group_session_keys p session buffer export_format
  unfolding init_from_text
  init_from_text-key_buffer session buffer n export_format h = rw (
    decode_base64_length-encode_base64 buffer,
    decode_base64-encode_base64 buffer h.1,
    h.0,
    ==_refl n,
    init_from_text,
  )
