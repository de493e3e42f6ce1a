-- ===== src/Megolm/Pickling.antt =====
-- The pickled form of the ratchet of src/megolm.c.
use olm.Base.{
  ◌<◌, ◌^◌, Bytes, IsByte, IsBuffer, some, [], ◌++◌, length-append, take-append, drop-append,
  append-nil, All-append, append_assoc, ◌≡◌, arith,
}
use olm.Pickle.{unpickle_bytes, pickle_uint32}
use olm.Pickle.RoundTrip.{
  pickle_bytes_exact, unpickle_bytes-append, unpickle_uint32-pickle_uint32, pickle_uint32-IsBuffer,
}
use olm.Megolm.{
  Megolm, megolm_get_data, parts_of, megolm_pickle_length, megolm_pickle, megolm_unpickle,
}

-- A ratchet as the C type allows it: four parts of 32 bytes and a 32-bit counter.
pub record IsMegolm (m : Megolm) : Type 0 where
  pub r0_bytes : IsBuffer 32 m.data_parts.r0
  pub r1_bytes : IsBuffer 32 m.data_parts.r1
  pub r2_bytes : IsBuffer 32 m.data_parts.r2
  pub r3_bytes : IsBuffer 32 m.data_parts.r3
  pub counter_bits : m.counter < 2 ^ 32

pub megolm_get_data-IsBuffer : (m : Megolm) → IsMegolm m → IsBuffer 128 (megolm_get_data m)
unfolding megolm_get_data
megolm_get_data-IsBuffer m h =
    let d = m.data_parts in
    (
      omega (
        arith,
        length-append d.r0 (d.r1 ++ (d.r2 ++ d.r3)),
        length-append d.r1 (d.r2 ++ d.r3),
        length-append d.r2 d.r3,
        h.r0_bytes,
        h.r1_bytes,
        h.r2_bytes,
        h.r3_bytes,
      ),
      All-append IsByte d.r0 _ h.r0_bytes.1 (
          All-append IsByte d.r1 _ h.r1_bytes.1
            (All-append IsByte d.r2 _ h.r2_bytes.1 h.r3_bytes.1)),
    )

pub parts_of-megolm_get_data :
    (m : Megolm) (rest : Bytes) → IsMegolm m → parts_of (megolm_get_data m ++ rest) ≡ m.data_parts
unfolding megolm_get_data parts_of
parts_of-megolm_get_data m rest h =
    let d = m.data_parts in
    let row : (d.r0 ++ (d.r1 ++ (d.r2 ++ d.r3))) ++ rest
        ≡ d.r0 ++ (d.r1 ++ (d.r2 ++ (d.r3 ++ rest))) =
      simp append_assoc in
    rw (
      row,
      take-append 32 d.r0 (d.r1 ++ (d.r2 ++ (d.r3 ++ rest))) h.r0_bytes.0,
      drop-append 32 d.r0 (d.r1 ++ (d.r2 ++ (d.r3 ++ rest))) h.r0_bytes.0,
      take-append 32 d.r1 (d.r2 ++ (d.r3 ++ rest)) h.r1_bytes.0,
      drop-append 32 d.r1 (d.r2 ++ (d.r3 ++ rest)) h.r1_bytes.0,
      take-append 32 d.r2 (d.r3 ++ rest) h.r2_bytes.0,
      drop-append 32 d.r2 (d.r3 ++ rest) h.r2_bytes.0,
      take-append 32 d.r3 rest h.r3_bytes.0,
    )

pub parts_of_exact : (m : Megolm) → IsMegolm m → parts_of (megolm_get_data m) ≡ m.data_parts
parts_of_exact m h = rw append-nil at (parts_of-megolm_get_data m [] h)

pub megolm_pickle_exact :
    (m : Megolm) → IsMegolm m → megolm_pickle m ≡ megolm_get_data m ++ pickle_uint32 m.counter
unfolding megolm_pickle
megolm_pickle_exact m h =
    rw (pickle_bytes_exact (megolm_get_data m) 128 (megolm_get_data-IsBuffer m h).0)

pub megolm_pickle-IsBuffer :
    (m : Megolm) → IsMegolm m → IsBuffer megolm_pickle_length (megolm_pickle m)
unfolding megolm_pickle_length
megolm_pickle-IsBuffer m h =
    let data_bytes = megolm_get_data-IsBuffer m h in
    let counter_bytes = pickle_uint32-IsBuffer m.counter in
    rw (megolm_pickle_exact m h) (
      omega (
        arith,
        length-append (megolm_get_data m) (pickle_uint32 m.counter),
        data_bytes,
        counter_bytes,
      ),
      All-append IsByte _ _ data_bytes.1 counter_bytes.1,
    )

-- A ratchet of the C type's shape, pickled in front of any bytes, is read back over any ratchet,
-- and the position is at those bytes.
pub megolm_unpickle-megolm_pickle :
    (old m : Megolm) (rest : Bytes)
    → IsMegolm m
    → megolm_unpickle old (megolm_pickle m ++ rest) ≡ (m, some rest)
unfolding megolm_unpickle
megolm_unpickle-megolm_pickle old m rest h =
    let tail = pickle_uint32 m.counter ++ rest in
    let read : unpickle_bytes (megolm_get_data old) 128 (megolm_get_data m ++ tail)
        ≡ (megolm_get_data m, some tail) =
      unpickle_bytes-append (megolm_get_data old) (megolm_get_data m) tail 128
        (megolm_get_data-IsBuffer m h).0 in
    let front : megolm_pickle m ++ rest ≡ megolm_get_data m ++ tail =
      rw (megolm_pickle_exact m h)
        (append_assoc (megolm_get_data m) (pickle_uint32 m.counter) rest) in
    rw front (
      ground (
        arith,
        read,
        parts_of_exact m h,
        unpickle_uint32-pickle_uint32 m.counter rest h.counter_bits,
      ))
