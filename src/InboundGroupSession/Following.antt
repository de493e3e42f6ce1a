-- ===== src/InboundGroupSession/Following.antt =====
-- The choice of the ratchet by `_get_megolm` of src/inbound_group_session.c.
use olm.Base.{
  ℕ, ◌+◌, ◌-◌, ◌%◌, ◌^◌, ◌≤◌, ◌<◌, none, some, ltb, if◌then◌else◌, Bool-cases, inl, inr, ltb→lt,
  ltb→le, lt→ltb, le→ltb, ◌≡◌, ap, ap₂, arith, ◌∙◌,
}
use olm.Error.{unknown_message_index}
use olm.Crypto.External.{Primitives}
use olm.Megolm.{Megolm, megolm_advance_to}
use olm.Megolm.Advance.{advance_times}
use olm.Megolm.Ahead.{advance_times-counter, megolm_advance_to-ahead}
use olm.InboundGroupSession.{InboundGroupSession, inbound_fail}
use olm.InboundGroupSession.Ratchet.{counter_minus, get_megolm}

-- The later of two indices.
abbrev pub later : ℕ → ℕ → ℕ
later j k = if ltb k j then j else k

abbrev pub with_latest : InboundGroupSession → Megolm → InboundGroupSession
with_latest session r = record session { latest_ratchet = r }

module _ (p : Primitives) where
  -- A session that was shared at ratchet `m`, and whose latest ratchet stands `j` steps further.
  pub record Follows (m : Megolm) (j : ℕ) (session : InboundGroupSession) : Type 0 where
    pub initial_here : session.initial_ratchet ≡ m
    pub latest_ahead : session.latest_ratchet ≡ advance_times p j m
    pub counter_bits : m.counter < 2 ^ 32
    pub in_reach : j < 2 ^ 31

  from_start :
      (m : Megolm) (k : ℕ)
      → m.counter < 2 ^ 32
      → k < 2 ^ 31
      → megolm_advance_to p m ((m.counter + k) % 2 ^ 32) ≡ advance_times p k m
  unfolding advance_times
  from_start m k h hk = megolm_advance_to-ahead p 0 k m h (omega arith) (omega arith)

  get_megolm_latest :
      (session : InboundGroupSession) (index : ℕ)
      → counter_minus index session.latest_ratchet.counter < 2 ^ 31
      → get_megolm p session index ≡ (
        record session { latest_ratchet = megolm_advance_to p session.latest_ratchet index },
        some (megolm_advance_to p session.latest_ratchet index),
      )
  unfolding get_megolm
  get_megolm_latest session index h =
      let near = lt→ltb (counter_minus index session.latest_ratchet.counter) (2 ^ 31) h in rw near

  get_megolm_initial :
      (session : InboundGroupSession) (index : ℕ)
      → 2 ^ 31 ≤ counter_minus index session.latest_ratchet.counter
      → counter_minus index session.initial_ratchet.counter < 2 ^ 31
      → get_megolm p session index
        ≡ (session, some (megolm_advance_to p session.initial_ratchet index))
  unfolding get_megolm
  get_megolm_initial session index hl hi =
      let far = le→ltb (counter_minus index session.latest_ratchet.counter) (2 ^ 31) hl in
      let near = lt→ltb (counter_minus index session.initial_ratchet.counter) (2 ^ 31) hi in
      rw (far, near)

  -- For a session shared at `m` whose latest ratchet is `j` < 2 ^ 31 steps further, `get_megolm`
  -- at the index `k` < 2 ^ 31 steps after `m` finds `m` advanced `k` times, whether `k` lies
  -- before or after `j`; the latest ratchet becomes `m` advanced by the larger of the two, and
  -- nothing else changes.
  pub get_megolm-Follows :
      (m : Megolm) (j k : ℕ) (session : InboundGroupSession)
      → Follows m j session
      → k < 2 ^ 31
      → get_megolm p session ((m.counter + k) % 2 ^ 32) ≡ (
        record session { latest_ratchet = advance_times p (later j k) m },
        some (advance_times p k m),
      )
  get_megolm-Follows m j k session f hk =
      let index = (m.counter + k) % 2 ^ 32 in
      let at : session.latest_ratchet.counter ≡ (m.counter + j) % 2 ^ 32 =
        ap (λ (r : Megolm). r.counter) f.latest_ahead
        ∙ advance_times-counter p j m f.counter_bits in
      let start : session.initial_ratchet.counter ≡ m.counter =
        ap (λ (r : Megolm). r.counter) f.initial_here in
      elim (Bool-cases (ltb k j)) [
        | inl back ↦
            let h = ltb→lt k j back in
            let jumped : megolm_advance_to p session.initial_ratchet index ≡ advance_times p k m =
              ap (λ (r : Megolm). megolm_advance_to p r index) f.initial_here
              ∙ from_start m k f.counter_bits hk in
            rw back (
              get_megolm_initial session index (omega (arith, at, f.in_reach))
                (omega (arith, start))
              ∙ ap₂ (λ (r r' : Megolm). (with_latest session r, some r')) f.latest_ahead jumped)
        | inr ahead ↦
            let h = ltb→le k j ahead in
            let jumped : megolm_advance_to p session.latest_ratchet index ≡ advance_times p k m =
              ap (λ (r : Megolm). megolm_advance_to p r index) f.latest_ahead
              ∙ megolm_advance_to-ahead p j k m f.counter_bits h (omega arith) in
            rw ahead (
              get_megolm_latest session index (omega (arith, at))
              ∙ ap (λ (r : Megolm). (with_latest session r, some r)) jumped)
      ]

  -- For a session shared at `m` whose latest ratchet is `j` steps further, `get_megolm` refuses an
  -- index that lies `back` > 0 steps before `m`, where `back + j` is at most 2 ^ 31: the last
  -- error becomes `unknown_message_index` and nothing else changes.
  pub get_megolm_too_early :
      (m : Megolm) (j back : ℕ) (session : InboundGroupSession)
      → Follows m j session
      → 0 < back
      → back + j ≤ 2 ^ 31
      → get_megolm p session ((m.counter + 2 ^ 32 - back) % 2 ^ 32)
        ≡ (inbound_fail session unknown_message_index, none)
  unfolding get_megolm
  get_megolm_too_early m j back session f h hb =
      let index = (m.counter + 2 ^ 32 - back) % 2 ^ 32 in
      let at : session.latest_ratchet.counter ≡ (m.counter + j) % 2 ^ 32 =
        ap (λ (r : Megolm). r.counter) f.latest_ahead
        ∙ advance_times-counter p j m f.counter_bits in
      let start : session.initial_ratchet.counter ≡ m.counter =
        ap (λ (r : Megolm). r.counter) f.initial_here in
      let before_latest =
        le→ltb (counter_minus index session.latest_ratchet.counter) (2 ^ 31)
          (omega (arith, at, f.counter_bits)) in
      let before_initial =
        le→ltb (counter_minus index session.initial_ratchet.counter) (2 ^ 31)
          (omega (arith, start, f.counter_bits)) in
      rw (before_latest, before_initial)
