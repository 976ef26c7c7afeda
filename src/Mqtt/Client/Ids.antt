-- ===== src/Mqtt/Client/Ids.antt =====
-- The identifiers that `AcquirePacketId`, src/mqtt/mqtt_client.cpp, gives one after the other.
use ai_camera.Base.{
  ℕ, zero, suc, ◌+◌, ◌-◌, ◌%◌, ◌^◌, ◌≤◌, ◌<◌, ◌≡◌, ◌∙◌, ◌≢◌, arith, ◌==◌, if◌then◌else◌,
}
use ai_camera.Mqtt.Client.{acquire_packet_id}

-- The identifier that is given after so many others.
abbrev pub nth_id : ℕ → ℕ → ℕ
nth_id zero next = (acquire_packet_id next).0
nth_id (suc n) next = nth_id n (acquire_packet_id next).1

-- The place in the round of 1 to 65535.
abbrev round_place : ℕ → ℕ
round_place next = if next == 0 then 0 else next - 1

acquire_packet_id-round_place :
    (next : ℕ)
    → next < 2 ^ 16
    → ((acquire_packet_id next).0 ≡ round_place next + 1)
      × (round_place (acquire_packet_id next).1 ≡ (round_place next + 1) % 65535)
      × ((acquire_packet_id next).1 < 2 ^ 16)
unfolding acquire_packet_id
acquire_packet_id-round_place next h = ground arith

nth_id-round_place :
    (n next : ℕ) → next < 2 ^ 16 → nth_id n next ≡ (round_place next + n) % 65535 + 1
nth_id-round_place zero next h =
    let (given, after, small) = acquire_packet_id-round_place next h in
    let below : round_place next < 65535 = ground arith in omega (arith, given)
nth_id-round_place (suc n) next h =
    let (given, after, small) = acquire_packet_id-round_place next h in
    nth_id-round_place n (acquire_packet_id next).1 small ∙ omega (arith, after)

-- From any counter of 16 bits: every identifier is between 1 and 65535, and two that are given with fewer
-- than 65535 steps between them differ.
pub acquire_packet_id_fresh :
    (i j next : ℕ)
    → next < 2 ^ 16
    → i < j
    → j < i + 65535
    → (1 ≤ nth_id i next) × (nth_id i next ≤ 65535) × (nth_id i next ≢ nth_id j next)
acquire_packet_id_fresh i j next h before near =
    let first = nth_id-round_place i next h in
    let second = nth_id-round_place j next h in
    (omega (arith, first), omega (arith, first), λ same. omega (arith, first, second, same))
