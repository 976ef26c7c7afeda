-- ===== src/Rtp/H264/Reassembly.antt =====
-- What `HandleFrame` sends, put together again as RFC 6184 says.
use ai_camera.Base.{
  ℕ, zero, suc, ◌+◌, ◌-◌, ◌*◌, ◌/◌, ◌%◌, ◌≤◌, ◌<◌, ◌≡◌, refl, ap, ◌∙◌, ◌≢◌, inl, inr, Bool, true,
  false, not, ◌&&◌, ◌||◌, Option, none, some, List, [], ◌∷◌, ◌++◌, map, arith, ltb, leb, ◌==◌,
  if◌then◌else◌, lt→ltb, ltb_false→le, Bool-cases, length, get_or, take, drop, All, length-take,
  length-drop, take-append-drop,
}
use Prim.Native.Nat.{bit_and, bit_or}
use mathlib.Core.List.{append_assoc}
use ai_camera.Base.Bytes.{IsByte, same_upto, same_upto-eq}
use ai_camera.Rtp.Packet.{RtpPacket, packet_capacity, max_rtp_payload_size, slice, slice-write_at}
use ai_camera.Rtp.H264.{
  NalFrame, payload_offset, frame_packet, fu_indicator, fu_start, chunk, Callback, send_fragments,
  send_frame, handle_frame,
}

pub fu_indicator_lem : (b : ℕ) → b < 256 → fu_indicator b ≡ b / 32 * 32 + 28
unfolding same_upto
fu_indicator_lem b h = same_upto-eq fu_indicator (λ x. x / 32 * 32 + 28) 256 b h refl

fu_start_lem : (b : ℕ) → b < 256 → fu_start b ≡ b % 32 + 128
unfolding same_upto
fu_start_lem b h = same_upto-eq fu_start (λ x. x % 32 + 128) 256 b h refl

clear_start : (b : ℕ) → b < 256 → bit_and b 0x7f ≡ b % 128
unfolding same_upto
clear_start b h = same_upto-eq (λ x. bit_and x 0x7f) (λ x. x % 128) 256 b h refl

set_end : (t : ℕ) → t < 32 → bit_or t 0x40 ≡ t + 64
unfolding same_upto
set_end t h = same_upto-eq (λ x. bit_or x 0x40) (λ x. x + 64) 32 t h refl

-- The payload of a packet, behind the two headers.
abbrev pub payload : RtpPacket → List ℕ
payload pkt = slice pkt.bytes payload_offset (pkt.size - payload_offset)

-- A fragment carries type 28; its second byte has the start bit, the end bit and the NAL type.
abbrev pub is_fragment : List ℕ → Bool
is_fragment p = get_or p 0 0 % 32 == 28

abbrev pub starts : List ℕ → Bool
starts p = leb 128 (get_or p 1 0)

abbrev pub ends : List ℕ → Bool
ends p = leb 64 (get_or p 1 0 % 128)

-- The fragments behind the first one: none starts, the last and no other ends.
pub gather : List ℕ → List (List ℕ) → Option (List ℕ)
gather acc [] = none
gather acc (p ∷ ps) =
    let more = gather (acc ++ drop 2 p) ps in
    if not (is_fragment p) || starts p
    then none
    else if ends p
    then (if leb (length ps) 0 then some (acc ++ drop 2 p) else none)
    else more

-- The NAL unit of a sequence of payloads: one that is no fragment, or fragments from start to end.
pub depacketize : List (List ℕ) → Option (List ℕ)
depacketize [] = none
depacketize (p ∷ ps) =
    if is_fragment p
    then (if starts p && not (ends p)
        then gather ((get_or p 0 0 / 32 * 32 + get_or p 1 0 % 32) ∷ drop 2 p) ps
        else none)
    else if leb (length ps) 0
    then some p
    else none

-- The callback that keeps every packet, in order.
abbrev pub collect : Callback (List RtpPacket)
collect = some (λ pkt s. (s ++ (pkt ∷ []), true))

payload-frame_packet :
    (fresh : List ℕ) (frame : NalFrame) (ts last : ℕ) (p : List ℕ)
    → length fresh ≡ packet_capacity
    → payload (frame_packet fresh frame ts last p) ≡ p
unfolding frame_packet
payload-frame_packet fresh frame ts last p h =
    let size : length p + 4 + 12 - 16 ≡ length p = omega arith in
    rw size (slice-write_at fresh payload_offset p (omega arith))

gather-last :
    (b t : ℕ) (rest acc : List ℕ)
    → t < 32
    → gather acc (((b / 32 * 32 + 28) ∷ bit_or t 0x40 ∷ rest) ∷ []) ≡ some (acc ++ rest)
unfolding gather
gather-last b t rest acc h = ground (arith, set_end t)

gather-inner :
    (b t : ℕ) (some_bytes acc : List ℕ) (ps : List (List ℕ))
    → t < 32
    → gather acc (((b / 32 * 32 + 28) ∷ t ∷ some_bytes) ∷ ps) ≡ gather (acc ++ some_bytes) ps
unfolding gather
gather-inner b t some_bytes acc ps h = ground arith

-- The last packet, and no other, is marked as the last.
abbrev pub OnlyLast : List RtpPacket → Type 0
OnlyLast [] = ⊥
OnlyLast (p ∷ []) = p.last ≡ 1
OnlyLast (p ∷ q ∷ ps) = (p.last ≡ 0) × OnlyLast (q ∷ ps)

OnlyLast-cons : (p : RtpPacket) (ps : List RtpPacket) → p.last ≡ 0 → OnlyLast ps → OnlyLast (p ∷ ps)
OnlyLast-cons p [] e h = absurd h
OnlyLast-cons p (q ∷ ps) e h = (e, h)

module _ (fresh : List ℕ) (frame : NalFrame) (ts : ℕ) where
  -- The packets that the loop and the block behind it send.
  fragments : ℕ → ℕ → ℕ → List ℕ → List RtpPacket
  fragments zero fu0 fu1 rest = frame_packet fresh frame ts 1 (fu0 ∷ bit_or fu1 0x40 ∷ rest) ∷ []
  fragments (suc fuel) fu0 fu1 rest = elim (ltb max_rtp_payload_size (length rest + 2)) [
    | false ↦ frame_packet fresh frame ts 1 (fu0 ∷ bit_or fu1 0x40 ∷ rest) ∷ []
    | true ↦
        frame_packet fresh frame ts 0 (fu0 ∷ fu1 ∷ take chunk rest)
        ∷ fragments fuel fu0 (bit_and fu1 0x7f) (drop chunk rest)
  ]

  send_fragments-fragments :
      (fuel fu0 fu1 : ℕ) (rest : List ℕ) (s : List RtpPacket)
      → send_fragments collect fresh frame ts fuel fu0 fu1 rest s
        ≡ (s ++ fragments fuel fu0 fu1 rest, true)
  unfolding send_fragments fragments
  send_fragments-fragments zero fu0 fu1 rest s = refl
  send_fragments-fragments (suc fuel) fu0 fu1 rest s =
      elim (Bool-cases (ltb max_rtp_payload_size (length rest + 2))) [
        | inl e ↦
            rw (e, send_fragments, fragments)
              (send_fragments-fragments fuel fu0 (bit_and fu1 0x7f) (drop chunk rest) _
                ∙ rw append_assoc)
        | inr e ↦ rw (e, send_fragments, fragments)
      ]

  module _ (full : length fresh ≡ packet_capacity) where
    gather-fragments :
        (fuel b t : ℕ) (rest acc : List ℕ)
        → t < 32
        → gather acc (map payload (fragments fuel (b / 32 * 32 + 28) t rest)) ≡ some (acc ++ rest)
    unfolding fragments
    gather-fragments zero b t rest acc ht =
        rw (payload-frame_packet fresh frame ts 1 _ full) (gather-last b t rest acc ht)
    gather-fragments (suc fuel) b t rest acc ht =
        elim (Bool-cases (ltb max_rtp_payload_size (length rest + 2))) [
          | inl e ↦
              let fu1 : bit_and t 0x7f ≡ t = omega (arith, clear_start t) in
              rw (e, fragments)
                (rw (payload-frame_packet fresh frame ts 0 _ full) (
                  gather-inner b t (take chunk rest) acc _ ht
                  ∙ rw fu1 (
                      gather-fragments fuel b t (drop chunk rest) (acc ++ take chunk rest) ht
                      ∙ ap some
                          (append_assoc acc _ _ ∙ ap (◌++◌ acc) (take-append-drop chunk rest)))))
          | inr e ↦
              rw (e, fragments)
                (rw (payload-frame_packet fresh frame ts 1 _ full) (gather-last b t rest acc ht))
        ]

  -- Every packet fits its buffer.
  fragments_bounded :
      (fuel fu0 fu1 : ℕ) (rest : List ℕ)
      → length rest ≤ fuel
      → All (λ p. p.size ≤ packet_capacity) (fragments fuel fu0 fu1 rest)
  unfolding fragments frame_packet
  fragments_bounded zero fu0 fu1 rest h = (omega arith, tt)
  fragments_bounded (suc fuel) fu0 fu1 rest h =
      elim (Bool-cases (ltb max_rtp_payload_size (length rest + 2))) [
        | inl e ↦
            rw (e, fragments)
              (
                omega (arith, length-take chunk rest),
                fragments_bounded fuel fu0 _ (drop chunk rest)
                    (omega (arith, length-drop chunk rest)),
              )
        | inr e ↦ rw (e, fragments) (omega (arith, ltb_false→le _ _ e), tt)
      ]

  fragments-OnlyLast : (fuel fu0 fu1 : ℕ) (rest : List ℕ) → OnlyLast (fragments fuel fu0 fu1 rest)
  unfolding fragments frame_packet
  fragments-OnlyLast zero fu0 fu1 rest = refl
  fragments-OnlyLast (suc fuel) fu0 fu1 rest =
      elim (Bool-cases (ltb max_rtp_payload_size (length rest + 2))) [
        | inl e ↦
            rw (e, fragments)
              (OnlyLast-cons (frame_packet fresh frame ts 0 (fu0 ∷ fu1 ∷ take chunk rest)) _ refl
                (fragments-OnlyLast fuel fu0 _ (drop chunk rest)))
        | inr e ↦ rw (e, fragments) refl
      ]

-- Everything that a collecting callback receives for one frame, and what `HandleFrame` returns.
abbrev pub sent : List ℕ → ℕ → NalFrame → List RtpPacket × Bool
sent fresh now frame = handle_frame collect fresh now frame []

-- What a receiver needs of the packets of a NAL unit.
pub record Delivers (unit : List ℕ) (r : List RtpPacket × Bool) : Type 0 where
  pub succeeds : r.1 ≡ true
  pub whole : depacketize (map payload r.0) ≡ some unit
  pub bounded : All (λ p. p.size ≤ packet_capacity) r.0
  pub marked : OnlyLast r.0

depacketize_one : (b : ℕ) (bs : List ℕ) → b % 32 ≢ 28 → depacketize ((b ∷ bs) ∷ []) ≡ some (b ∷ bs)
unfolding depacketize
depacketize_one b bs h = ground arith

depacketize-start :
    (b : ℕ) (bs : List ℕ) (ps : List (List ℕ))
    → b < 256
    → depacketize (((b / 32 * 32 + 28) ∷ (b % 32 + 128) ∷ bs) ∷ ps) ≡ gather (b ∷ bs) ps
unfolding depacketize
depacketize-start b bs ps h =
    let whole : (b / 32 * 32 + 28) / 32 * 32 + (b % 32 + 128) % 32 ≡ b = omega arith in
    let fragment : (((b / 32 * 32 + 28) % 32) == 28) ≡ true = ground arith in
    let start : leb 128 (b % 32 + 128) ≡ true = ground arith in
    let not_end : leb 64 ((b % 32 + 128) % 128) ≡ false = ground arith in
    rw (fragment, start, not_end, whole)

module _ (fresh : List ℕ) (full : length fresh ≡ packet_capacity) (frame : NalFrame) (ts : ℕ) where
  depacketize-fragments :
      (b : ℕ) (bs : List ℕ)
      → b < 256
      → max_rtp_payload_size ≤ length bs
      → depacketize (
          map payload (fragments fresh frame ts (suc (length bs)) (fu_indicator b) (fu_start b) bs))
        ≡ some (b ∷ bs)
  unfolding fragments
  depacketize-fragments b bs hb large =
      let more : ltb max_rtp_payload_size (length bs + 2) ≡ true = lt→ltb _ _ (omega arith) in
      let middle : bit_and (b % 32 + 128) 0x7f ≡ b % 32 =
        omega (arith, clear_start (b % 32 + 128)) in
      rw (fu_indicator_lem b hb, fu_start_lem b hb)
        (rw (more, fragments)
          (rw (payload-frame_packet fresh frame ts 0 _ full) (
            depacketize-start b (take chunk bs) _ hb
            ∙ rw middle (
                gather-fragments fresh frame ts full (length bs) b (b % 32) (drop chunk bs)
                  (b ∷ take chunk bs) (omega arith)
                ∙ ap (λ (r : List ℕ). some (b ∷ r)) (take-append-drop chunk bs)))))

-- A NAL unit whose type is not that of a fragment, sent through a callback that accepts every
-- packet: the payloads put together as RFC 6184 says are the NAL unit, every packet fits its buffer,
-- and the last packet and no other is marked as the last.
pub handle_frame-Delivers :
    (fresh : List ℕ) (now b : ℕ) (bs : List ℕ) (kind timestamp : ℕ)
    → length fresh ≡ packet_capacity
    → IsByte b
    → b % 32 ≢ 28
    → Delivers
        (b ∷ bs)
        (sent fresh now (record { buffer = b ∷ bs; kind = kind; timestamp = timestamp }))
unfolding handle_frame send_frame
handle_frame-Delivers fresh now b bs kind timestamp full hb ht =
    elim (Bool-cases (leb (suc (length bs)) max_rtp_payload_size)) [
      | inl small ↦ rw small (record {
        succeeds = refl;
        whole = rw (payload-frame_packet fresh frame ts 1 (b ∷ bs) full) (depacketize_one b bs ht);
        bounded = (unfold frame_packet in ground arith, tt);
        marked = unfold frame_packet in refl;
      })
      | inr large ↦
          rw
            (
              large,
              send_fragments-fragments fresh frame ts (suc (length bs)) (fu_indicator b)
                  (fu_start b) bs [],
            )
            (record {
              succeeds = refl;
              whole = depacketize-fragments fresh full frame ts b bs hb (ground arith);
              bounded = fragments_bounded fresh frame ts _ _ _ _ (omega arith);
              marked = fragments-OnlyLast fresh frame ts _ _ _ _;
            })
    ]
  where
    frame : NalFrame
    frame = record { buffer = b ∷ bs; kind = kind; timestamp = timestamp }

    ts : ℕ
    ts = if timestamp == 0 then now else timestamp
