-- ===== src/Rtp/H264.antt =====
-- `H264Source::HandleFrame`, src/rtp/h264source.cpp: a NAL unit goes out in one packet, or in FU-A
-- fragments. The callback is a function of a state of the caller's; `fresh` is what an allocation
-- leaves in a new packet's buffer and `now` what `GetTimestamp` returns.
pub mod Reassembly
use ai_camera.Base.{
  ℕ, zero, suc, ◌+◌, ◌-◌, ◌*◌, ◌/◌, ◌%◌, ◌^◌, ◌≤◌, ◌<◌, ◌≡◌, refl, sym, ap, ◌∙◌, ◌≢◌, ◌↔◌, ◌⊎◌, inl,
  inr, Bool, true, false, not, ◌&&◌, ◌||◌, Option, none, some, List, [], ◌∷◌, ◌++◌, map, arith,
  dec_lt, dec_le, ℕ_discrete, ltb, leb, ◌==◌, if◌then◌else◌, ltb→lt, lt→ltb, ltb_false→le,
  le→ltb_false, ==_iff, ==_refl, Bool-cases, Option-cases, codes, length, get_or, take, drop,
  replicate, All, length-append, length-take, length-drop, take-append-drop, take-length,
  drop-length, take-append_le, drop-append_le, get_or-append_left, All-append, All-take, All-drop,
}
use Prim.Native.Nat.{bit_and, bit_or}
use ai_camera.Base.Bytes.{to_u8}
use ai_camera.Rtp.Packet.{
  RtpPacket, new_packet, write_at, rtp_header_size, rtp_tcp_head_size, max_rtp_payload_size,
}

pub record NalFrame : Type 0 where
  pub buffer : List ℕ
  pub kind : ℕ
  pub timestamp : ℕ

-- Where the payload starts in a packet's buffer.
abbrev pub payload_offset : ℕ
payload_offset = rtp_header_size + rtp_tcp_head_size

-- A packet of the frame with this payload, its size set to the payload's.
unfoldable pub frame_packet : List ℕ → NalFrame → ℕ → ℕ → List ℕ → RtpPacket
frame_packet fresh frame ts last payload = record (new_packet fresh) {
  size = length payload + rtp_tcp_head_size + rtp_header_size;
  timestamp = ts;
  kind = frame.kind;
  last = last;
  bytes = write_at fresh payload_offset payload;
}

-- The two FU-A bytes of the first fragment.
abbrev pub fu_indicator : ℕ → ℕ
fu_indicator b = bit_or (bit_and b 0xe0) 28

abbrev pub fu_start : ℕ → ℕ
fu_start b = bit_or (bit_and b 0x1f) 0x80

abbrev pub chunk : ℕ
chunk = max_rtp_payload_size - 2

-- Optional callback; a missing one counts as a success.
abbrev pub Callback {ℓ} : Type ℓ → Type ℓ
Callback S = Option (RtpPacket → S → S × Bool)

module _ {ℓ} {S : Type ℓ} (callback : Callback S) (fresh : List ℕ) (frame : NalFrame) (ts : ℕ) where
  unfoldable pub call_back : RtpPacket → S → S × Bool
  call_back pkt s = elim callback [ none ↦ (s, true) | some send ↦ send pkt s ]

  -- The block behind the loop.
  unfoldable pub send_last : ℕ → ℕ → List ℕ → S → S × Bool
  unfolding call_back
  send_last fu0 fu1 rest s =
      call_back (frame_packet fresh frame ts 1 (fu0 ∷ bit_or fu1 0x40 ∷ rest)) s

  -- The loop, on the bytes that are left; each round takes `chunk` of them. Frames are smaller than
  -- 2^32 - 2 bytes, so that the 32 bits of the count do not wrap.
  unfoldable pub send_fragments : ℕ → ℕ → ℕ → List ℕ → S → S × Bool
  unfolding call_back send_last
  send_fragments zero fu0 fu1 rest s = send_last fu0 fu1 rest s
  send_fragments (suc fuel) fu0 fu1 rest s = elim (ltb max_rtp_payload_size (length rest + 2)) [
    | false ↦ send_last fu0 fu1 rest s
    | true ↦
        (let (s', sent) =
            call_back (frame_packet fresh frame ts 0 (fu0 ∷ fu1 ∷ take chunk rest)) s in
          elim sent [
            | false ↦ (s', false)
            | true ↦ send_fragments fuel fu0 (bit_and fu1 0x7f) (drop chunk rest) s'
          ])
  ]

  -- `HandleFrame` with the timestamp chosen; the loop has at most as many rounds as there are bytes.
  unfoldable pub send_frame : S → S × Bool
  unfolding call_back send_fragments
  send_frame s =
      if leb (length frame.buffer) max_rtp_payload_size
      then call_back (frame_packet fresh frame ts 1 frame.buffer) s
      else send_fragments (length frame.buffer) (fu_indicator (get_or frame.buffer 0 0))
          (fu_start (get_or frame.buffer 0 0)) (drop 1 frame.buffer) s

unfoldable pub handle_frame {ℓ} : {S : Type ℓ} → Callback S → List ℕ → ℕ → NalFrame → S → S × Bool
unfolding send_frame
handle_frame callback fresh now frame s =
    send_frame callback fresh frame (if frame.timestamp == 0 then now else frame.timestamp) s
