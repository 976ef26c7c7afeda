-- ===== src/Serial/Protocol/Lengths.antt =====
-- When the loop of `LengthProtocol::OnData`, src/serial/serial_protocol.cpp, ends.
use ai_camera.Base.{
  ◌^◌, ℕ, zero, suc, ◌+◌, ◌<◌, ◌≡◌, refl, ◌≢◌, Bool, true, false, none, some, List, arith, ltb, leb,
  length, drop, length-drop,
}
use ai_camera.Serial.Protocol.{
  Framing, framed, LengthProtocol, read_big, read_little, payload_len, frame_size, split_lengths,
}

-- With a field or an offset of at least a byte, and frames whose size fits 32 bits, the loop ends: the
-- buffer's length and one more round are fuel enough.
pub split_lengths-ends :
    (fuel : ℕ) (p : LengthProtocol) (buffer : List ℕ)
    → 0 < p.offset + p.field_size
    → p.offset + p.field_size + p.max_frame < 2 ^ 32
    → length buffer < fuel
    → split_lengths fuel p buffer ≢ none
unfolding split_lengths
split_lengths-ends zero p buffer some_head narrow enough = elim enough [ ]
split_lengths-ends (suc fuel) p buffer some_head narrow enough = ground (
  arith,
  split_lengths-ends fuel p (drop (frame_size p buffer) buffer),
  length-drop (frame_size p buffer) buffer,
  framed-some,
)
  where
    framed-some : (frame : List ℕ) (r : Framing) → r ≢ none → framed frame r ≢ none
    framed-some frame none h = λ e. h refl
    framed-some frame (some r) h = λ e. cc

-- A protocol with an empty field at offset 0.
abbrev pub headless : Bool → ℕ → LengthProtocol
headless big_endian max_frame = record {
  field_size = 0;
  big_endian = big_endian;
  offset = 0;
  max_frame = max_frame;
}

payload_len-headless :
    (b : Bool) (max_frame : ℕ) (buffer : List ℕ) → payload_len (headless b max_frame) buffer ≡ 0
unfolding payload_len read_big read_little
payload_len-headless true max_frame buffer = refl
payload_len-headless false max_frame buffer = refl

-- With an empty field at offset 0, as a configuration may ask for, the loop does not end on any
-- buffer, however long it runs.
pub split_lengths-endless :
    (fuel : ℕ) (big_endian : Bool) (max_frame : ℕ) (buffer : List ℕ)
    → split_lengths fuel (headless big_endian max_frame) buffer ≡ none
unfolding split_lengths
split_lengths-endless zero big_endian max_frame buffer = refl
split_lengths-endless (suc fuel) big_endian max_frame buffer =
    let p = headless big_endian max_frame in
    let len = payload_len-headless big_endian max_frame buffer in
    let size : frame_size p buffer ≡ 0 = omega (arith, len) in
    let there : leb 0 (length buffer) ≡ true = ground arith in
    let allowed : ltb max_frame (payload_len p buffer) ≡ false = ground (arith, len) in
    let whole : ltb (length buffer) (frame_size p buffer) ≡ false = ground (arith, size) in
    rw
      (
        there,
        split_lengths,
        allowed,
        whole,
        size,
        split_lengths-endless fuel big_endian max_frame buffer,
      )
      refl
