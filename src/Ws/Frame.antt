-- ===== src/Ws/Frame.antt =====
-- Frame headers, masking and server frames: include/server/ws/ws_frame.hpp. A buffer is the list
-- of its bytes, so `bytes[i]` is `get_or bytes i 0` and `size` is the length. `a << 8 | b` is written
-- `a * 256 + b`, which is the same number for a byte `b`.
pub mod Masking
pub mod RoundTrip
pub mod Prefix
pub mod Bounds
use Prim.Native.Nat.{bit_and, bit_or, bit_xor}
use ai_camera.Base.{
  ℕ, zero, suc, ◌+◌, ◌-◌, ◌*◌, ◌/◌, ◌%◌, ◌^◌, List, [], ◌∷◌, ◌++◌, Bool, true, false, not, ◌||◌,
  Option, none, some, ltb, leb, ◌==◌, if◌then◌else◌, length, get_or,
}
use ai_camera.Base.Bytes.{shr, low_bits, to_u8}
use ai_camera.Ws.Types.{OpCode, code_of, is_valid_op_code}

pub record Header : Type 0 where
  pub fin : Bool
  pub opcode : OpCode
  pub masked : Bool
  pub header_len : ℕ
  pub payload_len : ℕ
  pub mask_key : ℕ

abbrev pub default_header : Header
default_header = record {
  fin = false;
  opcode = OpCode.text;
  masked = false;
  header_len = 0;
  payload_len = 0;
  mask_key = 0;
}

-- The payload length that marks a protocol error.
abbrev pub uint64_max : ℕ
uint64_max = 2 ^ 64 - 1

abbrev pub frame_total_size : Header → ℕ
frame_total_size hdr = hdr.header_len + hdr.payload_len

-- `static_cast<OpCode>(op)`, which is made of valid codes only.
abbrev pub opcode_of : ℕ → OpCode
opcode_of op =
    if op == 0x0
    then OpCode.continuation
    else if op == 0x1
    then OpCode.text
    else if op == 0x2
    then OpCode.binary
    else if op == 0x8
    then OpCode.close
    else if op == 0x9
    then OpCode.ping
    else OpCode.pong

abbrev pub ext_len_bytes : ℕ → ℕ
ext_len_bytes len7 = if len7 == 126 then 2 else if len7 == 127 then 8 else 0

-- The bytes `bytes[i]` to `bytes[i + 3]`, highest first.
abbrev pub be32 : List ℕ → ℕ → ℕ
be32 bytes i =
    ((get_or bytes i 0 * 256 + get_or bytes (i + 1) 0) * 256 + get_or bytes (i + 2) 0) * 256
    + get_or bytes (i + 3) 0

-- The payload length that a header of enough bytes states; `none` is a protocol error.
unfoldable pub parse_payload_len : List ℕ → ℕ → Option ℕ
parse_payload_len bytes len7 =
    if leb len7 125
    then some len7
    else if len7 == 126
    then (let len = get_or bytes 2 0 * 256 + get_or bytes 3 0 in
        if ltb len 126 then none else some len)
    else if not (get_or bytes 2 0 == 0)
        || not (get_or bytes 3 0 == 0)
        || not (get_or bytes 4 0 == 0)
        || not (get_or bytes 5 0 == 0)
    then none
    else (let len = be32 bytes 6 in if ltb len 65536 then none else some len)

-- The rest of `ParseHeader`, once the buffer is known to hold the whole header.
unfoldable pub finish_header : List ℕ → ℕ → Header → Option ℕ → ℕ × Header
finish_header bytes len7 hdr none = (0, record hdr { payload_len = uint64_max })
finish_header bytes len7 hdr (some len) =
    let hdr' = record hdr { payload_len = len } in
    (
      hdr.header_len,
      (if hdr.masked then record hdr' { mask_key = be32 bytes (2 + ext_len_bytes len7) } else hdr'),
    )

-- From the second byte on; `hdr1` has the first byte's fields.
unfoldable pub parse_second : List ℕ → Header → ℕ × Header
parse_second bytes hdr1 =
    let b1 = get_or bytes 1 0 in
    let masked = not (bit_and b1 0x80 == 0) in
    let hdr2 = record hdr1 { masked = masked } in
    let len7 = low_bits b1 7 in
    let header_len = 2 + ext_len_bytes len7 + (if masked then 4 else 0) in
    if ltb (length bytes) header_len
    then (0, hdr2)
    else finish_header bytes len7 (record hdr2 { header_len = header_len })
        (parse_payload_len bytes len7)

-- The result is the header's length, or 0, and what became of `hdr`.
unfoldable pub parse_header : List ℕ → Header → ℕ × Header
parse_header bytes hdr =
    if ltb (length bytes) 2
    then (0, hdr)
    else (let b0 = get_or bytes 0 0 in
        let hdr1 = record hdr { fin = not (bit_and b0 0x80 == 0) } in
        let op = low_bits b0 4 in
        if not (bit_and b0 0x70 == 0) || not (is_valid_op_code op)
        then (0, record hdr1 { payload_len = uint64_max })
        else parse_second bytes (record hdr1 { opcode = opcode_of op }))

-- `mask[i % 4]`: the key's bytes, highest first.
abbrev pub mask_byte : ℕ → ℕ → ℕ
mask_byte mask_key i =
    let r = i % 4 in
    if r == 0
    then to_u8 (shr mask_key 24)
    else if r == 1
    then to_u8 (shr mask_key 16)
    else if r == 2
    then to_u8 (shr mask_key 8)
    else to_u8 mask_key

-- The loop of `ApplyMask` from index `i` on.
unfoldable pub mask_from : ℕ → List ℕ → ℕ → List ℕ
mask_from i [] mask_key = []
mask_from i (b ∷ bs) mask_key = bit_xor b (mask_byte mask_key i) ∷ mask_from (suc i) bs mask_key

unfoldable pub apply_mask : List ℕ → ℕ → List ℕ
unfolding mask_from
apply_mask payload mask_key = mask_from 0 payload mask_key

-- The first byte: FIN and the opcode.
abbrev pub first_byte : Bool → OpCode → ℕ
first_byte fin opcode = if fin then bit_or (code_of opcode) 0x80 else code_of opcode

-- The second byte and the extended length.
unfoldable pub encode_len : ℕ → List ℕ
encode_len len =
    if leb len 125
    then to_u8 len ∷ []
    else if leb len 65535
    then 126 ∷ to_u8 (shr len 8) ∷ to_u8 len ∷ []
    else 127
      ∷ to_u8 (shr len 56)
      ∷ to_u8 (shr len 48)
      ∷ to_u8 (shr len 40)
      ∷ to_u8 (shr len 32)
      ∷ to_u8 (shr len 24)
      ∷ to_u8 (shr len 16)
      ∷ to_u8 (shr len 8)
      ∷ to_u8 len
      ∷ []

unfoldable pub encode_server_frame : Bool → OpCode → List ℕ → List ℕ
encode_server_frame fin opcode payload =
    first_byte fin opcode ∷ (encode_len (length payload) ++ payload)
