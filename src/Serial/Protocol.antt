-- ===== src/Serial/Protocol.antt =====
-- `LineProtocol`, `LengthProtocol` and `RawProtocol` of src/serial/serial_protocol.cpp. Each loop gives
-- the frames and the buffer it leaves; `none` is fuel run out.
pub mod Lines
pub mod Lengths
use ai_camera.Base.Text.{same_text, find}
use ai_camera.Base.{
  ℕ, zero, suc, ◌+◌, ◌-◌, ◌*◌, ◌/◌, ◌%◌, ◌^◌, ◌≤◌, ◌<◌, ◌≡◌, refl, sym, ap, ◌∙◌, ◌≢◌, ◌↔◌, ◌⊎◌, inl,
  inr, Bool, true, false, not, ◌&&◌, ◌||◌, Option, none, some, List, [], ◌∷◌, ◌++◌, map, arith,
  dec_lt, dec_le, ℕ_discrete, ltb, leb, ◌==◌, if◌then◌else◌, ltb→lt, lt→ltb, ltb_false→le,
  le→ltb_false, ==_iff, ==_refl, Bool-cases, Option-cases, codes, length, get_or, take, drop,
  replicate, All, length-append, length-take, length-drop, take-append-drop, take-length,
  drop-length, take-append_le, drop-append_le, get_or-append_left, All-append, All-take, All-drop,
}
use Prim.Native.Nat.{bit_or}
use ai_camera.Base.Bytes.{to_u32}

abbrev pub Framing : Type 0
Framing = Option (List (List ℕ) × List ℕ)

-- A frame ahead of the others.
abbrev pub framed : List ℕ → Framing → Framing
framed frame none = none
framed frame (some (frames, left)) = some (frame ∷ frames, left)

-- The loop of `LineProtocol::OnData`.
unfoldable pub split_lines : ℕ → List ℕ → List ℕ → Framing
split_lines zero delimiter buffer = none
split_lines (suc fuel) delimiter buffer = elim (find delimiter buffer) [
  | none ↦ some ([], buffer)
  | some pos ↦
      framed (take pos buffer) (split_lines fuel delimiter (drop (pos + length delimiter) buffer))
]

abbrev pub line_on_data : ℕ → List ℕ → List ℕ → List ℕ → Framing
line_on_data fuel delimiter buffer bytes = split_lines fuel delimiter (buffer ++ bytes)

-- `LineProtocol::WrapFrame`.
abbrev pub wrap_line : List ℕ → List ℕ → List ℕ
wrap_line delimiter payload = payload ++ delimiter

pub record LengthProtocol : Type 0 where
  pub field_size : ℕ
  pub big_endian : Bool
  pub offset : ℕ
  pub max_frame : ℕ

-- The loops over the field, from its first byte on; the shift of the second is below 32 for the
-- field sizes that the class is documented for.
unfoldable pub read_big : ℕ → List ℕ → ℕ → ℕ
read_big zero field value = value
read_big (suc n) field value = read_big n (drop 1 field) (to_u32 (value * 256) + get_or field 0 0)

unfoldable pub read_little : ℕ → List ℕ → ℕ → ℕ → ℕ
read_little zero field shift value = value
read_little (suc n) field shift value =
    read_little n (drop 1 field) (shift + 8) (bit_or value (to_u32 (get_or field 0 0 * 2 ^ shift)))

unfoldable pub payload_len : LengthProtocol → List ℕ → ℕ
unfolding read_big read_little
payload_len p buffer =
    if p.big_endian
    then read_big p.field_size (drop p.offset buffer) 0
    else read_little p.field_size (drop p.offset buffer) 0 0

abbrev pub frame_size : LengthProtocol → List ℕ → ℕ
frame_size p buffer = to_u32 (p.offset + p.field_size + payload_len p buffer)

-- The loop of `LengthProtocol::OnData`.
unfoldable pub split_lengths : ℕ → LengthProtocol → List ℕ → Framing
split_lengths zero p buffer = none
split_lengths (suc fuel) p buffer = elim (leb (to_u32 (p.offset + p.field_size)) (length buffer)) [
  | false ↦ some ([], buffer)
  | true ↦ elim (ltb p.max_frame (payload_len p buffer)) [
    | true ↦ some ([], [])
    | false ↦ elim (ltb (length buffer) (frame_size p buffer)) [
      | true ↦ some ([], buffer)
      | false ↦
          framed (take (frame_size p buffer) buffer)
            (split_lengths fuel p (drop (frame_size p buffer) buffer))
    ]
  ]
]

abbrev pub length_on_data : ℕ → LengthProtocol → List ℕ → List ℕ → Framing
length_on_data fuel p buffer bytes = split_lengths fuel p (buffer ++ bytes)

-- `RawProtocol::OnData`.
abbrev pub raw_on_data : List ℕ → List (List ℕ)
raw_on_data bytes = bytes ∷ []

-- What `CreateProtocol` makes of a name and the fields of the configuration.
pub data Protocol : Type 0 where
  line_protocol : List ℕ → Protocol
  length_protocol : LengthProtocol → Protocol
  raw_protocol : Protocol

unfoldable pub create_protocol : List ℕ → LengthProtocol → Option Protocol
unfolding same_text
create_protocol name config =
    if same_text name (codes "line")
    then some (line_protocol (10 ∷ []))
    else if same_text name (codes "length")
    then some (length_protocol config)
    else if same_text name (codes "raw")
    then some raw_protocol
    else none
