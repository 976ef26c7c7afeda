-- ===== src/Rtp/RawSource.antt =====
-- `RawH264NALSource`, src/rtp/rawh264source.cpp: the NAL units of an Annex B stream and the frames made
-- of them. A unit of a frame is its NAL unit with its index, which the source takes for both times.
pub mod Frames
pub mod Streams
use mathlib.Core.Option
use ai_camera.Base.{
  ℕ, zero, suc, ◌+◌, ◌-◌, ◌*◌, ◌/◌, ◌%◌, ◌^◌, ◌≤◌, ◌<◌, ◌≡◌, refl, sym, ap, ◌∙◌, ◌≢◌, ◌↔◌, ◌⊎◌, inl,
  inr, Bool, true, false, not, ◌&&◌, ◌||◌, Option, none, some, List, [], ◌∷◌, ◌++◌, map, arith,
  dec_lt, dec_le, ℕ_discrete, ltb, leb, ◌==◌, if◌then◌else◌, ltb→lt, lt→ltb, ltb_false→le,
  le→ltb_false, ==_iff, ==_refl, Bool-cases, Option-cases, codes, length, get_or, take, drop,
  replicate, All, length-append, length-take, length-drop, take-append-drop, take-length,
  drop-length, take-append_le, drop-append_le, get_or-append_left, All-append, All-take, All-drop,
}

pub record NalData : Type 0 where
  pub bytes : List ℕ
  pub nal_type : ℕ

pub record NalUnit : Type 0 where
  pub nal : NalData
  pub is_keyframe : Bool
  pub pts : ℕ
  pub dts : ℕ

pub record RawSource : Type 0 where
  pub cached_nals : List NalData
  pub sps : List ℕ
  pub pps : List ℕ
  pub nal_index : ℕ
  pub is_opened : Bool
  pub eof_reached : Bool

-- The length of the start code that the rest of the stream begins with, or 0.
unfoldable pub start_code_size : List ℕ → ℕ
start_code_size rest =
    if leb 4 (length rest)
      && get_or rest 0 0 == 0
      && get_or rest 1 0 == 0
      && get_or rest 2 0 == 0
      && get_or rest 3 0 == 1
    then 4
    else if leb 3 (length rest)
        && get_or rest 0 0 == 0
        && get_or rest 1 0 == 0
        && get_or rest 2 0 == 1
    then 3
    else 0

-- The bytes up to the next start code, the loop on `j`.
unfoldable pub nal_bytes : List ℕ → List ℕ
unfolding start_code_size
nal_bytes [] = []
nal_bytes (b ∷ bs) =
    let rest = nal_bytes bs in if start_code_size (b ∷ bs) == 0 then b ∷ rest else []

abbrev pub add_nal : List ℕ → List NalData → List NalData
add_nal [] nals = nals
add_nal (b ∷ bs) nals = record { bytes = b ∷ bs; nal_type = b % 32 } ∷ nals

-- The loop on `i`, on the rest of the stream; `none` is fuel run out.
unfoldable pub extract_nal_units : ℕ → List ℕ → Option (List NalData)
unfolding nal_bytes
extract_nal_units fuel [] = some []
extract_nal_units zero (b ∷ bs) = none
extract_nal_units (suc fuel) (b ∷ bs) = elim (start_code_size (b ∷ bs) == 0) [
  | true ↦ extract_nal_units fuel bs
  | false ↦
      let size = start_code_size (b ∷ bs) in
      let nal = nal_bytes (drop size (b ∷ bs)) in
      elim (extract_nal_units fuel (drop (size + length nal) (b ∷ bs))) [
        | none ↦ none
        | some nals ↦ some (add_nal nal nals)
      ]
]

-- The bytes of the last unit of a type, or what was kept before.
unfoldable pub last_of_type : ℕ → List NalData → List ℕ → List ℕ
last_of_type kind [] kept = kept
last_of_type kind (n ∷ ns) kept =
    last_of_type kind ns (if n.nal_type == kind then n.bytes else kept)

-- `Open` with the units extracted; none of them is a failure.
unfoldable pub with_nals : RawSource → List NalData → RawSource × Bool
unfolding last_of_type
with_nals s nals = if length nals == 0 then (record s { cached_nals = nals }, false) else (
  record {
    cached_nals = nals;
    sps = last_of_type 7 nals s.sps;
    pps = last_of_type 8 nals s.pps;
    nal_index = 0;
    is_opened = true;
    eof_reached = false;
  },
  true,
)

-- `Open` on what `ReadFile` returns, with enough fuel for its bytes, and the answer it gives.
unfoldable pub open_source : RawSource → List ℕ → Option (RawSource × Bool)
unfolding extract_nal_units with_nals
open_source s [] = some (s, false)
open_source s (b ∷ bs) = Option.map (with_nals s) (extract_nal_units (length (b ∷ bs)) (b ∷ bs))

abbrev pub is_vcl : NalData → Bool
is_vcl n = leb 1 n.nal_type && leb n.nal_type 5

abbrev pub unit_of : NalData → ℕ → NalUnit
unit_of n index = record { nal = n; is_keyframe = n.nal_type == 5; pts = index; dts = index }

-- The loop of `ReadNextFrame`, on the units from `nal_index_` on.
unfoldable pub read_units : List NalData → ℕ → List NalUnit → ℕ → List NalUnit × ℕ
read_units [] index frame first_vcl_type = (frame, index)
read_units (n ∷ ns) index frame first_vcl_type =
    let vcl_type = (if is_vcl n then n.nal_type else first_vcl_type) in
    if length frame == 0
    then read_units ns (index + 1) (frame ++ (unit_of n index ∷ [])) vcl_type
    else if is_vcl n && not (first_vcl_type == 0)
    then (frame, index)
    else if n.nal_type == 9
    then read_units ns (index + 1) frame first_vcl_type
    else read_units ns (index + 1) (frame ++ (unit_of n index ∷ [])) vcl_type

unfoldable pub read_next_frame : RawSource → RawSource × Option (List NalUnit)
unfolding read_units
read_next_frame s =
    if not s.is_opened || s.eof_reached || leb (length s.cached_nals) s.nal_index
    then (record s { eof_reached = true }, none)
    else (let (frame, index) = read_units (drop s.nal_index s.cached_nals) s.nal_index [] 0 in
        if length frame == 0
        then (record s { nal_index = index; eof_reached = true }, none)
        else (record s { nal_index = index }, some frame))

abbrev pub has_more_data : RawSource → Bool
has_more_data s = s.is_opened && not s.eof_reached && ltb s.nal_index (length s.cached_nals)

-- `Seek`, which ignores the time it is given, and `Reset`.
abbrev pub rewound : RawSource → RawSource
rewound s = record s { nal_index = 0; eof_reached = false }

abbrev pub closed_source : RawSource → RawSource
closed_source s = record {
  cached_nals = [];
  sps = [];
  pps = [];
  nal_index = 0;
  is_opened = false;
  eof_reached = false;
}
