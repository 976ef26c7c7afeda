-- ===== src/Rtp/RawSource/Frames.antt =====
-- The frames that `ReadNextFrame` of src/rtp/rawh264source.cpp makes.
use mathlib.Core.List.{append_assoc, append-nil}
use ai_camera.Base.{
  ◌-◌, take, sym, ◌∙◌, ℕ, suc, ◌+◌, ◌≤◌, ◌<◌, ◌≡◌, refl, inl, inr, true, false, not, ◌&&◌, some,
  List, [], ◌∷◌, ◌++◌, arith, leb, ◌==◌, if◌then◌else◌, Bool-cases, length, drop, length-append,
  length-drop,
}
use ai_camera.Rtp.RawSource.{
  NalData, NalUnit, RawSource, is_vcl, unit_of, read_units, read_next_frame,
}

-- How many coded slices a frame has.
abbrev pub slices : List NalUnit → ℕ
slices [] = 0
slices (u ∷ us) = (if is_vcl u.nal then 1 else 0) + slices us

-- A frame with a unit and at most one coded slice, read up to this index of this many units.
pub record OneSlice (frame : List NalUnit) (from index count : ℕ) : Type 0 where
  pub some_unit : 0 < length frame
  pub one_slice : slices frame ≤ 1
  pub goes_on : from < index
  pub in_stream : index ≤ count

-- Units in their order, from an index on, without the access unit delimiters.
unfoldable pub kept : List NalData → ℕ → List NalUnit
kept [] index = []
kept (n ∷ ns) index =
    let rest = kept ns (index + 1) in if n.nal_type == 9 then rest else unit_of n index ∷ rest

-- The same, with the first unit whatever it is.
unfoldable pub from_first : List NalData → ℕ → List NalUnit
from_first [] index = []
from_first (n ∷ ns) index = unit_of n index ∷ kept ns (index + 1)

-- The end of the stream, or a coded slice.
unfoldable pub Stops : List NalData → Type 0
Stops [] = Unit
Stops (n ∷ ns) = is_vcl n ≡ true

-- A frame that is read from the units of a stream between two indices: they are all of them but the
-- delimiters behind the first, and a slice is next, or nothing.
pub record InOrder (frame : List NalUnit) (nals : List NalData) (from index : ℕ) : Type 0 where
  pub units : frame ≡ from_first (take (index - from) (drop from nals)) from
  pub stops : Stops (drop (index - from) (drop from nals))

-- Behind the first unit the loop takes some number of units.
abbrev Takes : List NalData → ℕ → List NalUnit → List NalUnit × ℕ → Type 0
Takes ns index frame (read, next) =
    (k : ℕ) × ((next ≡ index + k) × (read ≡ frame ++ kept (take k ns) index) × Stops (drop k ns))

read_units-Takes :
    (ns : List NalData) (index : ℕ) (frame : List NalUnit) (vcl : ℕ)
    → 0 < length frame
    → Takes ns index frame (read_units ns index frame vcl)
unfolding read_units kept Stops
read_units-Takes [] index frame vcl h = (0, (omega arith, sym (append-nil frame), tt))
read_units-Takes (n ∷ ns) index frame vcl h =
    let full : (length frame == 0) ≡ false = ground arith in
    let taken = frame ++ (unit_of n index ∷ []) in
    let vcl_type = (if is_vcl n then n.nal_type else vcl) in
    let (skipped, after_skip) = read_units-Takes ns (index + 1) frame vcl h in
    let (skip_index, skip_units, skip_stops) = after_skip in
    let (more, after_more) =
      read_units-Takes ns (index + 1) taken vcl_type
        (omega (arith, length-append frame (unit_of n index ∷ []))) in
    let (more_index, more_units, more_stops) = after_more in
    elim (Bool-cases (is_vcl n && not (vcl == 0))) [
      | inl second ↦
          let slice : is_vcl n ≡ true = ground arith in
          rw (full, second) (0, (omega arith, sym (append-nil frame), slice))
      | inr first ↦ elim (Bool-cases (n.nal_type == 9)) [
        | inl delimiter ↦
            rw (full, first, delimiter)
              (suc skipped, (omega (arith, skip_index), rw delimiter skip_units, skip_stops))
        | inr other ↦
            rw (full, first, other)
              (
                suc more,
                (
                  omega (arith, more_index),
                  rw other (
                      more_units
                      ∙ append_assoc frame (unit_of n index ∷ [])
                          (kept (take more ns) (index + 1))),
                  more_stops,
                ),
              )
      ]
    ]

first_InOrder :
    (ns nals : List NalData) (from : ℕ)
    → drop from nals ≡ ns
    → 0 < length ns
    → InOrder (read_units ns from [] 0).0 nals from (read_units ns from [] 0).1
unfolding read_units from_first
first_InOrder [] nals from e h = elim h [ ]
first_InOrder (n ∷ ns) nals from e h =
    let vcl_type = (if is_vcl n then n.nal_type else 0) in
    let (k, rest) = read_units-Takes ns (from + 1) (unit_of n from ∷ []) vcl_type (omega arith) in
    let (next, units, stops) = rest in
    let count : (read_units (n ∷ ns) from [] 0).1 - from ≡ suc k = omega (arith, next) in
    record { units = rw (e, count) units; stops = rw (e, count) stops }

slices-append :
    (us : List NalUnit) (u : NalUnit)
    → slices (us ++ (u ∷ [])) ≡ slices us + (if is_vcl u.nal then 1 else 0)
slices-append [] u = omega arith
slices-append (v ∷ us) u = omega (arith, slices-append us u)

slices-taken :
    (n : NalData) (index : ℕ) (frame : List NalUnit) (vcl : ℕ)
    → slices frame ≤ (if vcl == 0 then 0 else 1)
    → (is_vcl n && not (vcl == 0)) ≡ false
    → slices (frame ++ (unit_of n index ∷ []))
      ≤ (if (if is_vcl n then n.nal_type else vcl) == 0 then 0 else 1)
slices-taken n index frame vcl few first = rw (slices-append frame (unit_of n index)) (ground arith)

-- Behind the first unit, with what the loop knows of the slices so far.
read_units-OneSlice :
    (ns : List NalData) (from index : ℕ) (frame : List NalUnit) (vcl : ℕ)
    → 0 < length frame
    → slices frame ≤ (if vcl == 0 then 0 else 1)
    → from < index
    → OneSlice
        (read_units ns index frame vcl).0
        from
        (read_units ns index frame vcl).1
        (index + length ns)
unfolding read_units
read_units-OneSlice [] from index frame vcl some_unit few h = record {
  some_unit = some_unit;
  one_slice = ground arith;
  goes_on = h;
  in_stream = omega arith;
}
read_units-OneSlice (n ∷ ns) from index frame vcl some_unit few h =
    let full : (length frame == 0) ≡ false = ground arith in
    let shift : index + suc (length ns) ≡ index + 1 + length ns = omega arith in
    let vcl_type = (if is_vcl n then n.nal_type else vcl) in
    let skip = read_units-OneSlice ns from (index + 1) frame vcl some_unit few (omega arith) in
    elim (Bool-cases (is_vcl n && not (vcl == 0))) [
      | inl second ↦
          rw (full, second)
            (record {
              some_unit = some_unit;
              one_slice = ground arith;
              goes_on = h;
              in_stream = omega arith;
            })
      | inr first ↦
          let longer : 0 < length (frame ++ (unit_of n index ∷ [])) =
            omega (arith, length-append frame (unit_of n index ∷ [])) in
          let still : slices (frame ++ (unit_of n index ∷ [])) ≤ (if vcl_type == 0 then 0 else 1) =
            slices-taken n index frame vcl few first in
          let take_it =
            read_units-OneSlice ns from (index + 1) (frame ++ (unit_of n index ∷ [])) vcl_type
              longer still (omega arith) in
          elim (Bool-cases (n.nal_type == 9)) [
            | inl delimiter ↦ rw (full, first, delimiter, shift) skip
            | inr other ↦ rw (full, first, other, shift) take_it
          ]
    ]

first-OneSlice :
    (ns : List NalData) (index : ℕ)
    → 0 < length ns
    → OneSlice (read_units ns index [] 0).0 index (read_units ns index [] 0).1 (index + length ns)
unfolding read_units
first-OneSlice [] index h = elim h [ ]
first-OneSlice (n ∷ ns) index h =
    let shift : index + suc (length ns) ≡ index + 1 + length ns = omega arith in
    rw shift (
      read_units-OneSlice ns index (index + 1) (unit_of n index ∷ [])
        (if is_vcl n then n.nal_type else 0) (omega arith)
        (slices-taken n index [] 0 (omega arith) (ground arith)) (omega arith))

-- The units of the next frame and the index behind them.
abbrev pub next_units : RawSource → List NalUnit × ℕ
unfolding read_units
next_units s = read_units (drop s.nal_index s.cached_nals) s.nal_index [] 0

-- An open source with units left: `ReadNextFrame` goes on in the stream, never past its end, and gives a
-- frame with a unit and at most one coded slice: all units from the index before to the index behind it, in
-- their order, less the access unit delimiters behind the first; the next unit is a slice, or there is none.
pub read_next_frame-OneSlice :
    (s : RawSource)
    → s.is_opened ≡ true
    → s.eof_reached ≡ false
    → s.nal_index < length s.cached_nals
    → (read_next_frame s ≡ (record s { nal_index = (next_units s).1 }, some (next_units s).0))
      × OneSlice (next_units s).0 s.nal_index (next_units s).1 (length s.cached_nals)
      × InOrder (next_units s).0 s.cached_nals s.nal_index (next_units s).1
unfolding read_next_frame
read_next_frame-OneSlice s o e h =
    let left : 0 < length (drop s.nal_index s.cached_nals) =
      omega (arith, length-drop s.nal_index s.cached_nals) in
    let end : s.nal_index + length (drop s.nal_index s.cached_nals) ≡ length s.cached_nals =
      omega (arith, length-drop s.nal_index s.cached_nals) in
    let one : OneSlice (next_units s).0 s.nal_index (next_units s).1 (length s.cached_nals) =
      rw end at (first-OneSlice (drop s.nal_index s.cached_nals) s.nal_index left) in
    let some_unit : (length (next_units s).0 == 0) ≡ false = ground (arith, one.some_unit) in
    let unread : leb (length s.cached_nals) s.nal_index ≡ false = ground arith in
    (
      rw (o, e, unread, some_unit) refl,
      one,
      first_InOrder (drop s.nal_index s.cached_nals) s.cached_nals s.nal_index refl left,
    )
