-- ===== src/Rtp/RawSource/Streams.antt =====
-- The loop of `ExtractNALUnits`, src/rtp/rawh264source.cpp.
use ai_camera.Base.{
  ℕ, zero, suc, ◌+◌, ◌≤◌, ◌<◌, ◌≡◌, ◌≢◌, inl, inr, false, Option, none, some, List, [], ◌∷◌, arith,
  ◌==◌, Bool-cases, length, drop, length-drop,
}
use ai_camera.Rtp.RawSource.{NalData, start_code_size, nal_bytes, add_nal, extract_nal_units}

-- The loop ends on every stream: as much fuel as there are bytes is enough, which `Open` gives it.
pub extract_nal_units-ends :
    (fuel : ℕ) (bytes : List ℕ) → length bytes ≤ fuel → extract_nal_units fuel bytes ≢ none
unfolding extract_nal_units
extract_nal_units-ends fuel [] enough = λ e. cc
extract_nal_units-ends zero (b ∷ bs) enough = elim enough [ ]
extract_nal_units-ends (suc fuel) (b ∷ bs) enough =
    let size = start_code_size (b ∷ bs) in
    let nal = nal_bytes (drop size (b ∷ bs)) in
    elim (Bool-cases (size == 0)) [
      | inl e ↦ rw (extract_nal_units, e) (extract_nal_units-ends fuel bs (omega arith))
      | inr e ↦
          let moved : 0 < size = positive size e in
          let shorter : length (drop (size + length nal) (b ∷ bs)) ≤ fuel =
            omega (arith, length-drop (size + length nal) (b ∷ bs)) in
          rw (extract_nal_units, e)
            (added-some nal (extract_nal_units fuel (drop (size + length nal) (b ∷ bs)))
              (extract_nal_units-ends fuel (drop (size + length nal) (b ∷ bs)) shorter))
    ]
  where
    positive : (n : ℕ) → (n == 0) ≡ false → 0 < n
    positive n e = ground arith

    added-some :
        (nal : List ℕ) (r : Option (List NalData))
        → r ≢ none
        → elim r as (λ x. Option (List NalData)) [
          | none ↦ none
          | some nals ↦ some (add_nal nal nals)
        ]
          ≢ none
    added-some nal none h = h
    added-some nal (some nals) h = λ e. cc
