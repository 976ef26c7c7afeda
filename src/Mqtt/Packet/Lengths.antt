-- ===== src/Mqtt/Packet/Lengths.antt =====
-- The remaining length of packets, src/mqtt/mqtt_client.cpp, written and read.
use ai_camera.Base.{
  ℕ, suc, ◌+◌, ◌*◌, ◌/◌, ◌%◌, ◌^◌, ◌≤◌, ◌<◌, ◌≡◌, refl, ◌∙◌, inl, inr, true, false, List, [], ◌∷◌,
  ◌++◌, arith, dec_lt, ltb, leb, if◌then◌else◌, ltb→lt, ltb_false→le, Bool-cases, length,
}
use ai_camera.Mqtt.Packet.{
  encode_length, encode_remaining_length, decode_length, decode_remaining_length,
}

fits_word : (x : ℕ) → x < 2 ^ 32 → x % 2 ^ 32 ≡ x
fits_word x h = omega arith

module _ (b m v i : ℕ) (rest : List ℕ) (small : b < 128) (low : m * 128 ≤ 2097152)
    (fits : v + b * m < 2 ^ 32) where
  good : ltb (128 * 128 * 128) (m * 128) ≡ false
  good = ground arith

  next_fits : m * 128 % 2 ^ 32 ≡ m * 128
  next_fits = fits_word (m * 128) (omega arith)

  decode_length_last : decode_length (b ∷ rest) m v i ≡ (v + b * m, suc i)
  unfolding decode_length
  decode_length_last =
      let low_part : b % 128 ≡ b = omega arith in
      let last : leb 128 b ≡ false = ground arith in
      rw (decode_length, low_part, fits_word (v + b * m) fits, next_fits, good, last) refl

  decode_length_more :
      decode_length ((b + 128) ∷ rest) m v i ≡ decode_length rest (m * 128) (v + b * m) (suc i)
  unfolding decode_length
  decode_length_more =
      let low_part : (b + 128) % 128 ≡ b = omega arith in
      let more : leb 128 (b + 128) ≡ true = ground arith in
      rw (decode_length, low_part, fits_word (v + b * m) fits, next_fits, good, more) refl

encode_length_last : (fuel n : ℕ) → n < 128 → encode_length (suc fuel) n ≡ n ∷ []
unfolding encode_length
encode_length_last fuel n h =
    let over : ltb 0 (n / 128) ≡ false = ground arith in
    let low_part : n % 128 ≡ n = omega arith in rw (encode_length, over, low_part) refl

encode_length_more :
    (fuel n : ℕ)
    → 128 ≤ n
    → encode_length (suc fuel) n ≡ (n % 128 + 128) ∷ encode_length fuel (n / 128)
unfolding encode_length
encode_length_more fuel n h =
    let more : ltb 0 (n / 128) ≡ true = ground arith in rw (encode_length, more) refl

-- The fourth byte takes the multiplier past what is allowed.
decode_length_fourth : (b v i : ℕ) (rest : List ℕ) → decode_length (b ∷ rest) 2097152 v i ≡ (0, 0)
unfolding decode_length
decode_length_fourth b v i rest = refl

abbrev Reads : ℕ → ℕ → ℕ → ℕ → ℕ → List ℕ → ℕ × ℕ → Type 0
Reads fuel n m v i rest result = decode_length (encode_length fuel n ++ rest) m v i ≡ result

-- A number of one byte, and the first byte of a longer one.
read_last :
    (fuel n m v i value : ℕ) (rest : List ℕ)
    → n < 128
    → m * 128 ≤ 2097152
    → v + n * m < 2 ^ 32
    → v + n * m ≡ value
    → Reads (suc fuel) n m v i rest (value, i + length (encode_length (suc fuel) n))
read_last fuel n m v i value rest small low fits e =
    let count : i + 1 ≡ suc i = omega arith in
    rw (encode_length_last fuel n small, decode_length_last n m v i rest small low fits, e, count)
      refl

read_more :
    (fuel n m v i value : ℕ) (rest : List ℕ)
    → 128 ≤ n
    → m * 128 ≤ 2097152
    → v + n % 128 * m < 2 ^ 32
    → Reads fuel
        (n / 128)
        (m * 128)
        (v + n % 128 * m)
        (suc i)
        rest
        (value, suc i + length (encode_length fuel (n / 128)))
    → Reads (suc fuel) n m v i rest (value, i + length (encode_length (suc fuel) n))
read_more fuel n m v i value rest big low fits behind =
    let count : i + suc (length (encode_length fuel (n / 128)))
        ≡ suc i + length (encode_length fuel (n / 128)) =
      omega arith in
    rw
      (
        encode_length_more fuel n big,
        decode_length_more (n % 128) m v i (encode_length fuel (n / 128) ++ rest) (omega arith) low
            fits,
        count,
      )
      behind

decode_length_small :
    (n : ℕ) (rest : List ℕ) → n < 2 ^ 21 → Reads 5 n 1 0 0 rest (n, 0 + length (encode_length 5 n))
decode_length_small n rest h = elim (dec_lt n 128) [
  | yes one ↦ read_last 4 n 1 0 0 n rest one (omega arith) (omega arith) (omega arith)
  | no more ↦
      read_more 4 n 1 0 0 n rest (omega arith) (omega arith) (omega arith) (elim (dec_lt n 16384) [
        | yes two ↦
            read_last 3 (n / 128) (1 * 128) (0 + n % 128 * 1) 1 n rest (omega arith) (omega arith)
              (omega arith) (omega arith)
        | no three ↦
            read_more 3 (n / 128) (1 * 128) (0 + n % 128 * 1) 1 n rest (omega arith) (omega arith)
              (omega arith)
              (read_last 2 (n / 128 / 128) (1 * 128 * 128)
                (0 + n % 128 * 1 + n / 128 % 128 * (1 * 128)) 2 n rest (omega arith) (omega arith)
                (omega arith) (omega arith))
      ])
]

-- Three bytes go well, and the fourth does not.
decode_length_large :
    (n : ℕ) (rest : List ℕ) → 2 ^ 21 ≤ n → n < 2 ^ 28 → Reads 5 n 1 0 0 rest (0, 0)
decode_length_large n rest low high =
    let last = encode_length_last 1 (n / 128 / 128 / 128) (omega arith) in
    let third =
      decode_length_more (n / 128 / 128 % 128) 16384 (0 + n % 128 * 1 + n / 128 % 128 * 128) 2
        (encode_length 2 (n / 128 / 128 / 128) ++ rest) (omega arith) (omega arith) (omega arith) in
    let second =
      decode_length_more (n / 128 % 128) 128 (0 + n % 128 * 1) 1
        (encode_length 3 (n / 128 / 128) ++ rest) (omega arith) (omega arith) (omega arith) in
    let first =
      decode_length_more (n % 128) 1 0 0 (encode_length 4 (n / 128) ++ rest) (omega arith)
        (omega arith) (omega arith) in
    rw (encode_length_more 4 n (omega arith)) (
      first
      ∙ rw (encode_length_more 3 (n / 128) (omega arith)) (
          second
          ∙ rw (encode_length_more 2 (n / 128 / 128) (omega arith))
              (third ∙ rw last (decode_length_fourth (n / 128 / 128 / 128) _ 3 rest))))

-- What is written for a length that four bytes can hold, read with anything behind it: below 2^21 the
-- length comes back and its bytes are counted; from 2^21 on, where it takes four bytes, it is refused.
pub decode_remaining_length-encode :
    (n : ℕ) (rest : List ℕ)
    → n < 2 ^ 28
    → decode_remaining_length (encode_remaining_length n ++ rest)
      ≡ (if ltb n (2 ^ 21) then (n, length (encode_remaining_length n)) else (0, 0))
unfolding decode_remaining_length
decode_remaining_length-encode n rest h =
    rw (fits_word n (omega arith)) (elim (Bool-cases (ltb n (2 ^ 21))) [
      | inl small ↦
          rw (small, ← zero_first (length (encode_length 5 n)))
            (decode_length_small n rest (ltb→lt n (2 ^ 21) small))
      | inr large ↦ rw large (decode_length_large n rest (ltb_false→le n (2 ^ 21) large) h)
    ])
  where
    zero_first : (x : ℕ) → 0 + x ≡ x
    zero_first x = omega arith
