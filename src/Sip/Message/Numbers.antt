-- ===== src/Sip/Message/Numbers.antt =====
-- The numbers and words of a first line as `SipMessage::Parse`, src/gb28181/sip_message.cpp, reads them.
use ai_camera.Base.{
  ℕ, zero, suc, ◌+◌, ◌/◌, ◌%◌, ◌^◌, ◌≤◌, ◌<◌, ◌≡◌, refl, Bool, true, false, not, ◌&&◌, some, List,
  [], ◌∷◌, ◌++◌, arith, dec_lt, ltb, ◌==◌, drop-length,
}
use ai_camera.Base.Decimal.{
  Numeral, decimal_digits-Numeral, digits-decimal_digits, skip_spaces-Numeral, no_sign,
  decimal_digits_last, decimal_digits_more,
}
use ai_camera.Base.Integers.{pos}
use ai_camera.Base.Text.{
  is_digit, digits, decimal_digits, to_decimal, skip_spaces, word, next_word, is_space,
}
use ai_camera.Sip.Message.{extract_int, without_digits}
use ai_camera.Sip.Message.Lines.{without}

pub decimal_digits-append :
    (fuel n : ℕ) (after rest : List ℕ)
    → decimal_digits fuel n after ++ rest ≡ decimal_digits fuel n (after ++ rest)
unfolding decimal_digits
decimal_digits-append zero n after rest = refl
decimal_digits-append (suc fuel) n after rest = elim (dec_lt n 10) [
  | yes small ↦
      rw (decimal_digits_last fuel n after small, decimal_digits_last fuel n (after ++ rest) small)
        refl
  | no big ↦
      let more : 10 ≤ n = omega arith in
      rw (decimal_digits_more fuel n after more, decimal_digits_more fuel n (after ++ rest) more)
        (decimal_digits-append fuel (n / 10) ((b'0' + n % 10) ∷ after) rest)
]

pub without-decimal_digits :
    (b fuel n : ℕ) (after : List ℕ)
    → b < b'0'
    → without b after ≡ true
    → without b (decimal_digits fuel n after) ≡ true
unfolding without decimal_digits
without-decimal_digits b zero n after low h = h
without-decimal_digits b (suc fuel) n after low h = elim (dec_lt n 10) [
  | yes small ↦
      let apart : (b'0' + n == b) ≡ false = ground arith in
      rw (decimal_digits_last fuel n after small, without, apart) h
  | no big ↦
      let more : 10 ≤ n = omega arith in
      let apart : (b'0' + n % 10 == b) ≡ false = ground arith in
      rw (decimal_digits_more fuel n after more) (
        without-decimal_digits b fuel (n / 10) ((b'0' + n % 10) ∷ after) low
          (rw (without, apart) h))
]

without_digits-decimal_digits :
    (fuel n : ℕ) (after : List ℕ)
    → n < fuel
    → without_digits (decimal_digits fuel n after) ≡ without_digits after
unfolding without_digits
without_digits-decimal_digits zero n after h = elim h [ ]
without_digits-decimal_digits (suc fuel) n after h = elim (dec_lt n 10) [
  | yes small ↦
      let digit : is_digit (b'0' + n) ≡ true = ground arith in
      rw (decimal_digits_last fuel n after small, without_digits, digit) refl
  | no big ↦
      let more : 10 ≤ n = omega arith in
      let digit : is_digit (b'0' + n % 10) ≡ true = ground arith in
      rw
        (
          decimal_digits_more fuel n after more,
          without_digits-decimal_digits fuel (n / 10) ((b'0' + n % 10) ∷ after) (omega arith),
          without_digits,
          digit,
        )
        refl
]

extract_int-Numeral :
    (text rest : List ℕ) (n k : ℕ)
    → Numeral text
    → digits text 0 0 ≡ (n, suc k)
    → without_digits text ≡ rest
    → n < 2 ^ 31
    → extract_int text ≡ (pos n, some rest)
unfolding extract_int
extract_int-Numeral text rest n k numeral e left h =
    let (no_plus, no_minus) = no_sign text numeral in
    let some_digits : (suc k == 0) ≡ false = ground arith in
    let fits : ltb n (2 ^ 31) ≡ true = ground arith in
    rw (skip_spaces-Numeral text numeral, no_plus, no_minus, e, some_digits, fits, left) refl

-- A number and a space, and what stands behind.
pub extract_int-to_decimal :
    (n : ℕ) (rest : List ℕ)
    → n < 2 ^ 31
    → extract_int (to_decimal n ++ (32 ∷ rest)) ≡ (pos n, some (32 ∷ rest))
unfolding decimal_digits digits without_digits
extract_int-to_decimal n rest h =
    let (k, e) = digits-decimal_digits (suc n) n (32 ∷ rest) (omega arith) in
    rw (decimal_digits-append (suc n) n [] (32 ∷ rest)) (
      extract_int-Numeral (decimal_digits (suc n) n (32 ∷ rest)) (32 ∷ rest) n k
        (decimal_digits-Numeral (suc n) n (32 ∷ rest) (omega arith)) e
        (without_digits-decimal_digits (suc n) n (32 ∷ rest) (omega arith)) h)

-- A text of one character or more, none of them a space.
unfoldable pub unspaced : List ℕ → Bool
unspaced [] = true
unspaced (c ∷ cs) = not (is_space c) && unspaced cs

unspaced_first : (c : ℕ) (cs : List ℕ) → unspaced (c ∷ cs) ≡ true → is_space c ≡ false
unfolding unspaced
unspaced_first c cs h = ground arith

unspaced_rest : (c : ℕ) (cs : List ℕ) → unspaced (c ∷ cs) ≡ true → unspaced cs ≡ true
unfolding unspaced
unspaced_rest c cs h = ground arith

pub without-unspaced : (text : List ℕ) → unspaced text ≡ true → without 10 text ≡ true
unfolding without unspaced
without-unspaced [] h = refl
without-unspaced (c ∷ cs) h = ground (arith, without-unspaced cs)

word-unspaced : (text rest : List ℕ) → unspaced text ≡ true → word (text ++ (32 ∷ rest)) ≡ text
unfolding word
word-unspaced [] rest h = refl
word-unspaced (c ∷ cs) rest h =
    rw (word, unspaced_first c cs h, word-unspaced cs rest (unspaced_rest c cs h)) refl

-- A word in front of a space, behind another or none.
pub next_word-unspaced :
    (c : ℕ) (cs rest : List ℕ)
    → unspaced (c ∷ cs) ≡ true
    → next_word (c ∷ cs ++ (32 ∷ rest)) ≡ (c ∷ cs, 32 ∷ rest)
unfolding next_word skip_spaces
next_word-unspaced c cs rest h =
    rw
      (
        next_word,
        skip_spaces,
        unspaced_first c cs h,
        word-unspaced (c ∷ cs) rest h,
        drop-length (c ∷ cs) (32 ∷ rest),
      )
      refl

pub next_word_skips : (text : List ℕ) → next_word (32 ∷ text) ≡ next_word text
unfolding next_word skip_spaces
next_word_skips text = refl
