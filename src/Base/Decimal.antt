-- ===== src/Base/Decimal.antt =====
-- What `std::to_string` writes, as the conversions of the C++ library read it.
use mathlib.Core.Path.{subst}
use ai_camera.Base.{
  ℕ, zero, suc, ◌+◌, ◌-◌, ◌*◌, ◌/◌, ◌%◌, ◌≤◌, ◌<◌, ◌≡◌, refl, sym, true, false, some, List, [], ◌∷◌,
  arith, dec_lt, leb, ◌==◌, lt→ltb, le→ltb_false, get_or,
}
use ai_camera.Base.Integers.{u64_mod, stoul}
use ai_camera.Base.Text.{skip_spaces, is_space, is_digit, digits, decimal_digits, to_decimal}

-- A text that begins with a digit.
abbrev pub Numeral : List ℕ → Type 0
Numeral [] = ⊥
Numeral (c ∷ cs) = (b'0' ≤ c) × (c ≤ b'9')

pub decimal_digits_last :
    (fuel n : ℕ) (after : List ℕ) → n < 10 → decimal_digits (suc fuel) n after ≡ (b'0' + n) ∷ after
unfolding decimal_digits
decimal_digits_last fuel n after h = rw (decimal_digits, lt→ltb n 10 h) refl

pub decimal_digits_more :
    (fuel n : ℕ) (after : List ℕ)
    → 10 ≤ n
    → decimal_digits (suc fuel) n after ≡ decimal_digits fuel (n / 10) ((b'0' + n % 10) ∷ after)
unfolding decimal_digits
decimal_digits_more fuel n after h = rw (decimal_digits, le→ltb_false n 10 h) refl

pub decimal_digits-Numeral :
    (fuel n : ℕ) (after : List ℕ) → n < fuel → Numeral (decimal_digits fuel n after)
decimal_digits-Numeral zero n after h = elim h [ ]
decimal_digits-Numeral (suc fuel) n after h = elim (dec_lt n 10) [
  | yes small ↦
      subst Numeral (sym (decimal_digits_last fuel n after small)) (omega arith, omega arith)
  | no big ↦
      let more : 10 ≤ n = omega arith in
      subst Numeral (sym (decimal_digits_more fuel n after more))
        (decimal_digits-Numeral fuel (n / 10) ((b'0' + n % 10) ∷ after) (omega arith))
]

-- All of the digits are read, and they make the number.
pub digits-decimal_digits :
    (fuel n : ℕ) (after : List ℕ)
    → n < fuel
    → (k : ℕ) × (digits (decimal_digits fuel n after) 0 0 ≡ digits after n (suc k))
unfolding digits
digits-decimal_digits zero n after h = elim h [ ]
digits-decimal_digits (suc fuel) n after h = elim (dec_lt n 10) [
  | yes small ↦
      let digit : is_digit (b'0' + n) ≡ true = ground arith in
      let value : 0 * 10 + (b'0' + n - b'0') ≡ n = omega arith in
      (0, rw (decimal_digits_last fuel n after small, digits, digit, value) refl)
  | no big ↦
      let more : 10 ≤ n = omega arith in
      let (k, e) = digits-decimal_digits fuel (n / 10) ((b'0' + n % 10) ∷ after) (omega arith) in
      let digit : is_digit (b'0' + n % 10) ≡ true = ground arith in
      let value : n / 10 * 10 + (b'0' + n % 10 - b'0') ≡ n = omega arith in
      (suc k, rw (decimal_digits_more fuel n after more, e, digits, digit, value) refl)
]

pub skip_spaces-Numeral : (text : List ℕ) → Numeral text → skip_spaces text ≡ text
unfolding skip_spaces
skip_spaces-Numeral [] h = elim h [ ]
skip_spaces-Numeral (c ∷ cs) h = let apart : is_space c ≡ false = ground arith in rw apart refl

pub no_sign :
    (text : List ℕ)
    → Numeral text
    → (get_or text 0 0 == b'+' ≡ false) × (get_or text 0 0 == b'-' ≡ false)
no_sign [] h = elim h [ ]
no_sign (c ∷ cs) h = (ground arith, ground arith)

stoul-Numeral :
    (text : List ℕ) (n k : ℕ)
    → Numeral text
    → digits text 0 0 ≡ (n, suc k)
    → n < u64_mod
    → stoul text ≡ some n
unfolding stoul
stoul-Numeral text n k numeral e h =
    let (no_plus, no_minus) = no_sign text numeral in
    let fits : leb u64_mod n ≡ false = ground arith in
    let some_digits : (suc k == 0) ≡ false = ground arith in
    rw (skip_spaces-Numeral text numeral, no_plus, no_minus, e, some_digits, fits) refl

-- A number of 64 bits reads back.
pub stoul-to_decimal : (n : ℕ) → n < u64_mod → stoul (to_decimal n) ≡ some n
unfolding decimal_digits digits
stoul-to_decimal n h =
    let (k, e) = digits-decimal_digits (suc n) n [] (omega arith) in
    stoul-Numeral (to_decimal n) n k (decimal_digits-Numeral (suc n) n [] (omega arith)) e h
