-- ===== src/Base/Integers.antt =====
-- The number conversions of the C++ library: `none` is where they throw.
use Prim.Native.Nat.{ℕ, zero, suc, ◌-◌, ◌%◌, ◌^◌}
use mathlib.Core.Bool.{◌||◌}
use mathlib.Core.Option.{Option, none, some}
use mathlib.Core.List.{List, ◌∷◌}
use ai_camera.Base.Tests.{ltb, leb, ◌==◌, if◌then◌else◌}
use ai_camera.Base.Lists.{drop, get_or}
use ai_camera.Base.Text.{skip_spaces, digits, to_decimal, decimal_digits}

abbrev pub u64_mod : ℕ
u64_mod = 2 ^ 64

-- `std::stoul`: spaces, a sign, digits; `none` where it throws.
unfoldable pub stoul : List ℕ → Option ℕ
unfolding skip_spaces digits
stoul text =
    let rest = skip_spaces text in
    let first = get_or rest 0 0 in
    let unsigned = (if first == b'+' || first == b'-' then drop 1 rest else rest) in
    let (value, count) = digits unsigned 0 0 in
    if count == 0 || leb u64_mod value
    then none
    else some (if first == b'-' then (u64_mod - value) % u64_mod else value)

pub data ℤ : Type 0 where
  pos negsuc : ℕ → ℤ

abbrev negated : ℕ → ℤ
negated zero = pos zero
negated (suc n) = negsuc n

-- `std::stoi`, of 32 bits.
unfoldable pub stoi : List ℕ → Option ℤ
unfolding skip_spaces digits
stoi text =
    let rest = skip_spaces text in
    let first = get_or rest 0 0 in
    let unsigned = (if first == b'+' || first == b'-' then drop 1 rest else rest) in
    let (value, count) = digits unsigned 0 0 in
    if count == 0
    then none
    else if first == b'-'
    then (if leb value (2 ^ 31) then some (negated value) else none)
    else if ltb value (2 ^ 31)
    then some (pos value)
    else none

-- `static_cast<uint16_t>`.
unfoldable pub word_of : ℤ → ℕ
word_of (pos n) = n % 2 ^ 16
word_of (negsuc n) = 2 ^ 16 - 1 - n % 2 ^ 16

-- `std::to_string`.
unfoldable pub int_text : ℤ → List ℕ
unfolding decimal_digits
int_text (pos n) = to_decimal n
int_text (negsuc n) = b'-' ∷ to_decimal (suc n)
