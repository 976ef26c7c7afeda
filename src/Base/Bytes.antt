-- ===== src/Base/Bytes.antt =====
-- Bytes as numbers below 256, and the masks of the sources as arithmetic. `x & (2^k - 1)` is
-- written `x % 2 ^ k` and `x >> k` is `x / 2 ^ k`; other masks on a byte are `bit_and`, `bit_or`
-- and `bit_xor`, whose laws are tables checked by evaluation.
use Prim.Native.Nat.{ℕ, zero, suc, ◌+◌, ◌*◌, ◌/◌, ◌%◌, ◌^◌, ◌<◌, bit_and, bit_xor}
use mathlib.Core.Path.{◌≡◌, refl}
use mathlib.Core.Bool.{Bool, true, ◌&&◌}
use mathlib.Core.List.{List}
use native.Mathlib.Omega.{arith}
use ai_camera.Base.Tests.{◌==◌}
use ai_camera.Base.Lists.{All}

abbrev pub IsByte : ℕ → Type 0
IsByte b = b < 256

abbrev pub AreBytes : List ℕ → Type 0
AreBytes = All IsByte

abbrev pub shr : ℕ → ℕ → ℕ
shr x k = x / 2 ^ k

abbrev pub low_bits : ℕ → ℕ → ℕ
low_bits x k = x % 2 ^ k

-- `static_cast<uint8_t>(x)`.
abbrev pub to_u8 : ℕ → ℕ
to_u8 x = x % 256

abbrev pub to_u16 : ℕ → ℕ
to_u16 x = x % 2 ^ 16

abbrev pub to_u32 : ℕ → ℕ
to_u32 x = x % 2 ^ 32

abbrev pub to_u64 : ℕ → ℕ
to_u64 x = x % 2 ^ 64

-- Two functions that give the same values at all numbers below a bound.
unfoldable pub same_upto : (f g : ℕ → ℕ) → ℕ → Bool
same_upto f g zero = true
same_upto f g (suc k) = same_upto f g k && f k == g k

pub same_upto-eq : (f g : ℕ → ℕ) (k i : ℕ) → i < k → same_upto f g k ≡ true → f i ≡ g i
unfolding same_upto
same_upto-eq f g zero i h t = elim h [ ]
same_upto-eq f g (suc k) i h t = ground (arith, same_upto-eq f g k i)

pub top_bit : (b : ℕ) → b < 256 → bit_and b 0x80 ≡ b / 128 * 128
unfolding same_upto
top_bit b h = same_upto-eq (λ x. bit_and x 0x80) (λ x. x / 128 * 128) 256 b h refl

-- The two halves of an index into a table of 256 rows of 256 columns.
index_halves : (x m : ℕ) → x < 256 → ((m * 256 + x) / 256 ≡ m) × ((m * 256 + x) % 256 ≡ x)
index_halves x m h = (omega arith, omega arith)

unmask : ℕ → ℕ
unmask i = bit_xor (bit_xor (i % 256) (i / 256)) (i / 256)

unmask_table : same_upto unmask (λ i. i % 256) 65536 ≡ true
unfolding same_upto unmask
unmask_table = refl

-- Masking a byte twice by the same byte gives it back.
pub bit_xor_twice : (x m : ℕ) → x < 256 → m < 256 → bit_xor (bit_xor x m) m ≡ x
unfolding unmask
bit_xor_twice x m hx hm =
    let (row, column) = index_halves x m hx in
    rw (row, column) at (same_upto-eq unmask _ 65536 (m * 256 + x) (omega arith) unmask_table)

overflow_of : ℕ → ℕ
overflow_of i = bit_xor (i % 256) (i / 256) / 256

overflow_table : same_upto overflow_of (λ i. 0) 65536 ≡ true
unfolding same_upto overflow_of
overflow_table = refl

pub bit_xor-IsByte : (x m : ℕ) → x < 256 → m < 256 → IsByte (bit_xor x m)
unfolding overflow_of
bit_xor-IsByte x m hx hm =
    let (row, column) = index_halves x m hx in
    let none_over : bit_xor x m / 256 ≡ 0 =
      rw (row, column) at
        (same_upto-eq overflow_of _ 65536 (m * 256 + x) (omega arith) overflow_table) in
    omega arith
