-- ===== src/Ws/Frame/Bounds.antt =====
-- The sizes that `ParseHeader` reports.
use Prim.Native.Nat.{bit_and}
use ai_camera.Base.{
  ℕ, ◌+◌, ◌≤◌, ◌≡◌, refl, ◌⊎◌, inl, inr, not, ◌||◌, Option, none, some, List, arith, ltb, ◌==◌,
  if◌then◌else◌, Bool-cases, length, get_or,
}
use ai_camera.Base.Bytes.{low_bits}
use ai_camera.Ws.Types.{is_valid_op_code}
use ai_camera.Ws.Frame.{Header, ext_len_bytes, finish_header, parse_second, parse_header}

-- A header that is found has 2 to 14 bytes, all of them in the buffer, and its length is a field of it.
pub record Sized (bytes : List ℕ) (r : ℕ × Header) : Type 0 where
  pub least : 2 ≤ r.0
  pub most : r.0 ≤ 14
  pub inside : r.0 ≤ length bytes
  pub stated : r.1.header_len ≡ r.0

abbrev SizedOrZero : List ℕ → ℕ × Header → Type 0
SizedOrZero bytes r = (r.0 ≡ 0) ⊎ Sized bytes r

finish_header-Sized :
    (bytes : List ℕ) (len7 : ℕ) (h : Header) (o : Option ℕ)
    → 2 ≤ h.header_len
    → h.header_len ≤ 14
    → h.header_len ≤ length bytes
    → SizedOrZero bytes (finish_header bytes len7 h o)
unfolding finish_header
finish_header-Sized bytes len7 h none a b c = inl refl
finish_header-Sized bytes len7 h (some len) a b c = inr (ground arith)

parse_second-Sized : (bytes : List ℕ) (h : Header) → SizedOrZero bytes (parse_second bytes h)
unfolding parse_second
parse_second-Sized bytes h = elim (Bool-cases (ltb (length bytes) header_len)) [
  | inl e ↦ rw e (inl refl)
  | inr e ↦ rw e (finish_header-Sized bytes _ _ _ (ground arith) (ground arith) (ground arith))
]
  where
    header_len : ℕ
    header_len =
        2
        + ext_len_bytes (low_bits (get_or bytes 1 0) 7)
        + (if not (bit_and (get_or bytes 1 0) 0x80 == 0) then 4 else 0)

pub parse_header-Sized : (bytes : List ℕ) (h : Header) → SizedOrZero bytes (parse_header bytes h)
unfolding parse_header
parse_header-Sized bytes h = elim (Bool-cases (ltb (length bytes) 2)) [
  | inl e ↦ rw e (inl refl)
  | inr e ↦
      rw e
        (elim (Bool-cases (
          not (bit_and (get_or bytes 0 0) 0x70 == 0)
          || not (is_valid_op_code (low_bits (get_or bytes 0 0) 4)))) [
            | inl e' ↦ rw e' (inl refl)
            | inr e' ↦ rw e' (parse_second-Sized bytes _)
          ])
]
