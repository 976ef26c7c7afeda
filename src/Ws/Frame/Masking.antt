-- ===== src/Ws/Frame/Masking.antt =====
-- Masking is its own inverse.
use ai_camera.Base.{ℕ, suc, ◌≡◌, refl, ap, List, [], ◌∷◌, length, arith}
use ai_camera.Base.Bytes.{IsByte, AreBytes, bit_xor_twice, bit_xor-IsByte}
use ai_camera.Ws.Frame.{mask_byte, mask_from, apply_mask}

mask_byte-IsByte : (key i : ℕ) → IsByte (mask_byte key i)
mask_byte-IsByte key i = ground arith

mask_from_twice :
    (i : ℕ) (bs : List ℕ) (key : ℕ) → AreBytes bs → mask_from i (mask_from i bs key) key ≡ bs
unfolding mask_from
mask_from_twice i [] key h = refl
mask_from_twice i (b ∷ bs) key h =
    rw (bit_xor_twice b (mask_byte key i) h.0 (mask_byte-IsByte key i))
      (ap (◌∷◌ b) (mask_from_twice (suc i) bs key h.1))

mask_from-AreBytes : (i : ℕ) (bs : List ℕ) (key : ℕ) → AreBytes bs → AreBytes (mask_from i bs key)
unfolding mask_from
mask_from-AreBytes i [] key h = tt
mask_from-AreBytes i (b ∷ bs) key h =
    (bit_xor-IsByte b _ h.0 (mask_byte-IsByte key i), mask_from-AreBytes (suc i) bs key h.1)

length-mask_from : (i : ℕ) (bs : List ℕ) (key : ℕ) → length (mask_from i bs key) ≡ length bs
unfolding mask_from
length-mask_from i [] key = refl
length-mask_from i (b ∷ bs) key = ap suc (length-mask_from (suc i) bs key)

-- Masking bytes twice by one key gives them back, and once gives as many bytes.
pub apply_mask_twice :
    (payload : List ℕ) (key : ℕ)
    → AreBytes payload
    → (apply_mask (apply_mask payload key) key ≡ payload)
      × AreBytes (apply_mask payload key)
      × (length (apply_mask payload key) ≡ length payload)
unfolding apply_mask
apply_mask_twice payload key h = (
  mask_from_twice 0 payload key h,
  mask_from-AreBytes 0 payload key h,
  length-mask_from 0 payload key,
)

pub length-apply_mask :
    (payload : List ℕ) (key : ℕ) → length (apply_mask payload key) ≡ length payload
unfolding apply_mask
length-apply_mask payload key = length-mask_from 0 payload key
