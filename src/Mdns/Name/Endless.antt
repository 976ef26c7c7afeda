-- ===== src/Mdns/Name/Endless.antt =====
-- Names of src/mdns/dns_message.cpp that point to themselves.
use ai_camera.Base.{
  ℕ, zero, suc, ◌+◌, ◌*◌, ◌/◌, ◌%◌, ◌<◌, ◌≡◌, refl, true, false, List, [], arith, ltb, leb, ◌==◌,
  length, get_or,
}
use ai_camera.Mdns.Types.{out_of_fuel}
use ai_camera.Mdns.Name.{decode_name}

-- A name that is a pointer to where it stands: `DecodeName` does not return, however long it runs.
pub decode_name-endless :
    (fuel : ℕ) (bytes : List ℕ) (offset : ℕ) (name : List ℕ)
    → offset + 1 < length bytes
    → get_or bytes offset 0 / 64 ≡ 3
    → get_or bytes offset 0 % 64 * 256 + get_or bytes (offset + 1) 0 ≡ offset
    → decode_name fuel bytes offset name ≡ out_of_fuel
unfolding decode_name
decode_name-endless zero bytes offset name h p q = refl
decode_name-endless (suc fuel) bytes offset name h p q =
    let inside : ltb offset (length bytes) ≡ true = ground arith in
    let not_zero : (get_or bytes offset 0 == 0) ≡ false = ground arith in
    let pair : leb (length bytes) (offset + 1) ≡ false = ground arith in
    rw (inside, decode_name, not_zero, p, pair, q, decode_name-endless fuel bytes offset [] h p q)
      refl
