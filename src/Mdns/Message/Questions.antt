-- ===== src/Mdns/Message/Questions.antt =====
-- What `Decode` of src/mdns/dns_message.cpp makes of questions.
use ai_camera.Base.{
  ℕ, suc, ◌+◌, ◌*◌, ◌/◌, ◌%◌, ◌≡◌, refl, false, List, [], ◌∷◌, ◌++◌, arith, ltb, length,
}
use ai_camera.Mdns.Types.{DnsHeader, out_of_fuel, ntohs}
use ai_camera.Mdns.Name.Endless.{decode_name-endless}
use ai_camera.Mdns.Message.{decode_question, decode_many, header_image, decode}

-- A message of any header that counts a question, followed by a name that points to itself and any
-- other bytes: `Decode` does not return, however long it runs.
pub decode-endless :
    (fuel : ℕ) (h : DnsHeader) (n : ℕ) (rest : List ℕ)
    → ntohs (h.qdcount % 256 + h.qdcount / 256 % 256 * 256) ≡ suc n
    → decode fuel (header_image h ++ (192 ∷ 12 ∷ rest)) ≡ out_of_fuel
unfolding decode decode_many decode_question
decode-endless fuel h n rest asked =
    let endless =
      decode_name-endless fuel (header_image h ++ (192 ∷ 12 ∷ rest)) 12 [] (ground arith) refl
        refl in
    let long : ltb (length (header_image h ++ (192 ∷ 12 ∷ rest))) 12 ≡ false = ground arith in
    rw (long, asked) (rw endless refl)
