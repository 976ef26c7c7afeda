-- ===== src/Mdns/Runs.antt =====
-- The theorems on the mDNS codec at concrete inputs, and runs of its definitions.
use ai_camera.Base.{◌+◌, ◌≡◌, refl, [], ◌∷◌, ◌++◌, arith, codes}
use ai_camera.Mdns.Types.{DnsHeader, ok, out_of_fuel, ntohs}
use ai_camera.Mdns.Name.{encode_name, decode_name}
use ai_camera.Mdns.Name.RoundTrip.{wire, encode_name-decode_name}
use ai_camera.Mdns.Message.{header_image, decode}
use ai_camera.Mdns.Message.Questions.{decode-endless}

encode_name-decode_name_example :
    (encode_name (codes "tv.local") ≡ ok (2 ∷ b't' ∷ b'v' ∷ 5 ∷ (codes "local" ++ (0 ∷ []))))
    × (decode_name 3 ((9 ∷ []) ++ (wire (codes "tv" ∷ codes "local" ∷ []) ++ (4 ∷ []))) 1 []
        ≡ ok (codes "tv.local", 1 + 10))
encode_name-decode_name_example =
    encode_name-decode_name 3 (codes "tv") (codes "local" ∷ []) (9 ∷ []) (4 ∷ [])
      (
        record { not_empty = omega arith; short = omega arith; no_dot = (refl, (refl, tt)) },
        (
          record {
            not_empty = omega arith;
            short = omega arith;
            no_dot = (refl, (refl, (refl, (refl, (refl, tt)))));
          },
          tt,
        ),
      )
      (omega arith)

abbrev one_question : DnsHeader
one_question = record { id = 0; flags = 0; qdcount = 256; ancount = 0; nscount = 0; arcount = 0 }

decode-endless_example : decode 100 (header_image one_question ++ (192 ∷ 12 ∷ [])) ≡ out_of_fuel
unfolding ntohs
decode-endless_example = decode-endless 100 one_question 0 [] refl
