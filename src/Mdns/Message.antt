-- ===== src/Mdns/Message.antt =====
-- Questions, records and messages of src/mdns/dns_message.cpp.
pub mod Questions
use ai_camera.Base.Text.{assign, find_char}
use ai_camera.Base.{
  ℕ, zero, suc, ◌+◌, ◌-◌, ◌*◌, ◌/◌, ◌%◌, ◌^◌, ◌≤◌, ◌<◌, ◌≡◌, refl, sym, ap, ◌∙◌, ◌≢◌, ◌↔◌, ◌⊎◌, inl,
  inr, Bool, true, false, not, ◌&&◌, ◌||◌, Option, none, some, List, [], ◌∷◌, ◌++◌, map, arith,
  dec_lt, dec_le, ℕ_discrete, ltb, leb, ◌==◌, if◌then◌else◌, ltb→lt, lt→ltb, ltb_false→le,
  le→ltb_false, ==_iff, ==_refl, Bool-cases, Option-cases, codes, length, get_or, take, drop,
  replicate, All, length-append, length-take, length-drop, take-append-drop, take-length,
  drop-length, take-append_le, drop-append_le, get_or-append_left, All-append, All-take, All-drop,
}
use ai_camera.Base.Bytes.{to_u16}
use ai_camera.Mdns.Types.{
  DnsHeader, DnsQuestion, Resource, blank, Extra, plain, a_record, ptr_record, srv_record,
  txt_record, DnsRecord, DnsMessage, Result, ok, thrown, out_of_fuel, ◌>>=◌, htons, htonl, ntohs,
  ntohl, store16, store32, load16, load32,
}
use ai_camera.Mdns.Name.{encode_name, decode_name}

unfoldable pub encode_question : DnsQuestion → Result (List ℕ)
encode_question q =
    encode_name q.name
    >>= (λ name. ok (name ++ (store16 (htons q.kind) ++ store16 (htons q.class))))

-- The offset behind what was decoded is returned with it.
unfoldable pub decode_question : ℕ → List ℕ → ℕ → Result (DnsQuestion × ℕ)
decode_question fuel bytes offset = decode_name fuel bytes offset [] >>= (λ (named : List ℕ × ℕ).
    if ltb (length bytes) (named.1 + 4)
    then thrown
    else ok (
      record {
        name = named.0;
        kind = ntohs (load16 bytes named.1);
        class = ntohs (load16 bytes (named.1 + 2));
      },
      named.1 + 4,
    ))

unfoldable pub encode_resource_record : DnsRecord → Result (List ℕ)
encode_resource_record rr =
    let r = rr.resource in
    encode_name r.name >>= (λ name. ok (
      name
      ++ (store16 (htons r.kind)
          ++ (store16 (htons r.class)
              ++ (store32 (htonl r.ttl)
                  ++ (store16 (htons (to_u16 (length r.content))) ++ r.content))))))

-- A byte in decimal.
abbrev decimal : ℕ → List ℕ
decimal n =
    if ltb n 10
    then ((48 + n) ∷ [])
    else if ltb n 100
    then ((48 + n / 10) ∷ (48 + n % 10) ∷ [])
    else ((48 + n / 100) ∷ (48 + n / 10 % 10) ∷ (48 + n % 10) ∷ [])

unfoldable pub dotted_ipv4 : List ℕ → ℕ → List ℕ
dotted_ipv4 bytes i =
    decimal (get_or bytes i 0)
    ++ (b'.' ∷ decimal (get_or bytes (i + 1) 0))
    ++ (b'.' ∷ decimal (get_or bytes (i + 2) 0))
    ++ (b'.' ∷ decimal (get_or bytes (i + 3) 0))

abbrev pub add_entry : List (List ℕ × List ℕ) → List ℕ → List (List ℕ × List ℕ)
unfolding assign find_char
add_entry entries text = elim (find_char b'=' text) [
  | none ↦ entries
  | some i ↦ assign entries (take i text) (drop (suc i) text)
]

-- The loop over the strings of a TXT record, on the bytes of its data that are left.
unfoldable pub txt_entries : ℕ → List ℕ → List (List ℕ × List ℕ) → Result (List (List ℕ × List ℕ))
unfolding add_entry
txt_entries fuel [] entries = ok entries
txt_entries zero (len ∷ rest) entries = out_of_fuel
txt_entries (suc fuel) (len ∷ rest) entries = elim (ltb (length rest) len) [
  | true ↦ ok entries
  | false ↦ txt_entries fuel (drop len rest) (add_entry entries (take len rest))
]

-- The `switch` on the type.
unfoldable pub decode_extra : ℕ → List ℕ → Resource → ℕ → ℕ → Result DnsRecord
unfolding txt_entries
decode_extra fuel bytes r offset rdlength =
    if r.kind == 1
    then ok (record {
      resource = blank;
      extra = a_record (if rdlength == 4 then dotted_ipv4 bytes offset else []);
    })
    else if r.kind == 12
    then (decode_name fuel bytes offset []
        >>= (λ (named : List ℕ × ℕ). ok (record { resource = blank; extra = ptr_record named.0 })))
    else if r.kind == 33
    then (if leb 6 rdlength
        then (decode_name fuel bytes (offset + 6) [] >>= (λ (named : List ℕ × ℕ). ok (record {
          resource = blank;
          extra =
              srv_record (ntohs (load16 bytes offset)) (ntohs (load16 bytes (offset + 2)))
                (ntohs (load16 bytes (offset + 4))) named.0;
        })))
        else ok (record { resource = blank; extra = srv_record 0 0 0 [] }))
    else if r.kind == 16
    then (txt_entries rdlength (take rdlength (drop offset bytes)) []
        >>= (λ entries. ok (record { resource = blank; extra = txt_record entries })))
    else ok (record { resource = r; extra = plain })

unfoldable pub decode_resource_record : ℕ → List ℕ → ℕ → Result (DnsRecord × ℕ)
decode_resource_record fuel bytes offset =
    if leb (length bytes) offset
    then thrown
    else (decode_name fuel bytes offset [] >>= (λ (named : List ℕ × ℕ).
        let behind = named.1 in
        if ltb (length bytes) (behind + 10)
        then thrown
        else (let rdlength = ntohs (load16 bytes (behind + 8)) in
            if ltb (length bytes) (behind + 10 + rdlength)
            then thrown
            else (decode_extra fuel bytes
                  (record {
                    name = named.0;
                    kind = ntohs (load16 bytes behind);
                    class = ntohs (load16 bytes (behind + 2));
                    ttl = ntohl (load32 bytes (behind + 4));
                    content = take rdlength (drop (behind + 10) bytes);
                  })
                  (behind + 10) rdlength
                >>= (λ rr. ok (rr, behind + 10 + rdlength))))))

-- A loop of `Decode` that reads as many items as the header counts.
unfoldable pub decode_many {ℓ} : {A : Type ℓ} → (ℕ → Result (A × ℕ)) → ℕ → ℕ → Result (List A × ℕ)
decode_many item zero offset = ok ([], offset)
decode_many item (suc n) offset = item offset >>= (λ (one : _ × ℕ).
    decode_many item n one.1 >>= (λ (others : List _ × ℕ). ok (one.0 ∷ others.0, others.1)))

-- A loop of `Encode`.
unfoldable pub encode_many {ℓ} : {A : Type ℓ} → (A → Result (List ℕ)) → List A → Result (List ℕ)
encode_many item [] = ok []
encode_many item (x ∷ xs) =
    item x >>= (λ bytes. encode_many item xs >>= (λ rest. ok (bytes ++ rest)))

-- The twelve bytes of a header.
abbrev pub header_image : DnsHeader → List ℕ
header_image h =
    store16 h.id
    ++ (store16 h.flags
        ++ (store16 h.qdcount ++ (store16 h.ancount ++ (store16 h.nscount ++ store16 h.arcount))))

-- A count of records in the header.
abbrev pub count {ℓ} : {A : Type ℓ} → List A → ℕ
count xs = htons (to_u16 (length xs))

unfoldable pub encode : DnsMessage → Result (List ℕ)
encode msg =
    let header = record msg.header {
      qdcount = count msg.questions;
      ancount = count msg.answers;
      nscount = count msg.authority;
      arcount = count msg.additional;
    } in
    encode_many encode_question msg.questions >>= (λ questions.
      encode_many encode_resource_record msg.answers >>= (λ answers.
        encode_many encode_resource_record msg.authority >>= (λ authority.
          encode_many encode_resource_record msg.additional >>= (λ additional.
            ok (header_image header ++ (questions ++ (answers ++ (authority ++ additional))))))))

abbrev pub read_header : List ℕ → DnsHeader
read_header bytes = record {
  id = load16 bytes 0;
  flags = load16 bytes 2;
  qdcount = load16 bytes 4;
  ancount = load16 bytes 6;
  nscount = load16 bytes 8;
  arcount = load16 bytes 10;
}

-- `Decode`; `thrown` stands for `std::nullopt`, which it returns for every exception.
unfoldable pub decode : ℕ → List ℕ → Result DnsMessage
decode fuel bytes =
    if ltb (length bytes) 12
    then thrown
    else (let header = read_header bytes in
        decode_many (decode_question fuel bytes) (ntohs header.qdcount) 12
        >>= (λ (questions : List DnsQuestion × ℕ).
            decode_many (decode_resource_record fuel bytes) (ntohs header.ancount) questions.1
            >>= (λ (answers : List DnsRecord × ℕ).
                decode_many (decode_resource_record fuel bytes) (ntohs header.nscount) answers.1
                >>= (λ (authority : List DnsRecord × ℕ).
                    decode_many (decode_resource_record fuel bytes) (ntohs header.arcount)
                      authority.1
                    >>= (λ (additional : List DnsRecord × ℕ). ok (record {
                      header = header;
                      questions = questions.0;
                      answers = answers.0;
                      authority = authority.0;
                      additional = additional.0;
                    }))))))
