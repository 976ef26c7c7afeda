-- ===== src/Ws/Frame/RoundTrip.antt =====
-- Frames that are written and parsed back: the server's, and a client's masked ones.
use ai_camera.Base.{
  ℕ, suc, ◌+◌, ◌^◌, ◌≤◌, ◌<◌, ◌≡◌, ◌≢◌, refl, sym, ap, ◌∙◌, List, [], ◌∷◌, ◌++◌, Bool, true, false,
  if◌then◌else◌, length, length-append, drop, drop-length, arith, dec_le,
}
use ai_camera.Base.Bytes.{shr, to_u8, top_bit}
use mathlib.Core.List.{append_assoc}
use mathlib.Core.Path.{ap₂}
use ai_camera.Ws.Frame.Masking.{length-apply_mask}
use ai_camera.Ws.Types.{OpCode, continuation, text, binary, close, ping, pong}
use ai_camera.Ws.Frame.{
  apply_mask, Header, default_header, first_byte, encode_len, encode_server_frame, parse_second,
  parse_header, parse_payload_len, finish_header,
}

-- The first byte carries FIN and the opcode, and no reserved bit.
parse_header-first_byte :
    (fin : Bool) (op : OpCode) (b1 : ℕ) (rest : List ℕ)
    → parse_header (first_byte fin op ∷ b1 ∷ rest) default_header
      ≡ parse_second
          (first_byte fin op ∷ b1 ∷ rest)
          (record default_header { fin = fin; opcode = op })
unfolding parse_header
parse_header-first_byte true continuation b1 rest = ground arith
parse_header-first_byte true text b1 rest = ground arith
parse_header-first_byte true binary b1 rest = ground arith
parse_header-first_byte true close b1 rest = ground arith
parse_header-first_byte true ping b1 rest = ground arith
parse_header-first_byte true pong b1 rest = ground arith
parse_header-first_byte false continuation b1 rest = ground arith
parse_header-first_byte false text b1 rest = ground arith
parse_header-first_byte false binary b1 rest = ground arith
parse_header-first_byte false close b1 rest = ground arith
parse_header-first_byte false ping b1 rest = ground arith
parse_header-first_byte false pong b1 rest = ground arith

-- The bytes of a mask key, highest first, and the mask bit of the second byte.
abbrev key_bytes : Bool → ℕ → List ℕ
key_bytes true key = to_u8 (shr key 24) ∷ to_u8 (shr key 16) ∷ to_u8 (shr key 8) ∷ to_u8 key ∷ []
key_bytes false key = []

abbrev mark : Bool → List ℕ → List ℕ
mark m [] = []
mark m (b ∷ bs) = (if m then b + 128 else b) ∷ bs

abbrev header_size : Bool → ℕ → ℕ
header_size m n = 1 + length (encode_len n) + (if m then 4 else 0)

abbrev parsed : Bool → ℕ → ℕ → Header → ℕ × Header
parsed m n key h = (
  header_size m n,
  record h {
    masked = m;
    header_len = header_size m n;
    payload_len = n;
    mask_key = (if m then key else h.mask_key);
  },
)

module _ (b0 n key : ℕ) (rest : List ℕ) (h : Header) (hk : key < 2 ^ 32) where
  second_small :
      (m : Bool)
      → n ≤ 125
      → parse_second (b0 ∷ (mark m (encode_len n) ++ (key_bytes m key ++ rest))) h
        ≡ parsed m n key h
  unfolding parse_second parse_payload_len finish_header encode_len
  second_small true hn = ground (arith, top_bit (n + 128))
  second_small false hn = ground (arith, top_bit n)

  second_medium :
      (m : Bool)
      → 126 ≤ n
      → n ≤ 65535
      → parse_second (b0 ∷ (mark m (encode_len n) ++ (key_bytes m key ++ rest))) h
        ≡ parsed m n key h
  unfolding parse_second parse_payload_len finish_header encode_len
  second_medium true hn hn' = ground arith
  second_medium false hn hn' = ground arith

  second_large :
      (m : Bool)
      → 65536 ≤ n
      → n < 2 ^ 32
      → parse_second (b0 ∷ (mark m (encode_len n) ++ (key_bytes m key ++ rest))) h
        ≡ parsed m n key h
  unfolding parse_second parse_payload_len finish_header encode_len
  second_large true hn hn' = ground arith
  second_large false hn hn' = ground arith

  second-framed :
      (m : Bool)
      → n < 2 ^ 32
      → parse_second (b0 ∷ (mark m (encode_len n) ++ (key_bytes m key ++ rest))) h
        ≡ parsed m n key h
  second-framed m hn = elim (dec_le n 125) [
    | yes p ↦ second_small m p
    | no p ↦ elim (dec_le n 65535) [
      | yes q ↦ second_medium m (omega arith) q
      | no q ↦ second_large m (omega arith) hn
    ]
  ]

-- A frame as a client sends it: masked by `key`.
unfoldable pub client_frame : Bool → OpCode → ℕ → List ℕ → List ℕ
client_frame fin op key payload =
    first_byte fin op
    ∷ (mark true (encode_len (length payload)) ++ (key_bytes true key ++ apply_mask payload key))

abbrev pub client_header_size : List ℕ → ℕ
client_header_size payload = header_size true (length payload)

pub length-client_frame :
    (fin : Bool) (op : OpCode) (key : ℕ) (payload : List ℕ)
    → length (client_frame fin op key payload) ≡ client_header_size payload + length payload
unfolding client_frame encode_len
length-client_frame fin op key payload = ground (arith, length-apply_mask payload key)

framed-ne-nil : (m : Bool) (n : ℕ) (bs : List ℕ) → mark m (encode_len n) ++ bs ≢ []
unfolding encode_len
framed-ne-nil m n bs = ground arith

parse_header-second :
    (fin : Bool) (op : OpCode) (bs : List ℕ)
    → bs ≢ []
    → parse_header (first_byte fin op ∷ bs) default_header
      ≡ parse_second (first_byte fin op ∷ bs) (record default_header { fin = fin; opcode = op })
parse_header-second fin op [] h = absurd (h refl)
parse_header-second fin op (b1 ∷ rest) h = parse_header-first_byte fin op b1 rest

parse_header-framed :
    (m fin : Bool) (op : OpCode) (n key : ℕ) (rest : List ℕ)
    → n < 2 ^ 32
    → key < 2 ^ 32
    → parse_header
        (first_byte fin op ∷ (mark m (encode_len n) ++ (key_bytes m key ++ rest)))
        default_header
      ≡ parsed m n key (record default_header { fin = fin; opcode = op })
parse_header-framed m fin op n key rest hn hk =
    parse_header-second fin op _ (framed-ne-nil m n _)
    ∙ second-framed (first_byte fin op) n key rest _ hk m hn

-- A client's frame of fewer than 2^32 payload bytes, whatever follows it, is parsed to its fields:
-- the header's length, FIN, the opcode, the mask bit, the payload's length and the key.
pub parse_header-client_frame :
    (fin : Bool) (op : OpCode) (key : ℕ) (payload rest : List ℕ)
    → length payload < 2 ^ 32
    → key < 2 ^ 32
    → parse_header (client_frame fin op key payload ++ rest) default_header ≡ (
      client_header_size payload,
      record {
        fin = fin;
        opcode = op;
        masked = true;
        header_len = client_header_size payload;
        payload_len = length payload;
        mask_key = key;
      },
    )
unfolding client_frame
parse_header-client_frame fin op key payload rest hn hk =
    rw append_assoc
      (parse_header-framed true fin op (length payload) key (apply_mask payload key ++ rest) hn hk)

mark_unmasked : (bs : List ℕ) → mark false bs ≡ bs
mark_unmasked [] = refl
mark_unmasked (b ∷ bs) = refl

behind : (b : ℕ) (bs cs : List ℕ) → drop (1 + length bs + 0) (b ∷ (bs ++ cs)) ≡ cs
behind b bs cs =
    let e : 1 + length bs + 0 ≡ suc (length bs) = omega arith in rw e (drop-length bs cs)

-- A server's frame of fewer than 2^32 payload bytes is parsed to its fields, unmasked, and
-- what stands behind the header is the payload and whatever follows the frame.
pub parse_header-encode_server_frame :
    (fin : Bool) (op : OpCode) (payload rest : List ℕ)
    → length payload < 2 ^ 32
    → let size = header_size false (length payload) in
      (parse_header (encode_server_frame fin op payload ++ rest) default_header ≡ (
        size,
        record {
          fin = fin;
          opcode = op;
          masked = false;
          header_len = size;
          payload_len = length payload;
          mask_key = 0;
        },
      ))
      × (drop size (encode_server_frame fin op payload ++ rest) ≡ payload ++ rest)
unfolding encode_server_frame
parse_header-encode_server_frame fin op payload rest hn =
    let n = length payload in
    let frame =
      ap (λ (bs : List ℕ). first_byte fin op ∷ (bs ++ (payload ++ rest)))
        (mark_unmasked (encode_len n)) in
    (
      rw append_assoc (
          ap (λ (bs : List ℕ). parse_header bs default_header) (sym frame)
          ∙ parse_header-framed false fin op n 0 (payload ++ rest) hn (omega arith)),
      rw append_assoc (behind _ (encode_len n) (payload ++ rest)),
    )

length-mark : (m : Bool) (bs : List ℕ) → length (mark m bs) ≡ length bs
length-mark m [] = refl
length-mark m (b ∷ bs) = refl

pub client_frame-ne-nil :
    (fin : Bool) (op : OpCode) (key : ℕ) (payload rest : List ℕ)
    → client_frame fin op key payload ++ rest ≢ []
unfolding client_frame
client_frame-ne-nil fin op key payload rest e = cc

-- Behind the header of a client's frame stands its masked payload.
pub drop-client_frame :
    (fin : Bool) (op : OpCode) (key : ℕ) (payload rest : List ℕ)
    → drop (client_header_size payload) (client_frame fin op key payload ++ rest)
      ≡ apply_mask payload key ++ rest
unfolding client_frame
drop-client_frame fin op key payload rest =
    let front = mark true (encode_len (length payload)) ++ key_bytes true key in
    let size : client_header_size payload ≡ suc (length front) = omega (
      arith,
      length-append (mark true (encode_len (length payload))) (key_bytes true key),
      length-mark true (encode_len (length payload)),
    ) in
    let shape : first_byte fin op
          ∷ (mark true (encode_len (length payload))
              ++ (key_bytes true key ++ (apply_mask payload key ++ rest)))
        ≡ (first_byte fin op ∷ front) ++ (apply_mask payload key ++ rest) =
      ap (◌∷◌ (first_byte fin op))
        (sym (append_assoc (mark true (encode_len (length payload))) _ _)) in
    let whole : (first_byte fin op
            ∷ (mark true (encode_len (length payload))
                ++ (key_bytes true key ++ apply_mask payload key)))
          ++ rest
        ≡ (first_byte fin op ∷ front) ++ (apply_mask payload key ++ rest) =
      rw append_assoc shape in
    ap₂ drop size whole ∙ drop-length (first_byte fin op ∷ front) (apply_mask payload key ++ rest)
