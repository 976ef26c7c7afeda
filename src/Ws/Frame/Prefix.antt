-- ===== src/Ws/Frame/Prefix.antt =====
-- What `ParseHeader` decides from the front of a buffer stands whatever follows.
use Prim.Native.Nat.{bit_and}
use ai_camera.Base.{
  ℕ, ◌+◌, ◌≤◌, ◌<◌, ◌≡◌, ◌≢◌, ◌⊎◌, refl, List, ◌++◌, Bool, true, false, not, ◌||◌, Option, none,
  some, ◌==◌, if◌then◌else◌, length, length-append, get_or, get_or-append_left, arith, dec_lt, ltb,
  le→ltb_false,
}
use ai_camera.Base.Bytes.{low_bits}
use ai_camera.Ws.Types.{is_valid_op_code}
use ai_camera.Ws.Frame.{
  Header, uint64_max, ext_len_bytes, be32, parse_second, parse_header, parse_payload_len,
  finish_header,
}

be32-append :
    (bytes more : List ℕ) (i : ℕ) → i + 4 ≤ length bytes → be32 (bytes ++ more) i ≡ be32 bytes i
be32-append bytes more i h = omega (
  arith,
  get_or-append_left bytes more i 0 (omega arith),
  get_or-append_left bytes more (i + 1) 0 (omega arith),
  get_or-append_left bytes more (i + 2) 0 (omega arith),
  get_or-append_left bytes more (i + 3) 0 (omega arith),
)

parse_payload_len-append :
    (bytes more : List ℕ) (len7 : ℕ)
    → len7 < 128
    → 2 + ext_len_bytes len7 ≤ length bytes
    → parse_payload_len (bytes ++ more) len7 ≡ parse_payload_len bytes len7
unfolding parse_payload_len
parse_payload_len-append bytes more len7 h7 h = ground (
  arith,
  get_or-append_left bytes more 2 0,
  get_or-append_left bytes more 3 0,
  get_or-append_left bytes more 4 0,
  get_or-append_left bytes more 5 0,
  be32-append bytes more 6,
)

finish_header-append :
    (bytes more : List ℕ) (len7 : ℕ) (hdr : Header) (o : Option ℕ)
    → 2 + ext_len_bytes len7 + (if hdr.masked then 4 else 0) ≤ length bytes
    → finish_header (bytes ++ more) len7 hdr o ≡ finish_header bytes len7 hdr o
unfolding finish_header
finish_header-append bytes more len7 hdr none h = refl
finish_header-append bytes more len7 hdr (some len) h =
    ground (arith, be32-append bytes more (2 + ext_len_bytes len7))

-- A verdict is a header or a protocol error, and no wish for more bytes.
abbrev pub IsVerdict : ℕ × Header → Type 0
IsVerdict r = (r.0 ≢ 0) ⊎ (r.1.payload_len ≡ uint64_max)

-- The last step of `parse_second`, over the header's length.
abbrev by_length : List ℕ → ℕ → ℕ → Header → Header → ℕ × Header
by_length bytes header_len len7 h h' =
    if ltb (length bytes) header_len
    then (0, h)
    else finish_header bytes len7 h' (parse_payload_len bytes len7)

by_length-append :
    (bytes more : List ℕ) (header_len len7 : ℕ) (h h' : Header)
    → len7 < 128
    → header_len ≡ 2 + ext_len_bytes len7 + (if h'.masked then 4 else 0)
    → h.payload_len ≢ uint64_max
    → IsVerdict (by_length bytes header_len len7 h h')
    → by_length (bytes ++ more) header_len len7 h h' ≡ by_length bytes header_len len7 h h'
by_length-append bytes more header_len len7 h h' h7 e hp v =
    elim (dec_lt (length bytes) header_len) [
      | yes p ↦ absurd (ground (arith))
      | no p ↦
          rw
            (
              le→ltb_false (length bytes) header_len (omega arith),
              le→ltb_false (length (bytes ++ more)) header_len
                  (omega (arith, length-append bytes more)),
              parse_payload_len-append bytes more len7 h7 (omega arith),
            )
            (finish_header-append bytes more len7 h' _ (omega arith))
    ]

parse_second-append :
    (bytes more : List ℕ) (h : Header)
    → 2 ≤ length bytes
    → h.payload_len ≢ uint64_max
    → IsVerdict (parse_second bytes h)
    → parse_second (bytes ++ more) h ≡ parse_second bytes h
unfolding parse_second
parse_second-append bytes more h hb hp v =
    rw (get_or-append_left bytes more 1 0 hb)
      (by_length-append bytes more _ (low_bits (get_or bytes 1 0) 7) _ _ (omega arith) refl hp v)

-- A header that is decided, or refused, stays so when more bytes follow.
pub parse_header-append :
    (bytes more : List ℕ) (h : Header)
    → h.payload_len ≢ uint64_max
    → IsVerdict (parse_header bytes h)
    → parse_header (bytes ++ more) h ≡ parse_header bytes h
unfolding parse_header
parse_header-append bytes more h hp v = elim (dec_lt (length bytes) 2) [
  | yes p ↦ absurd (ground arith)
  | no p ↦
      rw
        (
          le→ltb_false (length bytes) 2 (omega arith),
          le→ltb_false (length (bytes ++ more)) 2 (omega (arith, length-append bytes more)),
          get_or-append_left bytes more 0 0 (omega arith),
        )
        (by_first
          (not (bit_and (get_or bytes 0 0) 0x70 == 0)
            || not (is_valid_op_code (low_bits (get_or bytes 0 0) 4)))
          _ _ (omega arith) hp (rw (le→ltb_false (length bytes) 2 (omega arith)) at v))
]
  where
    by_first :
        (bad : Bool) (r : ℕ × Header) (h' : Header)
        → 2 ≤ length bytes
        → h'.payload_len ≢ uint64_max
        → IsVerdict (if bad then r else parse_second bytes h')
        → (if bad then r else parse_second (bytes ++ more) h')
          ≡ (if bad then r else parse_second bytes h')
    by_first true r h' hb hp' v' = refl
    by_first false r h' hb hp' v' = parse_second-append bytes more h' hb hp' v'
