-- ===== src/Rtp/Interleaved.antt =====
-- `RtspSession::ProcessInterleavedData`, src/rtsp/rtspsession.cpp: how a session splits the bytes of
-- its TCP connection. What it calls for each piece is a value of `Piece`.
pub mod Delivery
use ai_camera.Base.{
  ℕ, zero, suc, ◌+◌, ◌-◌, ◌*◌, ◌/◌, ◌%◌, ◌^◌, ◌≤◌, ◌<◌, ◌≡◌, refl, sym, ap, ◌∙◌, ◌≢◌, ◌↔◌, ◌⊎◌, inl,
  inr, Bool, true, false, not, ◌&&◌, ◌||◌, Option, none, some, List, [], ◌∷◌, ◌++◌, map, arith,
  dec_lt, dec_le, ℕ_discrete, ltb, leb, ◌==◌, if◌then◌else◌, ltb→lt, lt→ltb, ltb_false→le,
  le→ltb_false, ==_iff, ==_refl, Bool-cases, Option-cases, codes, length, get_or, take, drop,
  replicate, All, length-append, length-take, length-drop, take-append-drop, take-length,
  drop-length, take-append_le, drop-append_le, get_or-append_left, All-append, All-take, All-drop,
}

pub data Piece : Type 0 where
  -- The arguments of `HandleRtpData`, `HandleRtcpData` and `HandleRtspRequest`.
  rtp_data rtcp_data request : List ℕ → Piece

-- The channels of the session's context.
pub record Channels : Type 0 where
  pub rtp_channel : ℕ
  pub rtcp_channel : ℕ

unfoldable pub dispatch : Channels → ℕ → List ℕ → List Piece
dispatch c channel payload =
    if channel == c.rtcp_channel
    then rtcp_data payload ∷ []
    else if channel == c.rtp_channel
    then rtp_data payload ∷ []
    else []

-- The first letter of a request that the session looks at.
abbrev starts_request : ℕ → Bool
starts_request b = b == b'O' || b == b'D' || b == b'S' || b == b'P' || b == b'T'

unfoldable pub no_frame : List ℕ → List Piece
no_frame buffer = if starts_request (get_or buffer 0 0) then request buffer ∷ [] else []

-- The length that the third and the fourth byte give.
abbrev pub frame_length : List ℕ → ℕ
frame_length buffer = get_or buffer 2 0 * 256 + get_or buffer 3 0

abbrev and_then : List Piece → List Piece × List ℕ → List Piece × List ℕ
and_then ps (qs, rest) = (ps ++ qs, rest)

-- The loop: the pieces in order and the bytes that stay in the buffer; `none` is fuel run out.
unfoldable pub process_interleaved_data : ℕ → Channels → List ℕ → Option (List Piece × List ℕ)
process_interleaved_data zero c buffer = none
process_interleaved_data (suc fuel) c buffer = elim (ltb (length buffer) 4) [
  | true ↦ some ([], buffer)
  | false ↦ elim (get_or buffer 0 0 == b'$') [
    | false ↦ some (no_frame buffer, [])
    | true ↦ elim (ltb (length buffer) (4 + frame_length buffer)) [
      | true ↦ some ([], buffer)
      | false ↦ elim (process_interleaved_data fuel c (drop (4 + frame_length buffer) buffer)) [
        | none ↦ none
        | some rest ↦ some (
            and_then (dispatch c (get_or buffer 1 0) (take (frame_length buffer) (drop 4 buffer)))
              rest)
      ]
    ]
  ]
]
