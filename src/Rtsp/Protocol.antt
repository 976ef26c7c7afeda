-- ===== src/Rtsp/Protocol.antt =====
-- `RtspProtocol`, src/rtsp/rtsp.cpp.
use ai_camera.Base.{
  ℕ, suc, not, ◌&&◌, ◌||◌, Option, none, some, List, [], ◌∷◌, ◌++◌, map, ◌==◌, if◌then◌else◌, codes,
  length, take, drop,
}
use ai_camera.Base.Integers.{stoul}
use ai_camera.Base.Text.{
  lines, first_line, same_text, find_char, strip_cr, next_word, to_upper, to_decimal,
  decimal_digits, assign, lookup,
}
use ai_camera.Rtsp.Types.{RtspMethod, RtspRequest, RtspResponse}

abbrev pub crlf : List ℕ
crlf = 13 ∷ 10 ∷ []

-- The loop over the headers.
unfoldable pub header_lines : List (List ℕ × List ℕ) → List ℕ
header_lines [] = []
header_lines (entry ∷ entries) =
    entry.0 ++ (codes ": " ++ (entry.1 ++ (crlf ++ header_lines entries)))

unfoldable pub body_part : RtspResponse → List ℕ
unfolding decimal_digits
body_part r =
    if not (length r.body == 0)
    then codes "Content-Length: "
      ++ (to_decimal (length r.body)
          ++ (crlf ++ (codes "Content-Type: " ++ (r.content_type ++ (crlf ++ (crlf ++ r.body))))))
    else crlf

unfoldable pub build_response : RtspResponse → List ℕ → List ℕ
unfolding decimal_digits
build_response r cseq =
    codes "RTSP/1.0 "
    ++ (to_decimal r.status_code
        ++ (codes " "
            ++ (r.status_reason
                ++ (crlf
                    ++ (codes "CSeq: "
                        ++ (cseq
                            ++ (crlf
                                ++ (codes "Server: RTSPServer/1.0"
                                    ++ (crlf ++ (header_lines r.headers ++ body_part r))))))))))

abbrev pub rtsp_version : List ℕ
rtsp_version = codes "RTSP/1.0"

unfoldable pub method_of : List ℕ → Option RtspMethod
unfolding same_text
method_of text =
    if same_text text (codes "OPTIONS")
    then some RtspMethod.options
    else if same_text text (codes "DESCRIBE")
    then some RtspMethod.describe
    else if same_text text (codes "SETUP")
    then some RtspMethod.setup
    else if same_text text (codes "PLAY")
    then some RtspMethod.play
    else if same_text text (codes "PAUSE")
    then some RtspMethod.pause
    else if same_text text (codes "TEARDOWN")
    then some RtspMethod.teardown
    else if same_text text (codes "GET_PARAMETER")
    then some RtspMethod.get_parameter
    else if same_text text (codes "SET_PARAMETER")
    then some RtspMethod.set_parameter
    else if same_text text (codes "RECORD")
    then some RtspMethod.record_method
    else none

-- The method, the URL and the version; what a failed call leaves in them is not read.
unfoldable pub parse_rtsp_request_line : List ℕ → Option (RtspMethod × List ℕ × List ℕ)
unfolding next_word same_text method_of
parse_rtsp_request_line line =
    let (method_str, rest) = next_word line in
    let (url, rest1) = next_word rest in
    let (version, rest2) = next_word rest1 in
    if length method_str == 0
      || length url == 0
      || length version == 0
      || not (same_text version rtsp_version)
    then none
    else elim (method_of (map to_upper method_str)) [
      | none ↦ none
      | some method ↦ some (method, url, version)
    ]

unfoldable pub trim_left : List ℕ → List ℕ
trim_left [] = []
trim_left (c ∷ cs) = let rest = trim_left cs in if c == 32 then rest else c ∷ cs

unfoldable pub trim_right : List ℕ → List ℕ
trim_right [] = []
trim_right (c ∷ cs) =
    let rest = trim_right cs in if c == 32 && length rest == 0 then [] else c ∷ rest

abbrev pub trim : List ℕ → List ℕ
unfolding trim_left trim_right
trim text = trim_right (trim_left text)

unfoldable pub add_header : List (List ℕ × List ℕ) → List ℕ → List (List ℕ × List ℕ)
unfolding find_char assign trim_left trim_right
add_header headers line = elim (find_char b':' line) [
  | none ↦ headers
  | some colon_pos ↦ assign headers (trim (take colon_pos line)) (trim (drop (suc colon_pos) line))
]

-- The loop. A line is empty only when nothing, not even a carriage return, stands before its end.
unfoldable pub read_headers : List (List ℕ) → List (List ℕ × List ℕ) → List (List ℕ × List ℕ)
unfolding strip_cr add_header
read_headers [] headers = headers
read_headers (line ∷ rest) headers =
    let further = read_headers rest (add_header headers (strip_cr line)) in
    if length line == 0 then headers else further

unfoldable pub parse_headers : List ℕ → List (List ℕ × List ℕ)
unfolding lines read_headers
parse_headers request = read_headers (drop 1 (lines request)) []

-- The loop that reads the body: the lines behind the request line, without their ends.
unfoldable pub joined : List (List ℕ) → List ℕ
joined [] = []
joined (line ∷ rest) = line ++ joined rest

pub data Parsed : Type 0 where
  refused : Parsed
  threw : Parsed
  parsed : RtspRequest → Parsed

unfoldable pub parse_request : List ℕ → Parsed
unfolding lines strip_cr parse_rtsp_request_line parse_headers joined stoul lookup
parse_request request_str =
    elim (parse_rtsp_request_line (strip_cr (first_line (lines request_str)))) [
      | none ↦ refused
      | some (method, url, version) ↦
          let headers = parse_headers request_str in
          let request : RtspRequest = record {
            method = method;
            url = url;
            version = version;
            headers = headers;
            body = [];
          } in
          elim (lookup (codes "Content-Length") headers) [
            | none ↦ parsed request
            | some value ↦ elim (stoul value) [
              | none ↦ threw
              | some body_size ↦
                  parsed
                    (record request { body = take body_size (joined (drop 1 (lines request_str))) })
            ]
          ]
    ]

-- What `GetMediaDescription` and `GetAttribute` of a source return.
pub record MediaSource : Type 0 where
  pub description : List ℕ
  pub attribute : List ℕ

unfoldable pub sdp_tracks : List (Option MediaSource) → ℕ → List ℕ
unfolding decimal_digits
sdp_tracks [] i = []
sdp_tracks (none ∷ sources) i = sdp_tracks sources (suc i)
sdp_tracks (some source ∷ sources) i =
    source.description
    ++ (crlf
        ++ (source.attribute
            ++ (crlf
                ++ (codes "a=control:track"
                    ++ (to_decimal i ++ (crlf ++ sdp_tracks sources (suc i)))))))

unfoldable pub generate_sdp : List ℕ → List ℕ → List (Option MediaSource) → List ℕ
unfolding sdp_tracks
generate_sdp ip session_id sources =
    codes "v=0"
    ++ (crlf
        ++ (codes "o=- "
            ++ (session_id
                ++ (codes " 1234 IN IP4 "
                    ++ (ip
                        ++ (crlf
                            ++ (codes "s=RTSP Server"
                                ++ (crlf
                                    ++ (codes "c=IN IP4 0.0.0.0"
                                        ++ (crlf
                                            ++ (codes "t=0 0"
                                                ++ (crlf ++ sdp_tracks sources 0))))))))))))
