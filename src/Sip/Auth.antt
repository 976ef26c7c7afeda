-- ===== src/Sip/Auth.antt =====
-- SIP digest authentication, src/gb28181/sip_message.cpp. MD5, of a library, is an argument: the hash of a
-- text as the text of its hexadecimal digits.
pub mod Challenge
use ai_camera.Base.{
  ℕ, zero, suc, ◌&&◌, Option, none, some, List, [], ◌∷◌, ◌++◌, ◌==◌, if◌then◌else◌, codes, length,
  take, drop,
}
use ai_camera.Base.Text.{same_text, find_char}

-- `SipAuthInfo`, the fields that a challenge gives.
pub record SipAuthInfo : Type 0 where
  pub scheme : List ℕ
  pub realm : List ℕ
  pub nonce : List ℕ
  pub opaque : List ℕ
  pub algorithm : List ℕ
  pub qop : List ℕ
  pub stale : List ℕ

abbrev pub new_auth_info : SipAuthInfo
new_auth_info = record {
  scheme = [];
  realm = [];
  nonce = [];
  opaque = [];
  algorithm = [];
  qop = [];
  stale = [];
}

unfoldable pub blanks_before : List ℕ → List ℕ
blanks_before [] = []
blanks_before (c ∷ cs) = let rest = blanks_before cs in if c == 32 then rest else c ∷ cs

unfoldable pub blanks_behind : List ℕ → List ℕ
blanks_behind [] = []
blanks_behind (c ∷ cs) =
    let rest = blanks_behind cs in if c == 32 && length rest == 0 then [] else c ∷ rest

unfoldable pub set_param : SipAuthInfo → List ℕ → List ℕ → SipAuthInfo
set_param info key value =
    if same_text key (codes "realm")
    then record info { realm = value }
    else if same_text key (codes "nonce")
    then record info { nonce = value }
    else if same_text key (codes "opaque")
    then record info { opaque = value }
    else if same_text key (codes "algorithm")
    then record info { algorithm = value }
    else if same_text key (codes "qop")
    then record info { qop = value }
    else if same_text key (codes "stale")
    then record info { stale = value }
    else info

-- The text between two quotes and what stands behind them: `none` for want of a quote.
unfoldable pub quoted_value : List ℕ → Option (List ℕ × List ℕ)
quoted_value behind = elim (find_char b'"' behind) [
  | none ↦ none
  | some quote_start ↦
      let text = drop (suc quote_start) behind in
      elim (find_char b'"' text) [
        | none ↦ none
        | some quote_end ↦ some (take quote_end text, drop (suc quote_end) text)
      ]
]

-- The key, the value and what stands behind it: `none` where the loop is left for want of a sign or a
-- quote. The text is the parameters from the position on.
unfoldable pub next_param : List ℕ → Option (List ℕ × List ℕ × List ℕ)
next_param params = elim (find_char b'=' params) [
  | none ↦ none
  | some eq_pos ↦ elim (quoted_value (drop (suc eq_pos) params)) [
    | none ↦ none
    | some (value, rest) ↦ some (blanks_behind (blanks_before (take eq_pos params)), value, rest)
  ]
]

-- The loop, `none` out of fuel.
unfoldable pub parse_params : ℕ → List ℕ → SipAuthInfo → Option SipAuthInfo
parse_params zero params info = none
parse_params (suc fuel) params info = elim (next_param params) [
  | none ↦ some info
  | some (key, value, rest) ↦ elim (find_char b',' rest) [
    | none ↦ some (set_param info key value)
    | some comma ↦ parse_params fuel (drop (suc comma) rest) (set_param info key value)
  ]
]

unfoldable pub parse_www_authenticate : List ℕ → Option SipAuthInfo
parse_www_authenticate header_value = elim (find_char 32 header_value) [
  | none ↦ some new_auth_info
  | some space_pos ↦
      let params = drop (suc space_pos) header_value in
      parse_params (suc (length params)) params
        (record new_auth_info { scheme = take space_pos header_value })
]

-- What the server's hash is taken of.
unfoldable pub digest_input : List ℕ → List ℕ → List ℕ → List ℕ → List ℕ → List ℕ → List ℕ
digest_input ha1 nonce nc cnonce qop ha2 =
    if length qop == 0
    then ha1 ++ (codes ":" ++ (nonce ++ (codes ":" ++ ha2)))
    else ha1
      ++ (codes ":"
          ++ (nonce
              ++ (codes ":"
                  ++ (nc
                      ++ (codes ":" ++ (cnonce ++ (codes ":" ++ (qop ++ (codes ":" ++ ha2)))))))))

unfoldable pub calculate_sip_digest_response :
    (List ℕ → List ℕ)
    → List ℕ
    → List ℕ
    → List ℕ
    → List ℕ
    → List ℕ
    → List ℕ
    → List ℕ
    → List ℕ
    → List ℕ
    → List ℕ
calculate_sip_digest_response md5 username password realm nonce method uri nc cnonce qop =
    let ha1 = md5 (username ++ (codes ":" ++ (realm ++ (codes ":" ++ password)))) in
    let ha2 = md5 (method ++ (codes ":" ++ uri)) in md5 (digest_input ha1 nonce nc cnonce qop ha2)
