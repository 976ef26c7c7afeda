-- ===== src/Sip/Auth/Challenge.antt =====
-- Challenges as `ParseWwwAuthenticate`, src/gb28181/sip_message.cpp, reads them.
use mathlib.Core.List.{append_assoc}
use ai_camera.Base.{
  ℕ, zero, suc, ◌≤◌, ◌<◌, ◌≡◌, refl, ap, ◌∙◌, ◌≢◌, inl, inr, true, false, none, some, List, [], ◌∷◌,
  ◌++◌, arith, ◌==◌, Option-cases, Bool-cases, if◌then◌else◌, codes, length, take, drop, replicate,
  All, length-append, length-drop, take-length,
}
use ai_camera.Base.Text.{same_text, same_text-eq, find_char, find_char-lt}
use ai_camera.Sip.Message.Lines.{without, find_char-append, drop_past}
use ai_camera.Sip.Message.Numbers.{unspaced}
use ai_camera.Sip.Auth.{
  SipAuthInfo, new_auth_info, blanks_before, blanks_behind, set_param, quoted_value, next_param,
  parse_params, parse_www_authenticate,
}

quoted_value_shorter :
    (behind value rest : List ℕ)
    → quoted_value behind ≡ some (value, rest)
    → length rest ≤ length behind
unfolding quoted_value
quoted_value_shorter behind value rest h = elim (Option-cases (find_char b'"' behind)) [
  | inl e ↦ let never : none ≡ some (value, rest) = rw (quoted_value, e) at h in cc
  | inr (i, e) ↦
      let text = drop (suc i) behind in
      elim (Option-cases (find_char b'"' text)) [
        | inl f ↦ let never : none ≡ some (value, rest) = rw (quoted_value, e, f) at h in cc
        | inr (j, f) ↦
            let there : some (take j text, drop (suc j) text) ≡ some (value, rest) =
              rw (quoted_value, e, f) at h in
            let same : drop (suc j) text ≡ rest = cc in
            omega (arith, ap length same, length-drop (suc j) text, length-drop (suc i) behind)
      ]
]

next_param_shorter :
    (params key value rest : List ℕ)
    → next_param params ≡ some (key, value, rest)
    → length rest < length params
unfolding next_param
next_param_shorter params key value rest h = elim (Option-cases (find_char b'=' params)) [
  | inl e ↦ let never : none ≡ some (key, value, rest) = rw (next_param, e) at h in cc
  | inr (i, e) ↦
      let behind = drop (suc i) params in
      elim (Option-cases (quoted_value behind)) [
        | inl f ↦ let never : none ≡ some (key, value, rest) = rw (next_param, e, f) at h in cc
        | inr ((v, r), f) ↦
            let there : some (blanks_behind (blanks_before (take i params)), v, r)
                ≡ some (key, value, rest) =
              rw (next_param, e, f) at h in
            let same : r ≡ rest = cc in
            omega (
              arith,
              ap length same,
              quoted_value_shorter behind v r f,
              length-drop (suc i) params,
              find_char-lt b'=' params i e,
            )
      ]
]

-- The loop over the parameters ends.
parse_params-ends :
    (fuel : ℕ) (params : List ℕ) (info : SipAuthInfo)
    → length params < fuel
    → parse_params fuel params info ≢ none
unfolding parse_params
parse_params-ends zero params info h = elim h [ ]
parse_params-ends (suc fuel) params info h = elim (Option-cases (next_param params)) [
  | inl e ↦ rw (parse_params, e) (λ never. cc)
  | inr ((key, value, rest), e) ↦ elim (Option-cases (find_char b',' rest)) [
    | inl f ↦ rw (parse_params, e, f) (λ never. cc)
    | inr (comma, f) ↦
        let further = parse_params-ends fuel (drop (suc comma) rest) (set_param info key value) (
          omega
            (arith, next_param_shorter params key value rest e, length-drop (suc comma) rest)) in
        rw (parse_params, e, f) further
  ]
]

-- Every challenge is read.
pub parse_www_authenticate-ends :
    (header_value : List ℕ) → parse_www_authenticate header_value ≢ none
unfolding parse_www_authenticate
parse_www_authenticate-ends header_value = elim (Option-cases (find_char 32 header_value)) [
  | inl e ↦ rw (parse_www_authenticate, e) (λ never. cc)
  | inr (i, e) ↦
      let params = drop (suc i) header_value in
      rw (parse_www_authenticate, e)
        (parse_params-ends (suc (length params)) params
          (record new_auth_info { scheme = take i header_value }) (omega arith))
]

-- A parameter with its value in quotes; parameters are behind one another with a comma and a space.
abbrev pub param_text : List ℕ × List ℕ → List ℕ → List ℕ
param_text param rest = param.0 ++ (b'=' ∷ (b'"' ∷ (param.1 ++ (b'"' ∷ rest))))

abbrev pub params_text : List (List ℕ × List ℕ) → List ℕ
params_text [] = []
params_text (p ∷ []) = param_text p []
params_text (p ∷ (q ∷ ps)) = param_text p (b',' ∷ (32 ∷ params_text (q ∷ ps)))

-- The name and the value of a parameter.
pub record IsParam (param : List ℕ × List ℕ) : Type 0 where
  pub name_unspaced : unspaced param.0 ≡ true
  pub no_sign : without b'=' param.0 ≡ true
  pub no_quote : without b'"' param.1 ≡ true

abbrev set_params : SipAuthInfo → List (List ℕ × List ℕ) → SipAuthInfo
set_params info [] = info
set_params info (p ∷ ps) = set_params (set_param info p.0 p.1) ps

-- The value of the last parameter of a name, or what there was before.
unfoldable pub last_value : List ℕ → List ℕ → List (List ℕ × List ℕ) → List ℕ
last_value name before [] = before
last_value name before (p ∷ ps) = last_value name (if same_text p.0 name then p.1 else before) ps

-- The last values of six names, and a scheme.
abbrev pub last_values : SipAuthInfo → List (List ℕ × List ℕ) → SipAuthInfo
last_values info ps = record {
  scheme = info.scheme;
  realm = last_value (codes "realm") info.realm ps;
  nonce = last_value (codes "nonce") info.nonce ps;
  opaque = last_value (codes "opaque") info.opaque ps;
  algorithm = last_value (codes "algorithm") info.algorithm ps;
  qop = last_value (codes "qop") info.qop ps;
  stale = last_value (codes "stale") info.stale ps;
}

set_param-last_values :
    (info : SipAuthInfo) (key value : List ℕ)
    → set_param info key value ≡ last_values info ((key, value) ∷ [])
unfolding set_param last_value same_text
set_param-last_values info key value = elim (Bool-cases (same_text key (codes "realm"))) [
  | inl e ↦ rw (same_text-eq key (codes "realm") e) refl
  | inr realm ↦ elim (Bool-cases (same_text key (codes "nonce"))) [
    | inl e ↦ rw (same_text-eq key (codes "nonce") e) refl
    | inr nonce ↦ elim (Bool-cases (same_text key (codes "opaque"))) [
      | inl e ↦ rw (same_text-eq key (codes "opaque") e) refl
      | inr opaque ↦ elim (Bool-cases (same_text key (codes "algorithm"))) [
        | inl e ↦ rw (same_text-eq key (codes "algorithm") e) refl
        | inr algorithm ↦ elim (Bool-cases (same_text key (codes "qop"))) [
          | inl e ↦ rw (same_text-eq key (codes "qop") e) refl
          | inr qop ↦ elim (Bool-cases (same_text key (codes "stale"))) [
            | inl e ↦ rw (same_text-eq key (codes "stale") e) refl
            | inr stale ↦ rw (realm, nonce, opaque, algorithm, qop, stale) refl
          ]
        ]
      ]
    ]
  ]
]

set_params-last_values :
    (info : SipAuthInfo) (ps : List (List ℕ × List ℕ)) → set_params info ps ≡ last_values info ps
unfolding last_value
set_params-last_values info [] = refl
set_params-last_values info ((key, value) ∷ ps) =
    ap (λ i. set_params i ps) (set_param-last_values info key value)
    ∙ set_params-last_values (last_values info ((key, value) ∷ [])) ps

blanks_behind-unspaced : (key : List ℕ) → unspaced key ≡ true → blanks_behind key ≡ key
unfolding blanks_behind unspaced
blanks_behind-unspaced [] h = refl
blanks_behind-unspaced (c ∷ cs) h =
    let apart : (c == 32) ≡ false = ground arith in
    let rest = blanks_behind-unspaced cs (ground arith) in rw (blanks_behind, apart, rest) refl

blanks_before-unspaced :
    (n : ℕ) (key : List ℕ) → unspaced key ≡ true → blanks_before (replicate n 32 ++ key) ≡ key
unfolding blanks_before unspaced
blanks_before-unspaced (suc n) key h = blanks_before-unspaced n key h
blanks_before-unspaced zero [] h = refl
blanks_before-unspaced zero (c ∷ cs) h =
    let apart : (c == 32) ≡ false = ground arith in rw (blanks_before, apart) refl

without-replicate :
    (n : ℕ) (key : List ℕ) → without b'=' key ≡ true → without b'=' (replicate n 32 ++ key) ≡ true
unfolding without
without-replicate zero key h = h
without-replicate (suc n) key h = without-replicate n key h

quoted_value-quoted :
    (value rest : List ℕ)
    → without b'"' value ≡ true
    → quoted_value (b'"' ∷ (value ++ (b'"' ∷ rest))) ≡ some (value, rest)
unfolding quoted_value find_char
quoted_value-quoted value rest h =
    rw (quoted_value, find_char-append b'"' value rest h)
      (rw (take-length value (b'"' ∷ rest), drop_past b'"' value rest) refl)

next_param_at :
    (params value rest : List ℕ) (i : ℕ)
    → find_char b'=' params ≡ some i
    → quoted_value (drop (suc i) params) ≡ some (value, rest)
    → next_param params ≡ some (blanks_behind (blanks_before (take i params)), value, rest)
unfolding next_param
next_param_at params value rest i e f = rw (next_param, e, f) refl

next_param-param_text :
    (n : ℕ) (param : List ℕ × List ℕ) (rest : List ℕ)
    → IsParam param
    → next_param (replicate n 32 ++ param_text param rest) ≡ some (param.0, param.1, rest)
next_param-param_text n (key, value) rest h =
    let name = replicate n 32 ++ key in
    let behind = b'"' ∷ (value ++ (b'"' ∷ rest)) in
    let there = find_char-append b'=' name behind (without-replicate n key h.no_sign) in
    let quotes =
      ap quoted_value (drop_past b'=' name behind) ∙ quoted_value-quoted value rest h.no_quote in
    let trimmed : blanks_behind (blanks_before name) ≡ key =
      ap blanks_behind (blanks_before-unspaced n key h.name_unspaced)
      ∙ blanks_behind-unspaced key h.name_unspaced in
    let named =
      ap (λ k. blanks_behind (blanks_before k)) (take-length name (b'=' ∷ behind)) ∙ trimmed in
    rw (← append_assoc (replicate n 32) key (b'=' ∷ behind)) (
      next_param_at (name ++ (b'=' ∷ behind)) value rest (length name) there quotes
      ∙ ap (λ k. some (k, value, rest)) named)

parse_params-params_text :
    (fuel n : ℕ) (p : List ℕ × List ℕ) (ps : List (List ℕ × List ℕ)) (info : SipAuthInfo)
    → All IsParam (p ∷ ps)
    → length ps < fuel
    → parse_params fuel (replicate n 32 ++ params_text (p ∷ ps)) info
      ≡ some (set_params info (p ∷ ps))
unfolding parse_params find_char
parse_params-params_text zero n p ps info h enough = elim enough [ ]
parse_params-params_text (suc fuel) n p [] info (h, hs) enough =
    rw (parse_params, next_param-param_text n p [] h) refl
parse_params-params_text (suc fuel) n p (q ∷ qs) info (h, hs) enough =
    rw (parse_params, next_param-param_text n p (b',' ∷ (32 ∷ params_text (q ∷ qs))) h)
      (parse_params-params_text fuel 1 q qs (set_param info p.0 p.1) hs (omega (arith, enough)))

params_text_long : (ps : List (List ℕ × List ℕ)) → length ps ≤ length (params_text ps)
params_text_long [] = omega arith
params_text_long (p ∷ []) = omega (arith, length-append p.0 (b'=' ∷ (b'"' ∷ (p.1 ++ (b'"' ∷ [])))))
params_text_long (p ∷ (q ∷ ps)) =
    let rest = b',' ∷ (32 ∷ params_text (q ∷ ps)) in
    omega (
      arith,
      params_text_long (q ∷ ps),
      length-append p.0 (b'=' ∷ (b'"' ∷ (p.1 ++ (b'"' ∷ rest)))),
      length-append p.1 (b'"' ∷ rest),
    )

-- A challenge of a scheme and one parameter or more, each with its value in quotes, a comma and a space
-- between them: its scheme is read, and of each of the names realm, nonce, opaque, algorithm, qop and stale
-- the value of its last parameter, the empty text where there is none; other names are passed over.
pub parse_www_authenticate-params_text :
    (scheme : List ℕ) (p : List ℕ × List ℕ) (ps : List (List ℕ × List ℕ))
    → without 32 scheme ≡ true
    → All IsParam (p ∷ ps)
    → parse_www_authenticate (scheme ++ (32 ∷ params_text (p ∷ ps)))
      ≡ some (record {
        scheme = scheme;
        realm = last_value (codes "realm") [] (p ∷ ps);
        nonce = last_value (codes "nonce") [] (p ∷ ps);
        opaque = last_value (codes "opaque") [] (p ∷ ps);
        algorithm = last_value (codes "algorithm") [] (p ∷ ps);
        qop = last_value (codes "qop") [] (p ∷ ps);
        stale = last_value (codes "stale") [] (p ∷ ps);
      })
unfolding parse_www_authenticate
parse_www_authenticate-params_text scheme p ps whole h =
    let params = params_text (p ∷ ps) in
    let scheme_only : SipAuthInfo = record new_auth_info { scheme = scheme } in
    rw (parse_www_authenticate, find_char-append 32 scheme params whole)
      (rw (take-length scheme (32 ∷ params), drop_past 32 scheme params)
        (parse_params-params_text (suc (length params)) 0 p ps scheme_only h
            (omega (arith, params_text_long (p ∷ ps)))
          ∙ ap some (set_params-last_values scheme_only (p ∷ ps))))
