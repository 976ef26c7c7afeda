-- ===== src/Http/Parser/Headers.antt =====
-- Lines and the loop over header lines of src/server/http/http_parser.cpp, when more bytes follow.
use ai_camera.Base.{
  ℕ, zero, suc, ◌-◌, ◌<◌, ◌≡◌, refl, ap, ◌≢◌, inl, inr, Option, none, some, List, [], ◌∷◌, ◌++◌,
  arith, ◌==◌, Bool-cases, Option-cases, length, take, drop, length-append, length-drop,
  take-append_le, drop-append_le,
}
use ai_camera.Base.Text.{find_char}
use ai_camera.Http.Request.{Request}
use ai_camera.Http.Parser.{
  HeaderEnd, more, bad, ended, out_of_fuel, try_consume_line, header_line, read_headers,
}
use ai_camera.Base.Text.{strip_cr, find_char-lt}

find_char-append :
    (c : ℕ) (v b : List ℕ) (i : ℕ) → find_char c v ≡ some i → find_char c (v ++ b) ≡ some i
unfolding find_char
find_char-append c [] b i h = cc
find_char-append c (d ∷ ds) b i h = ground (arith, find_char-append c ds b (i - 1))

-- A line that is whole stays the line when more bytes follow.
pub try_consume_line-append :
    (v b l r : List ℕ)
    → try_consume_line v ≡ some (l, r)
    → try_consume_line (v ++ b) ≡ some (l, r ++ b)
unfolding try_consume_line
try_consume_line-append v b l r h = elim (Option-cases (find_char 10 v)) [
  | inl e ↦ cc (rw (e, try_consume_line) at h)
  | inr (i, e) ↦
      let below = find_char-lt 10 v i e in
      let found : some (strip_cr (take i v), drop (suc i) v) ≡ some (l, r) =
        rw (e, try_consume_line) at h in
      rw
        (
          try_consume_line,
          find_char-append 10 v b i e,
          take-append_le i v b (omega arith),
          drop-append_le (suc i) v b (omega arith),
        )
        (ap
          (λ (o : Option (List ℕ × List ℕ)). elim o [ none ↦ none | some x ↦ some (x.0, x.1 ++ b) ])
          found)
]

pub try_consume_line-shorter :
    (v l r : List ℕ) → try_consume_line v ≡ some (l, r) → length r < length v
unfolding try_consume_line
try_consume_line-shorter v l r h = elim (Option-cases (find_char 10 v)) [
  | inl e ↦ cc (rw (e, try_consume_line) at h)
  | inr (i, e) ↦
      let below = find_char-lt 10 v i e in
      let found : some (strip_cr (take i v), drop (suc i) v) ≡ some (l, r) =
        rw (e, try_consume_line) at h in
      let behind : drop (suc i) v ≡ r =
        ap (λ (o : Option (List ℕ × List ℕ)). elim o [ none ↦ r | some x ↦ x.1 ]) found in
      omega (arith, length-drop (suc i) v, ap length behind)
]

-- With more fuel than bytes, the fuel makes no difference.
pub read_headers-fuel :
    (f g : ℕ) (req : Request) (v : List ℕ)
    → length v < f
    → length v < g
    → read_headers f req v ≡ read_headers g req v
unfolding read_headers
read_headers-fuel zero g req v h k = elim h [ ]
read_headers-fuel (suc f) zero req v h k = elim k [ ]
read_headers-fuel (suc f) (suc g) req v h k = elim (Option-cases (try_consume_line v)) [
  | inl e ↦ rw (read_headers, e) refl
  | inr (x, e) ↦
      rw (read_headers, e)
        (elim (Bool-cases (length x.0 == 0)) [
          | inl empty ↦ rw empty refl
          | inr line ↦ elim (Option-cases (header_line req x.0)) [
            | inl none_there ↦ rw (line, none_there) refl
            | inr (req', there) ↦
                let shorter = try_consume_line-shorter v x.0 x.1 e in
                rw (line, there) (read_headers-fuel f g req' x.1 (omega arith) (omega arith))
          ]
        ])
]

-- What becomes of an end of the loop when more bytes follow.
abbrev pub continued : HeaderEnd → List ℕ → HeaderEnd
continued (more req view) b = read_headers (suc (length (view ++ b))) req (view ++ b)
continued (bad req view) b = bad req (view ++ b)
continued (ended req view) b = ended req (view ++ b)
continued out_of_fuel b = out_of_fuel

pub read_headers-continued :
    (f g : ℕ) (req : Request) (v b : List ℕ)
    → length v < f
    → length (v ++ b) < g
    → read_headers g req (v ++ b) ≡ continued (read_headers f req v) b
unfolding read_headers
read_headers-continued zero g req v b h k = elim h [ ]
read_headers-continued (suc f) zero req v b h k = elim k [ ]
read_headers-continued (suc f) (suc g) req v b h k = elim (Option-cases (try_consume_line v)) [
  | inl e ↦
      let left : read_headers (suc f) req v ≡ more req v = rw (read_headers, e) refl in
      rw left (read_headers-fuel (suc g) (suc (length (v ++ b))) req (v ++ b) k (omega arith))
  | inr (x, e) ↦
      let shorter = try_consume_line-shorter v x.0 x.1 e in
      let whole = try_consume_line-append v b x.0 x.1 e in
      rw (read_headers, e, whole)
        (elim (Bool-cases (length x.0 == 0)) [
          | inl empty ↦ rw empty refl
          | inr line ↦ elim (Option-cases (header_line req x.0)) [
            | inl none_there ↦ rw (line, none_there) refl
            | inr (req', there) ↦
                rw (line, there)
                  (read_headers-continued f g req' x.1 b (omega arith)
                    (omega (arith, length-append v b, length-append x.1 b)))
          ]
        ])
]

-- The loop ends: more fuel than bytes is enough.
pub read_headers-ends :
    (f : ℕ) (req : Request) (v : List ℕ) → length v < f → read_headers f req v ≢ out_of_fuel
unfolding read_headers
read_headers-ends zero req v h = elim h [ ]
read_headers-ends (suc f) req v h = elim (Option-cases (try_consume_line v)) [
  | inl e ↦ rw (read_headers, e) (λ x. cc)
  | inr (x, e) ↦
      let shorter = try_consume_line-shorter v x.0 x.1 e in
      rw (read_headers, e)
        (elim (Bool-cases (length x.0 == 0)) [
          | inl empty ↦ rw empty (λ y. cc)
          | inr line ↦ elim (Option-cases (header_line req x.0)) [
            | inl none_there ↦ rw (line, none_there) (λ y. cc)
            | inr (req', there) ↦ rw (line, there) (read_headers-ends f req' x.1 (omega arith))
          ]
        ])
]
