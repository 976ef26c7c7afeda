-- ===== src/Serial/Protocol/Lines.antt =====
-- Frames wrapped by `LineProtocol::WrapFrame`, src/serial/serial_protocol.cpp, as `OnData` splits them.
use ai_camera.Base.{
  ℕ, suc, ◌+◌, ◌≡◌, refl, false, none, some, List, [], ◌∷◌, ◌++◌, arith, ◌==◌, ==_refl, length,
  drop, All, take-length,
}
use mathlib.Core.List.{append_assoc}
use ai_camera.Base.Text.{begins, find}
use ai_camera.Serial.Protocol.{split_lines, line_on_data, wrap_line}

-- A payload that the delimiter is not in.
abbrev pub Free : ℕ → List ℕ → Type 0
Free d = All (λ c. (d == c) ≡ false)

-- Payloads wrapped and sent one after the other.
abbrev pub wrapped : ℕ → List (List ℕ) → List ℕ
wrapped d [] = []
wrapped d (p ∷ ps) = wrap_line (d ∷ []) p ++ wrapped d ps

find-Free : (d : ℕ) (p rest : List ℕ) → Free d p → find (d ∷ []) (p ++ (d ∷ rest)) ≡ some (length p)
unfolding find begins
find-Free d [] rest h = rw (==_refl d) refl
find-Free d (c ∷ cs) rest (h, hs) = rw (h, find-Free d cs rest hs) refl

find-none : (d : ℕ) (p : List ℕ) → Free d p → find (d ∷ []) p ≡ none
unfolding find begins
find-none d [] h = refl
find-none d (c ∷ cs) (h, hs) = rw (h, find-none d cs hs) refl

drop-wrapped : (d : ℕ) (p rest : List ℕ) → drop (length p + 1) (p ++ (d ∷ rest)) ≡ rest
drop-wrapped d [] rest = refl
drop-wrapped d (c ∷ cs) rest = rw (one_more (length cs)) (drop-wrapped d cs rest)
  where
    one_more : (n : ℕ) → suc n + 1 ≡ suc (n + 1)
    one_more n = omega arith

-- One payload is one round.
split_lines-payload :
    (fuel d : ℕ) (q rest : List ℕ) (frames : List (List ℕ)) (left : List ℕ)
    → Free d q
    → split_lines fuel (d ∷ []) rest ≡ some (frames, left)
    → split_lines (suc fuel) (d ∷ []) (q ++ (d ∷ rest)) ≡ some (q ∷ frames, left)
unfolding split_lines
split_lines-payload fuel d q rest frames left h done =
    rw (split_lines, find-Free d q rest h)
      (rw (drop-wrapped d q rest, done, take-length q (d ∷ rest)) refl)

split_lines-wrapped :
    (d : ℕ) (ps : List (List ℕ)) (start : List ℕ)
    → All (Free d) ps
    → Free d start
    → split_lines (suc (length ps)) (d ∷ []) (wrapped d ps ++ start) ≡ some (ps, start)
unfolding split_lines
split_lines-wrapped d [] start h k = rw (split_lines, find-none d start k) refl
split_lines-wrapped d (q ∷ qs) start (h, hs) k =
    let rest = wrapped d qs ++ start in
    rw (append_assoc (q ++ (d ∷ [])) (wrapped d qs) start, append_assoc q (d ∷ []) rest)
      (split_lines-payload (suc (length qs)) d q rest qs start h
        (split_lines-wrapped d qs start hs k))

-- Payloads without the delimiter, a byte, wrapped and sent one after the other, and then the start of
-- another that is not finished: the protocol gives the payloads in order and keeps that start, in a
-- round for each payload and one more, wherever the bytes are cut into those kept and those that come.
pub line_on_data-wrapped :
    (d : ℕ) (ps : List (List ℕ)) (start kept bytes : List ℕ)
    → All (Free d) ps
    → Free d start
    → kept ++ bytes ≡ wrapped d ps ++ start
    → line_on_data (suc (length ps)) (d ∷ []) kept bytes ≡ some (ps, start)
line_on_data-wrapped d ps start kept bytes h k e = rw e (split_lines-wrapped d ps start h k)
