-- ===== src/Media/Packet/Sharing.antt =====
-- Packets that share buffers, src/media/media_packet.c: counts and references.
pub mod Operations
use ai_camera.Base.{
  ℕ, zero, suc, ◌+◌, ◌-◌, ◌*◌, ◌/◌, ◌%◌, ◌^◌, ◌≤◌, ◌<◌, ◌≡◌, refl, sym, ap, ◌∙◌, ◌≢◌, ◌↔◌, ◌⊎◌, inl,
  inr, Bool, true, false, not, ◌&&◌, ◌||◌, Option, none, some, List, [], ◌∷◌, ◌++◌, map, arith,
  dec_lt, dec_le, ℕ_discrete, ltb, leb, ◌==◌, if◌then◌else◌, ltb→lt, lt→ltb, ltb_false→le,
  le→ltb_false, ==_iff, ==_refl, Bool-cases, Option-cases, codes, length, get_or, take, drop,
  replicate, All, length-append, length-take, length-drop, take-append-drop, take-length,
  drop-length, take-append_le, drop-append_le, get_or-append_left, All-append, All-take, All-drop,
}
use ai_camera.Media.Buffer.{
  Heap, MediaBuffer, media_buffer_create, media_buffer_create_with_data, media_buffer_ref,
  media_buffer_unref,
}
use ai_camera.Media.Buffer.Counts.{
  Counts, Counts-same, with_refs, ref-Counts, unref-Counts, made, create-Counts,
  create_with_data-Counts,
}
use ai_camera.Media.Packet.{
  Memory, MediaPacket, store, with_buffer, released, shared, media_packet_init, media_packet_clear,
  media_packet_alloc_buffer, media_packet_set_data, media_packet_copy,
}

-- 1 if a packet's buffer is at the address.
abbrev pub one : Option ℕ → ℕ → ℕ
one none b = 0
one (some a) b = if b == a then 1 else 0

-- How many of the first packets have the buffer.
unfoldable pub sharers : ℕ → (ℕ → MediaPacket) → ℕ → ℕ
sharers zero packets b = 0
sharers (suc n) packets b = one (packets n).buffer b + sharers n packets b

sharers_out :
    (n : ℕ) (packets : ℕ → MediaPacket) (id : ℕ) (p : MediaPacket) (b : ℕ)
    → n ≤ id
    → sharers n (store packets id p) b ≡ sharers n packets b
unfolding sharers
sharers_out zero packets id p b h = refl
sharers_out (suc n) packets id p b h =
    let other : (n == id) ≡ false = ground arith in
    rw (other, sharers_out n packets id p b (omega arith)) refl

-- A packet stored among them.
pub sharers-store :
    (n : ℕ) (packets : ℕ → MediaPacket) (id : ℕ) (p : MediaPacket) (b : ℕ)
    → id < n
    → sharers n (store packets id p) b + one (packets id).buffer b
      ≡ sharers n packets b + one p.buffer b
unfolding sharers
sharers-store zero packets id p b h = elim h [ ]
sharers-store (suc n) packets id p b h = elim (Bool-cases (n == id)) [
  | inl here ↦
      let same : n ≡ id = ground arith in
      let below : n ≤ id = omega arith in
      rw (here, sharers_out n packets id p b below, same) (omega arith)
  | inr there ↦
      let below : id < n = ground arith in
      let rest = sharers-store n packets id p b below in rw there (omega arith)
]

-- The references to a buffer: those that others hold, and the packets.
abbrev pub references : ℕ → (ℕ → ℕ) → Memory → ℕ → ℕ
references n held m b = held b + sharers n m.packets b

-- The memory of so many packets is sound: every count is the number of references.
abbrev pub Sound : ℕ → (ℕ → ℕ) → Memory → Type 0
Sound n held m = Counts m.heap (references n held m)

-- The references once a packet has let go of its buffer.
abbrev pub without : (ℕ → ℕ) → Option ℕ → ℕ → ℕ
without t x i = t i - one x i

pub one-below :
    (n : ℕ) (packets : ℕ → MediaPacket) (id b : ℕ)
    → id < n
    → one (packets id).buffer b ≤ sharers n packets b
unfolding sharers
one-below zero packets id b h = elim h [ ]
one-below (suc n) packets id b h = elim (Bool-cases (n == id)) [
  | inl here ↦ let same : n ≡ id = ground arith in rw same (omega arith)
  | inr there ↦
      let below : id < n = ground arith in let rest = one-below n packets id b below in omega arith
]

pub released-Counts :
    (h : Heap) (t : ℕ → ℕ) (x : Option ℕ)
    → Counts h t
    → ((i : ℕ) → one x i ≤ t i)
    → Counts (released h x) (without t x)
unfolding released
released-Counts h t none c there = Counts-same h t (without t none) (λ i. omega arith) c
released-Counts h t (some b) c there =
    let some_ref : 0 < t b = rw (==_refl b) at (there b) in
    Counts-same (media_buffer_unref h b) (with_refs t b (t b - 1)) (without t (some b))
      (λ i. elim (Bool-cases (i == b)) [
        | inl e ↦ let same : i ≡ b = ground arith in rw (e, same) refl
        | inr e ↦ rw e (omega arith)
      ])
      (unref-Counts h t b c some_ref)

pub shared-Counts :
    (h : Heap) (t : ℕ → ℕ) (x : Option ℕ)
    → Counts h t
    → ((i : ℕ) → one x i ≤ t i)
    → Counts (shared h x) (λ i. t i + one x i)
unfolding shared
shared-Counts h t none c there = Counts-same h t (λ i. t i + one none i) (λ i. omega arith) c
shared-Counts h t (some b) c there =
    let some_ref : 0 < t b = rw (==_refl b) at (there b) in
    Counts-same (media_buffer_ref h b) (with_refs t b (suc (t b))) (λ i. t i + one (some b) i)
      (λ i. elim (Bool-cases (i == b)) [
        | inl e ↦ let same : i ≡ b = ground arith in rw (e, same) (omega arith)
        | inr e ↦ rw e (omega arith)
      ])
      (ref-Counts h t b c some_ref)

pub made-one : (t : ℕ → ℕ) (x : Option ℕ) (i : ℕ) → made t x i ≡ t i + one x i
made-one t none i = omega arith
made-one t (some b) i = refl
