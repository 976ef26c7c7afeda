-- ===== src/Media/Buffer/Counts.antt =====
-- The counts of src/media/media_buffer.c and the references that there are.
use ai_camera.Base.{
  ℕ, suc, ◌+◌, ◌-◌, ◌≤◌, ◌<◌, ◌≡◌, refl, ◌∙◌, inl, inr, Bool, false, not, ◌||◌, Option, none, some,
  List, [], ◌∷◌, ◌++◌, arith, ltb, leb, ◌==◌, if◌then◌else◌, Bool-cases, Option-cases,
}
use ai_camera.Media.Buffer.{
  MediaBuffer, Freed, Heap, at_address, place, media_buffer_create, media_buffer_create_with_data,
  media_buffer_ref, media_buffer_unref,
}

abbrev pub refs_of : Option MediaBuffer → ℕ
refs_of none = 0
refs_of (some b) = b.ref_count

unfoldable pub Positive : Option MediaBuffer → Type 0
Positive none = Unit
Positive (some b) = 0 < b.ref_count

-- A heap whose buffers have this many references each: a buffer that has none is freed, one that has
-- some is not, and no freed memory was touched.
pub record Counts (h : Heap) (total : ℕ → ℕ) : Type 0 where
  pub agree : (i : ℕ) → refs_of (h.buffers i) ≡ total i
  pub positive : (i : ℕ) → Positive (h.buffers i)
  pub fresh : (i : ℕ) → h.next ≤ i → h.buffers i ≡ none
  pub safe : h.violated ≡ false

pub Counts-same : (h : Heap) (t u : ℕ → ℕ) → ((i : ℕ) → t i ≡ u i) → Counts h t → Counts h u
Counts-same h t u e c = record {
  agree = λ i. c.agree i ∙ e i;
  positive = c.positive;
  fresh = c.fresh;
  safe = c.safe;
}

-- The references with those to one buffer changed.
abbrev pub with_refs : (ℕ → ℕ) → ℕ → ℕ → ℕ → ℕ
with_refs t id n i = if i == id then n else t i

-- A change at one address, which is not behind the last.
put-Counts :
    (h : Heap) (t : ℕ → ℕ) (id next : ℕ) (x : Option MediaBuffer) (freed : List Freed)
    → Counts h t
    → Positive x
    → id < next
    → h.next ≤ next
    → Counts
        (record {
          buffers = at_address h.buffers id x;
          next = next;
          freed = freed;
          violated = h.violated;
        })
        (with_refs t id (refs_of x))
put-Counts h t id next x freed c pos old grown = record {
  agree = λ i. elim (Bool-cases (i == id)) [ inl e ↦ rw e refl | inr e ↦ rw e (c.agree i) ];
  positive = λ i. elim (Bool-cases (i == id)) [ inl e ↦ rw e pos | inr e ↦ rw e (c.positive i) ];
  fresh =
      λ i far. let other : (i == id) ≡ false = ground arith in rw other (c.fresh i (omega arith));
  safe = c.safe;
}

-- A buffer that has references is there.
held_there :
    (h : Heap) (t : ℕ → ℕ) (id : ℕ)
    → Counts h t
    → 0 < t id
    → (b : MediaBuffer) × (h.buffers id ≡ some b) × (b.ref_count ≡ t id) × (id < h.next)
held_there h t id c held = elim (Option-cases (h.buffers id)) [
  | inl e ↦
      let nothing : 0 ≡ t id = rw e at (c.agree id) in
      let impossible : ⊥ = omega arith in elim impossible [ ]
  | inr (b, e) ↦ elim (Bool-cases (ltb id h.next)) [
    | inl near ↦ (b, e, rw e at (c.agree id), ground arith)
    | inr far ↦ let behind : h.next ≤ id = ground arith in cc (e, c.fresh id behind)
  ]
]

pub ref-Counts :
    (h : Heap) (t : ℕ → ℕ) (id : ℕ)
    → Counts h t
    → 0 < t id
    → Counts (media_buffer_ref h id) (with_refs t id (suc (t id)))
unfolding media_buffer_ref Positive
ref-Counts h t id c held =
    let (b, e, same, old) = held_there h t id c held in
    rw (media_buffer_ref, e, ← same)
      (put-Counts h t id h.next (some (record b { ref_count = suc b.ref_count })) h.freed c
        (omega arith) old (omega arith))

pub unref-Counts :
    (h : Heap) (t : ℕ → ℕ) (id : ℕ)
    → Counts h t
    → 0 < t id
    → Counts (media_buffer_unref h id) (with_refs t id (t id - 1))
unfolding media_buffer_unref Positive
unref-Counts h t id c held =
    let (b, e, same, old) = held_there h t id c held in
    elim (Bool-cases (leb b.ref_count 1)) [
      | inl last ↦
          let one : t id - 1 ≡ 0 = ground arith in
          rw (media_buffer_unref, e, last, one)
            (put-Counts h t id h.next none (h.freed ++ (_ ∷ [])) c tt old (omega arith))
      | inr more ↦
          let several : 0 < b.ref_count - 1 = ground arith in
          rw (media_buffer_unref, e, more, ← same)
            (put-Counts h t id h.next (some (record b { ref_count = b.ref_count - 1 })) h.freed c
              several old (omega arith))
    ]

-- A new buffer has one reference, and had none.
place-Counts :
    (h : Heap) (t : ℕ → ℕ) (b : MediaBuffer)
    → Counts h t
    → b.ref_count ≡ 1
    → Counts (place h b) (with_refs t h.next 1)
unfolding Positive
place-Counts h t b c one = rw (← one) (
    put-Counts h t h.next (suc h.next) (some b) h.freed c (omega arith) (omega arith) (omega arith))

-- What the making of a buffer comes to: the heap as it was and no buffer, or one more reference.
abbrev pub made : (ℕ → ℕ) → Option ℕ → ℕ → ℕ
made t none i = t i
made t (some id) i = t i + (if i == id then 1 else 0)

made_next :
    (h : Heap) (t : ℕ → ℕ) (b : MediaBuffer)
    → Counts h t
    → b.ref_count ≡ 1
    → Counts (place h b) (made t (some h.next))
made_next h t b c one =
    Counts-same (place h b) (with_refs t h.next 1) (made t (some h.next))
      (λ i. elim (Bool-cases (i == h.next)) [
        | inr e ↦ rw e (omega arith)
        | inl e ↦
            let behind : h.next ≤ i = ground arith in
            let none_yet : 0 ≡ t i = rw (c.fresh i behind) at (c.agree i) in rw e (omega arith)
      ])
      (place-Counts h t b c one)

pub create-Counts :
    (h : Heap) (t : ℕ → ℕ) (size : ℕ) (allocated : Bool) (data_at : Option ℕ)
    → Counts h t
    → let r = media_buffer_create h size allocated data_at in Counts r.0 (made t r.1)
unfolding media_buffer_create
create-Counts h t size allocated data_at c = elim (Bool-cases (size == 0 || not allocated)) [
  | inl e ↦ rw (media_buffer_create, e) c
  | inr e ↦ elim (Option-cases data_at) [
    | inl m ↦ rw (media_buffer_create, e, m) c
    | inr (address, m) ↦ rw (media_buffer_create, e, m) (made_next h t _ c refl)
  ]
]

pub create_with_data-Counts :
    (h : Heap) (t : ℕ → ℕ) (data_at : Option ℕ) (size : ℕ) (free_func : Option ℕ) (user_data : ℕ)
    (allocated : Bool)
    → Counts h t
    → let r = media_buffer_create_with_data h data_at size free_func user_data allocated in
      Counts r.0 (made t r.1)
unfolding media_buffer_create_with_data
create_with_data-Counts h t none size free_func user_data allocated c = c
create_with_data-Counts h t (some address) size free_func user_data allocated c =
    elim (Bool-cases (size == 0 || not allocated)) [
      | inl e ↦ rw (media_buffer_create_with_data, e) c
      | inr e ↦ rw (media_buffer_create_with_data, e) (made_next h t _ c refl)
    ]
