-- ===== src/Media/Buffer.antt =====
-- Reference-counted buffers, src/media/media_buffer.c. The heap is a function of the address: `none`
-- is memory that is not allocated, or freed. `violated` says that such memory was read or written.
-- Whether `malloc` succeeds is an argument. A count is the number of pointers to a buffer and so is
-- far from the largest `int`.
pub mod Counts
use ai_camera.Base.{
  ℕ, zero, suc, ◌+◌, ◌-◌, ◌*◌, ◌/◌, ◌%◌, ◌^◌, ◌≤◌, ◌<◌, ◌≡◌, refl, sym, ap, ◌∙◌, ◌≢◌, ◌↔◌, ◌⊎◌, inl,
  inr, Bool, true, false, not, ◌&&◌, ◌||◌, Option, none, some, List, [], ◌∷◌, ◌++◌, map, arith,
  dec_lt, dec_le, ℕ_discrete, ltb, leb, ◌==◌, if◌then◌else◌, ltb→lt, lt→ltb, ltb_false→le,
  le→ltb_false, ==_iff, ==_refl, Bool-cases, Option-cases, codes, length, get_or, take, drop,
  replicate, All, length-append, length-take, length-drop, take-append-drop, take-length,
  drop-length, take-append_le, drop-append_le, get_or-append_left, All-append, All-take, All-drop,
}

pub record MediaBuffer : Type 0 where
  -- The address of the data.
  pub data_at : ℕ
  pub size : ℕ
  pub ref_count : ℕ
  -- The callback and its argument.
  pub free_func : Option ℕ
  pub user_data : ℕ

-- How the data of a buffer was given back.
pub data Freed : Type 0 where
  by_callback : ℕ → ℕ → ℕ → ℕ → Freed
  by_free : ℕ → Freed

pub record Heap : Type 0 where
  pub buffers : ℕ → Option MediaBuffer
  -- No buffer is at this address or behind it.
  pub next : ℕ
  pub freed : List Freed
  pub violated : Bool

abbrev pub at_address : (ℕ → Option MediaBuffer) → ℕ → Option MediaBuffer → ℕ → Option MediaBuffer
at_address buffers id b i = if i == id then b else buffers i

abbrev pub place : Heap → MediaBuffer → Heap
place h b = record h { buffers = at_address h.buffers h.next (some b); next = suc h.next }

-- `malloc` of the structure, then of the data, at `data_at`.
unfoldable pub media_buffer_create : Heap → ℕ → Bool → Option ℕ → Heap × Option ℕ
media_buffer_create h size allocated data_at =
    if size == 0 || not allocated then (h, none) else elim data_at [
      | none ↦ (h, none)
      | some address ↦ (
        place h (record {
          data_at = address;
          size = size;
          ref_count = 1;
          free_func = none;
          user_data = 0;
        }),
        some h.next,
      )
    ]

unfoldable pub media_buffer_create_with_data :
    Heap → Option ℕ → ℕ → Option ℕ → ℕ → Bool → Heap × Option ℕ
media_buffer_create_with_data h none size free_func user_data allocated = (h, none)
media_buffer_create_with_data h (some address) size free_func user_data allocated =
    if size == 0 || not allocated then (h, none) else (
      place h (record {
        data_at = address;
        size = size;
        ref_count = 1;
        free_func = free_func;
        user_data = user_data;
      }),
      some h.next,
    )

abbrev counted_at : Heap → ℕ → MediaBuffer → ℕ → Heap
counted_at h id b count = record h {
  buffers = at_address h.buffers id (some (record b { ref_count = count }));
}

unfoldable pub media_buffer_ref : Heap → ℕ → Heap
media_buffer_ref h id = elim (h.buffers id) [
  | none ↦ record h { violated = true }
  | some b ↦ counted_at h id b (suc b.ref_count)
]

abbrev given_back : MediaBuffer → Freed
given_back b = elim b.free_func [
  | none ↦ by_free b.data_at
  | some callback ↦ by_callback callback b.data_at b.size b.user_data
]

unfoldable pub media_buffer_unref : Heap → ℕ → Heap
media_buffer_unref h id = elim (h.buffers id) [
  | none ↦ record h { violated = true }
  | some b ↦
      if leb b.ref_count 1
      then record h {
        buffers = at_address h.buffers id none;
        freed = h.freed ++ (given_back b ∷ []);
      }
      else counted_at h id b (b.ref_count - 1)
]
