-- ===== src/Media/Packet/Sharing/Operations.antt =====
-- The operations of src/media/media_packet.c and the references to the buffers.
use ai_camera.Base.{
  ℕ, suc, ◌+◌, ◌≤◌, ◌<◌, ◌≡◌, refl, inl, inr, Bool, Option, none, some, arith, ◌==◌, ==_refl,
  Bool-cases,
}
use ai_camera.Media.Buffer.{Heap}
use ai_camera.Media.Buffer.Counts.{
  refs_of, Counts, Counts-same, made, create-Counts, create_with_data-Counts,
}
use ai_camera.Media.Packet.{
  Memory, MediaPacket, store, released, media_packet_init, media_packet_clear,
  media_packet_alloc_buffer, media_packet_set_data, media_packet_copy,
}
use ai_camera.Media.Packet.Sharing.{
  one, sharers-store, references, Sound, without, one-below, released-Counts, shared-Counts,
  made-one,
}

module _ (n : ℕ) (held : ℕ → ℕ) (m : Memory) (id : ℕ) (h : id < n) where
  buffer_there : (i : ℕ) → one (m.packets id).buffer i ≤ references n held m i
  buffer_there i = omega (arith, one-below n m.packets id i h)

  -- A packet that lets go of its buffer and takes another that was made.
  replaced-Sound :
      (p : MediaPacket) (heap : Heap) (t : ℕ → ℕ)
      → ((i : ℕ) → t i ≡ without (references n held m) (m.packets id).buffer i)
      → Counts heap (made t p.buffer)
      → Sound n held (record { heap = heap; packets = store m.packets id p })
  replaced-Sound p heap t e c =
      Counts-same heap (made t p.buffer)
        (references n held (record { heap = heap; packets = store m.packets id p }))
        (λ i.
          let stored = sharers-store n m.packets id p i h in
          let below = one-below n m.packets id i h in rw (made-one t p.buffer i, e i) (omega arith))
        c

  released-Sound :
      Sound n held m
      → Counts
          (released m.heap (m.packets id).buffer)
          (without (references n held m) (m.packets id).buffer)
  released-Sound c =
      released-Counts m.heap (references n held m) (m.packets id).buffer c buffer_there

  pub clear-Sound : Sound n held m → Sound n held (media_packet_clear m (some id))
  unfolding media_packet_clear
  clear-Sound c =
      replaced-Sound _ _ (without (references n held m) (m.packets id).buffer) (λ i. refl)
        (released-Sound c)

  pub alloc_buffer-Sound :
      (size : ℕ) (allocated : Bool) (data_at : Option ℕ)
      → Sound n held m
      → Sound n held (media_packet_alloc_buffer m (some id) size allocated data_at).0
  unfolding media_packet_alloc_buffer
  alloc_buffer-Sound size allocated data_at c = elim (Bool-cases (size == 0)) [
    | inl e ↦ rw (media_packet_alloc_buffer, e) c
    | inr e ↦
        rw (media_packet_alloc_buffer, e)
          (replaced-Sound _ _ (without (references n held m) (m.packets id).buffer) (λ i. refl)
            (create-Counts _ _ size allocated data_at (released-Sound c)))
  ]

  pub set_data-Sound :
      (data_at : Option ℕ) (size : ℕ) (free_func : Option ℕ) (user_data : ℕ) (allocated : Bool)
      → Sound n held m
      → Sound n held
          (media_packet_set_data m (some id) data_at size free_func user_data allocated).0
  unfolding media_packet_set_data
  set_data-Sound none size free_func user_data allocated c = c
  set_data-Sound (some address) size free_func user_data allocated c =
      elim (Bool-cases (size == 0)) [
        | inl e ↦ rw (media_packet_set_data, e) c
        | inr e ↦
            rw (media_packet_set_data, e)
              (replaced-Sound _ _ (without (references n held m) (m.packets id).buffer) (λ i. refl)
                (create_with_data-Counts _ _ (some address) size free_func user_data allocated
                  (released-Sound c)))
      ]

  pub init-Sound :
      (m.packets id).buffer ≡ none → Sound n held m → Sound n held (media_packet_init m (some id))
  unfolding media_packet_init
  init-Sound empty c = replaced-Sound _ m.heap (references n held m) (λ i. rw empty (omega arith)) c

  -- Onto a packet that has no buffer.
  pub copy-Sound :
      (src : ℕ)
      → src < n
      → (m.packets id).buffer ≡ none
      → Sound n held m
      → Sound n held (media_packet_copy m (some src) (some id)).0
  unfolding media_packet_copy
  copy-Sound src from empty c =
      let there : (i : ℕ) → one (m.packets src).buffer i ≤ references n held m i =
        λ i. omega (arith, one-below n m.packets src i from) in
      Counts-same _ (λ i. references n held m i + one (m.packets src).buffer i) _
        (λ i.
          let stored = sharers-store n m.packets id (m.packets src) i h in
          let nothing : one (m.packets id).buffer i ≡ 0 = rw empty refl in omega arith)
        (shared-Counts m.heap (references n held m) (m.packets src).buffer c there)

  -- A copy onto a packet that has a buffer, the copied packet itself included: the buffer is left with
  -- one count more than it has references, so that it is never freed.
  pub copy_leaks :
      (src b : ℕ)
      → src < n
      → (m.packets id).buffer ≡ some b
      → Sound n held m
      → let after = (media_packet_copy m (some src) (some id)).0 in
        refs_of (after.heap.buffers b) ≡ suc (references n held after b)
  unfolding media_packet_copy
  copy_leaks src b from full c =
      let there : (i : ℕ) → one (m.packets src).buffer i ≤ references n held m i =
        λ i. omega (arith, one-below n m.packets src i from) in
      let counted =
        (shared-Counts m.heap (references n held m) (m.packets src).buffer c there).agree b in
      let stored = sharers-store n m.packets id (m.packets src) b h in
      let lost : one (m.packets id).buffer b ≡ 1 = rw (full, ==_refl b) refl in omega arith
