-- ===== src/Media/Runs.antt =====
-- The theorems on media packets at concrete inputs.
use ai_camera.Base.{ℕ, suc, ◌≡◌, refl, true, false, none, some, [], arith}
use ai_camera.Media.Buffer.{media_buffer_create}
use ai_camera.Media.Buffer.Counts.{refs_of, Positive}
use ai_camera.Media.Packet.{
  Memory, MediaPacket, no_metadata, no_v4l2, media_packet_copy, media_packet_alloc_buffer, released,
}
use ai_camera.Media.Packet.Sharing.{Sound, references, sharers}
use ai_camera.Media.Packet.Sharing.Operations.{copy_leaks}
use ai_camera.Media.Packet.Calls.{allocates, after_call, Allowed, Among, after_call-Sound}

abbrev blank : MediaPacket
blank = record { metadata = no_metadata; buffer = none; v4l2 = no_v4l2 }

-- Nothing allocated, and packets without buffers.
abbrev empty_memory : Memory
empty_memory = record {
  heap = record { buffers = λ i. none; next = 0; freed = []; violated = false };
  packets = λ i. blank;
}

abbrev nobody : ℕ → ℕ
nobody b = 0

empty_memory-Sound : Sound 2 nobody empty_memory
unfolding sharers Positive
empty_memory-Sound = record {
  agree = λ i. refl;
  positive = λ i. tt;
  fresh = λ i h. refl;
  safe = refl;
}

-- The second packet with a buffer.
abbrev one_buffer : Memory
one_buffer = after_call (allocates (some 1) 64 true (some 4096)) empty_memory

one_buffer-Sound : Sound 2 nobody one_buffer
unfolding Allowed Among
one_buffer-Sound =
    after_call-Sound 2 nobody (allocates (some 1) 64 true (some 4096)) empty_memory (omega arith)
      empty_memory-Sound

copy_leaks_example :
    let after = (media_packet_copy one_buffer (some 0) (some 1)).0 in
    refs_of (after.heap.buffers 0) ≡ suc (references 2 nobody after 0)
unfolding after_call media_packet_alloc_buffer media_buffer_create released
copy_leaks_example =
    copy_leaks 2 nobody one_buffer 1 (omega arith) 0 0 (omega arith) refl one_buffer-Sound
