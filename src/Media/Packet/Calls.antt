-- ===== src/Media/Packet/Calls.antt =====
-- Calls of src/media/media_packet.c, one after the other.
use ai_camera.Base.{ℕ, ◌<◌, ◌≡◌, Bool, Option, none, some}
use ai_camera.Media.Packet.{
  Memory, media_packet_init, media_packet_clear, media_packet_alloc_buffer, media_packet_set_data,
  media_packet_copy,
}
use ai_camera.Media.Packet.Sharing.{Sound}
use ai_camera.Media.Packet.Sharing.Operations.{
  clear-Sound, alloc_buffer-Sound, set_data-Sound, init-Sound, copy-Sound,
}

pub data Call : Type 0 where
  inits clears : Option ℕ → Call
  allocates : Option ℕ → ℕ → Bool → Option ℕ → Call
  sets_data : Option ℕ → Option ℕ → ℕ → Option ℕ → ℕ → Bool → Call
  copies : Option ℕ → Option ℕ → Call

unfoldable pub after_call : Call → Memory → Memory
after_call (inits p) m = media_packet_init m p
after_call (clears p) m = media_packet_clear m p
after_call (allocates p size allocated data_at) m =
    (media_packet_alloc_buffer m p size allocated data_at).0
after_call (sets_data p data_at size free_func user_data allocated) m =
    (media_packet_set_data m p data_at size free_func user_data allocated).0
after_call (copies src dst) m = (media_packet_copy m src dst).0

unfoldable pub Among : ℕ → Option ℕ → Type 0
Among n none = Unit
Among n (some id) = id < n

unfoldable pub Empty : Memory → Option ℕ → Type 0
Empty m none = Unit
Empty m (some id) = (m.packets id).buffer ≡ none

-- A call on the first packets; one that overwrites a packet's buffer is on a packet that has none.
unfoldable pub Allowed : ℕ → Call → Memory → Type 0
unfolding Among Empty
Allowed n (inits p) m = Among n p × Empty m p
Allowed n (clears p) m = Among n p
Allowed n (allocates p size allocated data_at) m = Among n p
Allowed n (sets_data p data_at size free_func user_data allocated) m = Among n p
Allowed n (copies src dst) m = Among n src × Among n dst × Empty m dst

pub after_call-Sound :
    (n : ℕ) (held : ℕ → ℕ) (call : Call) (m : Memory)
    → Allowed n call m
    → Sound n held m
    → Sound n held (after_call call m)
unfolding after_call Allowed Among Empty media_packet_init media_packet_clear
    media_packet_alloc_buffer media_packet_set_data media_packet_copy
after_call-Sound n held (inits none) m a c = c
after_call-Sound n held (inits (some id)) m (below, empty) c = init-Sound n held m id below empty c
after_call-Sound n held (clears none) m a c = c
after_call-Sound n held (clears (some id)) m below c = clear-Sound n held m id below c
after_call-Sound n held (allocates none size allocated data_at) m a c = c
after_call-Sound n held (allocates (some id) size allocated data_at) m below c =
    alloc_buffer-Sound n held m id below size allocated data_at c
after_call-Sound n held (sets_data none data_at size free_func user_data allocated) m a c = c
after_call-Sound n held (sets_data (some id) data_at size free_func user_data allocated) m below c =
    set_data-Sound n held m id below data_at size free_func user_data allocated c
after_call-Sound n held (copies none dst) m a c = c
after_call-Sound n held (copies (some src) none) m a c = c
after_call-Sound n held (copies (some src) (some id)) m (from, below, empty) c =
    copy-Sound n held m id below src from empty c
