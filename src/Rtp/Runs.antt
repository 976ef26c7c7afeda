-- ===== src/Rtp/Runs.antt =====
-- The theorems on RTP at concrete inputs, and runs of its definitions.
use ai_camera.Base.{
  ℕ, ◌+◌, ◌%◌, ◌^◌, ◌≡◌, refl, ◌≢◌, true, false, none, some, List, [], ◌∷◌, ◌++◌, map, arith,
  replicate,
}
use ai_camera.Rtp.MediaSession.{MediaSession, Store, new_media_session, dispatch_to_clients}
use ai_camera.Rtp.MediaSession.FanOut.{given_alive, dispatch_to_clients-given}
use ai_camera.Rtp.Packet.{RtpPacket, MediaChannelInfo, packet_capacity, tcp_info, rtp_over_tcp}
use ai_camera.Rtp.H264.Reassembly.{Delivers, sent, handle_frame-Delivers}
use ai_camera.Rtp.Transport.{Transport, new_channel, start, stop, set_playing, stop_event_loop}
use ai_camera.Rtp.Transport.Headers.{header_of, numbered, send_all, send_all-numbered}
use ai_camera.Rtp.Transport.Loop.{
  playing_set, serve, AllAgree, serve-AllAgree, stopped_loop_not_restarted,
}
use ai_camera.Rtp.Sender.{udp_bytes, multicast_bytes}
use ai_camera.Rtp.Sender.Multicast.{in_buffer, multicast_bytes-udp_bytes}
use ai_camera.Rtp.RawSource.{
  NalData, RawSource, read_next_frame, read_units, extract_nal_units, nal_bytes, start_code_size,
}
use ai_camera.Rtp.RawSource.Frames.{OneSlice, InOrder, next_units, read_next_frame-OneSlice}
use ai_camera.Rtp.RawSource.Streams.{extract_nal_units-ends}
use ai_camera.Rtp.Interleaved.{Channels, process_interleaved_data, rtp_data}
use ai_camera.Rtp.Interleaved.Delivery.{
  rtp_bytes, stream, joined, process_interleaved_data-stream, process_interleaved_data-ends,
}

-- A buffer of zeros.
abbrev fresh : List ℕ
fresh = replicate packet_capacity 0

handle_frame-Delivers_example :
    Delivers
      (0x65 ∷ replicate 2000 7)
      (sent fresh 9 (record { buffer = 0x65 ∷ replicate 2000 7; kind = 1; timestamp = 0 }))
handle_frame-Delivers_example =
    handle_frame-Delivers fresh 9 0x65 (replicate 2000 7) 1 0 refl (omega arith) (omega arith)

abbrev info : MediaChannelInfo
info = record {
  rtp_header = record { payload = 96; seq = 65535; ssrc = 0x12345678 };
  clock_rate = 90000;
  packet_count = 0;
  octet_count = 0;
  is_setup = true;
  is_playing = false;
  transport_info = tcp_info 0 1;
  transport_mode = rtp_over_tcp;
}

abbrev transport : Transport
transport = record {
  has_sender = true;
  is_multicast = false;
  is_closed = false;
  channels = λ i. new_channel info;
  handed = [];
}

abbrev packet : ℕ → RtpPacket
packet timestamp = record { bytes = fresh; size = 20; timestamp = timestamp; kind = 1; last = 1 }

send_all-numbered_example :
    (map header_of (send_all 0 transport (packet 5 ∷ packet 6 ∷ [])).handed
      ≡ []
        ++ numbered
            (record { payload = 96; seq = 65535; ssrc = 0x12345678 })
            (packet 5 ∷ packet 6 ∷ []))
    × (((send_all 0 transport (packet 5 ∷ packet 6 ∷ [])).channels 0).info.packet_count
        ≡ (0 + 2) % 2 ^ 64)
send_all-numbered_example =
    send_all-numbered 0 transport (packet 5 ∷ packet 6 ∷ []) refl refl
      (record {
        payload_type_fits = omega arith;
        sequence_fits = omega arith;
        source_fits = omega arith;
      })
      (omega arith) ((refl, omega arith), ((refl, omega arith), tt))

agreed : AllAgree transport
agreed = record {
  channel_agrees =
      λ i. (record { waits = refl; no_stray_loop = refl; rate_positive = omega arith });
}

serve-AllAgree_example : AllAgree (serve (playing_set 1 true) transport)
serve-AllAgree_example = serve-AllAgree (playing_set 1 true) transport agreed

-- A transport whose channels play.
abbrev streaming : Transport
streaming = record transport {
  channels = λ i. (record (new_channel info) {
    info = record info { is_playing = true };
    is_loop_running = true;
    timer = true;
  });
}

stopped_loop_not_restarted_example :
    (set_playing (start (stop streaming)) 0 true ≡ start (stop streaming))
    × ((start (stop streaming)).channels 0 ≡ stop_event_loop (streaming.channels 0))
    × (((start (stop streaming)).channels 0).info.is_playing ≡ true)
stopped_loop_not_restarted_example = stopped_loop_not_restarted streaming 0 (omega arith) refl refl

multicast_bytes-udp_bytes_example :
    (udp_bytes (in_buffer 0 0 0 0 (128 ∷ 96 ∷ 0 ∷ 1 ∷ 7 ∷ []) [] 5 1 1)
      ≡ some (128 ∷ 96 ∷ 0 ∷ 1 ∷ 7 ∷ []))
    × (multicast_bytes (in_buffer 0 0 0 0 (128 ∷ 96 ∷ 0 ∷ 1 ∷ 7 ∷ []) [] 5 1 1)
        ≡ some (0 ∷ 0 ∷ 0 ∷ 0 ∷ 128 ∷ []))
multicast_bytes-udp_bytes_example =
    multicast_bytes-udp_bytes 0 0 0 0 (128 ∷ 96 ∷ 0 ∷ 1 ∷ 7 ∷ []) [] 5 1 1 (omega arith)
      (omega arith)

abbrev channels : Channels
channels = record { rtp_channel = 0; rtcp_channel = 1 }

process_interleaved_data-stream_example :
    (stream 0 (packet 5 ∷ []) ≡ some (joined 0 (packet 5 ∷ [])))
    × (process_interleaved_data (1 + 1) channels (joined 0 (packet 5 ∷ []) ++ [])
        ≡ some (rtp_data (rtp_bytes (packet 5)) ∷ [], []))
process_interleaved_data-stream_example =
    process_interleaved_data-stream 1 channels (packet 5 ∷ []) [] [] [] (omega arith) (omega arith)
      (record { not_empty = omega arith; in_buffer = omega arith; in_field = omega arith }, tt)
      (unfold process_interleaved_data in refl)

process_interleaved_data-ends_example :
    process_interleaved_data 4 channels (b'$' ∷ 0 ∷ 0 ∷ []) ≢ none
process_interleaved_data-ends_example =
    process_interleaved_data-ends 4 channels (b'$' ∷ 0 ∷ 0 ∷ []) (omega arith)

abbrev nal : ℕ → NalData
nal b = record { bytes = b ∷ []; nal_type = b % 32 }

abbrev raw_source : RawSource
raw_source = record {
  cached_nals = nal 7 ∷ nal 5 ∷ nal 1 ∷ [];
  sps = 7 ∷ [];
  pps = [];
  nal_index = 0;
  is_opened = true;
  eof_reached = false;
}

read_next_frame-OneSlice_example :
    (read_next_frame raw_source ≡ (
      record raw_source { nal_index = (next_units raw_source).1 },
      some (next_units raw_source).0,
    ))
    × OneSlice (next_units raw_source).0 0 (next_units raw_source).1 3
    × InOrder (next_units raw_source).0 raw_source.cached_nals 0 (next_units raw_source).1
read_next_frame-OneSlice_example = read_next_frame-OneSlice raw_source refl refl (omega arith)

extract_nal_units-ends_example : extract_nal_units 5 (0 ∷ 0 ∷ 1 ∷ 7 ∷ 8 ∷ []) ≢ none
extract_nal_units-ends_example = extract_nal_units-ends 5 (0 ∷ 0 ∷ 1 ∷ 7 ∷ 8 ∷ []) (omega arith)

frame_run : (read_next_frame raw_source).0.nal_index ≡ 2
unfolding read_next_frame read_units
frame_run = refl

extract_run :
    extract_nal_units 11 (9 ∷ 0 ∷ 0 ∷ 0 ∷ 1 ∷ 7 ∷ 8 ∷ 0 ∷ 0 ∷ 1 ∷ 5 ∷ [])
    ≡ some (record { bytes = 7 ∷ 8 ∷ []; nal_type = 7 } ∷ nal 5 ∷ [])
unfolding extract_nal_units nal_bytes start_code_size
extract_run = refl

-- Two clients, of which the second is not active.
abbrev two_clients : MediaSession
two_clients = record (new_media_session 0) {
  clients =
      (4, record { client = 0; is_active = true })
      ∷ (5, record { client = 1; is_active = false })
      ∷ [];
}

abbrev nal_packet : RtpPacket
nal_packet = record { bytes = replicate 20 1; size = 20; timestamp = 3; kind = 1; last = 1 }

abbrev alive : Store
alive i = some transport

dispatch_to_clients-given_example :
    dispatch_to_clients (λ i. true) (λ h. fresh) two_clients 0 nal_packet alive 0
    ≡ given_alive (λ i. true) (λ h. fresh) 0 nal_packet 0 two_clients.clients (some transport)
dispatch_to_clients-given_example =
    dispatch_to_clients-given (λ i. true) (λ h. fresh) two_clients 0 nal_packet alive 0 refl
