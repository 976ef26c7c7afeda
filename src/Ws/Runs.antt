-- ===== src/Ws/Runs.antt =====
-- The theorems on the WebSocket server at concrete inputs, and runs of its definitions.
use ai_camera.Base.{
  ℕ, ◌≡◌, refl, ◌≢◌, inr, Bool, true, false, none, List, [], ◌∷◌, ◌++◌, arith, if◌then◌else◌, codes,
  drop,
}
use ai_camera.Ws.Types.{text, SessionOptions, normal_closure, abnormal_closure}
use ai_camera.Ws.Frame.{
  Header, default_header, mask_from, apply_mask, encode_len, encode_server_frame, parse_header,
}
use ai_camera.Ws.Frame.RoundTrip.{client_frame, parse_header-encode_server_frame}
use ai_camera.Ws.Frame.Prefix.{parse_header-append}
use ai_camera.Ws.Session.{
  active, read_fails, Session, Input, runs_posted, write_ends, close_notified, removed, received,
  sends, process_frames, out_of_fuel, step, do_close,
}
use ai_camera.Ws.Session.Loop.{process_frame_buffer-ends}
use ai_camera.Ws.Session.Invariant.{WellFormed, step-WellFormed}
use ai_camera.Ws.Session.Steps.{Ordered, step-Ordered}
use ai_camera.Ws.Session.Delivery.{message_frames, after_delivery, process_frames-message_frames}
use ai_camera.Ws.Session.Closing.{closed_notified_again}

abbrev options : SessionOptions
options = record {
  max_handshake_bytes = 16384;
  max_frame_buffer_bytes = 2097152;
  max_message_bytes = 1048576;
  heartbeat_interval = 15;
  heartbeat_timeout = 45;
}

-- A session that has just been opened.
abbrev opened : Session
opened = record {
  state = active;
  options = options;
  message_handler = true;
  ping_handler = false;
  close_handler = true;
  has_server = true;
  frame_buf = [];
  msg_opcode = text;
  msg_payload = [];
  msg_started = false;
  send_queue = [];
  writing = false;
  last_activity = 100;
  awaiting_pong = false;
  posted = [];
  in_flight = none;
  reading = 1;
  timer = true;
  log = [];
  written = [];
}

opened-WellFormed : WellFormed opened
opened-WellFormed = record {
  one_write = refl;
  front = tt;
  one_read = omega arith;
  buffer = inr (omega arith);
  message = record { size = omega arith; between = refl };
}

key : ℕ
key = 0x01020304

hello : List ℕ
hello = codes "hello"

-- The masked frame of RFC 6455, section 5.7.
masked_hello :
    client_frame true text 0x37fa213d (codes "Hello")
    ≡ 0x81 ∷ 0x85 ∷ 0x37 ∷ 0xfa ∷ 0x21 ∷ 0x3d ∷ 0x7f ∷ 0x9f ∷ 0x4d ∷ 0x51 ∷ 0x58 ∷ []
unfolding client_frame encode_len apply_mask mask_from
masked_hello = refl

abbrev hello_header : Bool → ℕ → ℕ × Header
hello_header masked size = (
  size,
  record {
    fin = true;
    opcode = text;
    masked = masked;
    header_len = size;
    payload_len = 5;
    mask_key = (if masked then 0x01020304 else 0);
  },
)

parse_header-encode_server_frame_example :
    (parse_header (encode_server_frame true text hello ++ (1 ∷ [])) default_header
      ≡ hello_header false 2)
    × (drop 2 (encode_server_frame true text hello ++ (1 ∷ [])) ≡ hello ++ (1 ∷ []))
unfolding hello encode_len
parse_header-encode_server_frame_example =
    parse_header-encode_server_frame true text hello (1 ∷ []) (omega arith)

parse_header-append_example :
    parse_header ((0x91 ∷ 0x80 ∷ []) ++ (7 ∷ [])) default_header
    ≡ parse_header (0x91 ∷ 0x80 ∷ []) default_header
unfolding parse_header
parse_header-append_example =
    parse_header-append (0x91 ∷ 0x80 ∷ []) (7 ∷ []) default_header (omega arith) (inr refl)

process_frame_buffer-ends_example :
    process_frames 2 (record opened { frame_buf = 0x81 ∷ 0x80 ∷ [] }) (0x81 ∷ 0x80 ∷ []) 101
    ≢ out_of_fuel
process_frame_buffer-ends_example =
    process_frame_buffer-ends (record opened { frame_buf = 0x81 ∷ 0x80 ∷ [] }) 101

step-WellFormed_example : WellFormed (step opened (101, received (0x81 ∷ 0x80 ∷ [])))
step-WellFormed_example =
    step-WellFormed opened (101, received (0x81 ∷ 0x80 ∷ [])) opened-WellFormed

step-Ordered_example : Ordered opened (step opened (101, sends text (1 ∷ [])))
step-Ordered_example = step-Ordered opened (101, sends text (1 ∷ []))

-- "he" and "llo" in two fragments.
process_frames-message_frames_example :
    process_frames 2 opened
      (message_frames text (key, codes "he") ((5, codes "llo") ∷ []) ++ [])
      101
    ≡ process_frames 0 (after_delivery opened text (codes "hello") 101) [] 101
unfolding key encode_len
process_frames-message_frames_example =
    process_frames-message_frames opened text 101 refl (key, codes "he") ((5, codes "llo") ∷ []) 0
      [] tt refl
      (
        (
          record { are_bytes = omega arith; short = omega arith; key_fits = omega arith },
          omega arith,
        ),
        (
          (
            record { are_bytes = omega arith; short = omega arith; key_fits = omega arith },
            omega arith,
          ),
          tt,
        ),
      )
      (omega arith)

closed_notified_again_example :
    (step (do_close opened normal_closure) (101, read_fails)).log
    ≡ close_notified normal_closure ∷ removed ∷ close_notified abnormal_closure ∷ removed ∷ []
closed_notified_again_example = closed_notified_again opened normal_closure 101 (omega arith)

abbrev ping_goes_out : List (ℕ × Input)
ping_goes_out = (116, runs_posted) ∷ (117, write_ends false) ∷ []
