-- ===== src/Ws/Session.antt =====
-- A WebSocket session after its handshake: src/server/ws/ws_session.cpp. A handler of the source
-- is a function from the session to the session, and runs as one step. What the session asks of
-- asio is part of its state: `posted` are the closures that `EnqueueFrame` has posted to the
-- strand, `in_flight` is the `async_write` under way with the flag that its handler captured,
-- `reading` counts the reads under way, and `timer` says that the heartbeat timer is armed. `log`
-- holds the calls of the user's handlers and of the server, and `written` the items whose write
-- has ended. `now` is the steady clock's reading during the step. Handlers that call back into
-- the session are not modelled.
pub mod Handlers
pub mod Loop
pub mod Delivery
pub mod Waiting
pub mod Closing
pub mod Order
pub mod Steps
pub mod Invariant
use ai_camera.Base.{
  ℕ, zero, suc, ◌+◌, ◌-◌, ◌*◌, List, [], ◌∷◌, ◌++◌, Bool, true, false, not, ◌&&◌, ◌||◌, Option,
  none, some, ltb, leb, ◌==◌, if◌then◌else◌, length, get_or, take, drop, codes,
}
use ai_camera.Base.Bytes.{shr, to_u8}
use ai_camera.Ws.Types.{
  OpCode, continuation, text, binary, close, ping, pong, CloseCode, normal_closure, protocol_error,
  no_status_received, abnormal_closure, message_too_big, Message, SessionOptions, status_of,
  to_close_code, is_control_frame,
}
use ai_camera.Ws.Frame.{
  Header, default_header, uint64_max, frame_total_size, parse_header, apply_mask,
  encode_server_frame,
}

pub data State : Type 0 where
  handshaking active closing closed : State

abbrev pub is_active : State → Bool
is_active State.active = true
is_active _ = false

abbrev pub is_closed : State → Bool
is_closed State.closed = true
is_closed _ = false

abbrev pub is_closing : State → Bool
is_closing State.closing = true
is_closing _ = false

pub record OutgoingItem : Type 0 where
  pub bytes : List ℕ
  pub is_close : Bool

pub data Event : Type 0 where
  delivered : Message → Event
  pinged : List ℕ → Event
  close_notified : CloseCode → Event
  removed : Event

pub record Session : Type 0 where
  pub state : State
  pub options : SessionOptions
  pub message_handler : Bool
  pub ping_handler : Bool
  pub close_handler : Bool
  pub has_server : Bool
  pub frame_buf : List ℕ
  pub msg_opcode : OpCode
  pub msg_payload : List ℕ
  pub msg_started : Bool
  pub send_queue : List OutgoingItem
  pub writing : Bool
  pub last_activity : ℕ
  pub awaiting_pong : Bool
  pub posted : List OutgoingItem
  pub in_flight : Option Bool
  pub reading : ℕ
  pub timer : Bool
  pub log : List Event
  pub written : List OutgoingItem

-- `DoClose` behind the exchange of the state.
abbrev pub close_down : Session → CloseCode → Session
close_down s code = record s {
  state = State.closed;
  timer = false;
  log =
      s.log
      ++ ((if s.close_handler then close_notified code ∷ [] else [])
          ++ (if s.has_server then removed ∷ [] else []));
}

-- `compare_exchange_strong` succeeds on a session that is closed, and skips the block. In the block
-- `old` is the state that it has just read, since no other thread changes it in between.
unfoldable pub do_close : Session → CloseCode → Session
do_close s code =
    let expected = is_closed s.state in
    let old = s.state in
    if not expected then (if is_closed old then s else close_down s code) else close_down s code

abbrev pub enqueue_frame : Session → OutgoingItem → Session
enqueue_frame s item = record s { posted = s.posted ++ (item ∷ []) }

abbrev pub status_bytes : CloseCode → List ℕ
status_bytes code = to_u8 (shr (status_of code) 8) ∷ to_u8 (status_of code) ∷ []

unfoldable pub close_session : Session → CloseCode → List ℕ → Session
close_session s code reason =
    if not (is_active s.state)
    then s
    else enqueue_frame (record s { state = State.closing })
        (record {
          bytes = encode_server_frame true OpCode.close (status_bytes code ++ reason);
          is_close = true;
        })

unfoldable pub send_frame : Session → OpCode → List ℕ → Session
send_frame s op payload =
    enqueue_frame s (record { bytes = encode_server_frame true op payload; is_close = false })

abbrev pub send_text : Session → List ℕ → Session
send_text s payload = send_frame s OpCode.text payload

abbrev pub send_binary : Session → List ℕ → Session
send_binary s payload = send_frame s OpCode.binary payload

abbrev pub send_ping : Session → List ℕ → Session
send_ping s payload = send_frame s OpCode.ping payload

abbrev pub refresh_heartbeat : Session → ℕ → Session
refresh_heartbeat s now = record s { last_activity = now; awaiting_pong = false }

abbrev pub do_read_frame : Session → Session
do_read_frame s = record s { reading = suc s.reading }

-- The status code of a received close frame.
abbrev pub received_code : List ℕ → CloseCode
received_code payload =
    if leb 2 (length payload)
    then to_close_code (get_or payload 0 0 * 256 + get_or payload 1 0)
    else no_status_received

unfoldable pub handle_control_frame : Session → OpCode → List ℕ → Session
handle_control_frame s OpCode.close payload =
    if is_active s.state
    then enqueue_frame (record s { state = State.closing })
        (record {
          bytes = encode_server_frame true OpCode.close (status_bytes (received_code payload));
          is_close = true;
        })
    else s
handle_control_frame s OpCode.ping payload =
    let s1 = (if s.ping_handler then record s { log = s.log ++ (pinged payload ∷ []) } else s) in
    enqueue_frame s1
      (record { bytes = encode_server_frame true OpCode.pong payload; is_close = false })
handle_control_frame s op payload = s

-- Where a handler stands after its first part: it has returned, or it goes on.
pub data Flow : Type 0 where
  returned goes_on : Session → Flow

unfoldable pub deliver_message : Session → Session
deliver_message s = if not s.message_handler then s else record s {
  msg_payload = [];
  log = s.log ++ (delivered (record { opcode = s.msg_opcode; payload = s.msg_payload }) ∷ []);
}

abbrev pub too_large : List ℕ
too_large = codes "message too large"

unfoldable pub start_message : Session → OpCode → List ℕ → Flow
start_message s op payload =
    if s.msg_started
    then returned (do_close s protocol_error)
    else (let s1 = record s { msg_started = true; msg_opcode = op; msg_payload = [] } in
        if ltb 0 (length payload)
        then (if ltb s.options.max_message_bytes (length payload)
            then returned (close_session s1 message_too_big too_large)
            else goes_on (record s1 { msg_payload = payload }))
        else goes_on s1)

unfoldable pub continue_message : Session → List ℕ → Flow
continue_message s payload =
    if not s.msg_started
    then returned (do_close s protocol_error)
    else if ltb 0 (length payload)
    then (if ltb s.options.max_message_bytes (length s.msg_payload + length payload)
        then returned (close_session s message_too_big too_large)
        else goes_on (record s { msg_payload = s.msg_payload ++ payload }))
    else goes_on s

unfoldable pub absorb : Session → OpCode → List ℕ → Flow
absorb s OpCode.text payload = start_message s OpCode.text payload
absorb s OpCode.binary payload = start_message s OpCode.binary payload
absorb s OpCode.continuation payload = continue_message s payload
absorb s op payload = returned (do_close s protocol_error)

unfoldable pub end_data_frame : Bool → Flow → Session
end_data_frame fin (returned s) = s
end_data_frame fin (goes_on s) =
    if fin then record (deliver_message s) { msg_started = false; msg_payload = [] } else s

unfoldable pub handle_data_frame : Session → OpCode → Bool → List ℕ → Session
handle_data_frame s op fin payload = end_data_frame fin (absorb s op payload)

-- One round of the loop of `ProcessFrameBuffer`: the handler returns, it waits for more bytes, or
-- it has handled a frame of so many bytes.
pub data Round : Type 0 where
  ended : Session → Round
  waits : Session → Round
  handled : Session → ℕ → Round

-- Step 4, on a complete frame; `payload` is unmasked.
unfoldable pub handle_frame : Session → Header → List ℕ → Round
handle_frame s hdr payload =
    if is_control_frame hdr.opcode
    then (if not hdr.fin || ltb 125 hdr.payload_len
        then ended (do_close s protocol_error)
        else (let s' = handle_control_frame s hdr.opcode payload in
            if is_closed s'.state then ended s' else handled s' (frame_total_size hdr)))
    else handled (handle_data_frame s hdr.opcode hdr.fin payload) (frame_total_size hdr)

-- The masked payload behind the header; the header is a masked one here.
abbrev pub payload_of : Header → List ℕ → List ℕ
payload_of hdr bytes =
    if ltb 0 hdr.payload_len
    then apply_mask (take hdr.payload_len (drop hdr.header_len bytes)) hdr.mask_key
    else []

abbrev pub accumulated : Session → OpCode → ℕ
accumulated s OpCode.continuation = length s.msg_payload
accumulated s _ = 0

unfoldable pub on_header : Session → List ℕ → ℕ → ℕ × Header → Round
on_header s bytes now (header_len, hdr) =
    if hdr.payload_len == uint64_max
    then ended (do_close s protocol_error)
    else if header_len == 0
    then waits s
    else if not hdr.masked
    then ended (do_close s protocol_error)
    else if not (is_control_frame hdr.opcode)
        && ltb s.options.max_message_bytes (accumulated s hdr.opcode + hdr.payload_len)
    then ended (close_session s message_too_big too_large)
    else if ltb s.options.max_frame_buffer_bytes (frame_total_size hdr)
    then ended (close_session s message_too_big (codes "frame too large"))
    else if ltb (length bytes) (frame_total_size hdr)
    then waits s
    else handle_frame (refresh_heartbeat s now) hdr (payload_of hdr bytes)

unfoldable pub frame_round : Session → List ℕ → ℕ → Round
frame_round s bytes now = on_header s bytes now (parse_header bytes default_header)

-- How the loop ends: by a return, or by a break with the bytes that are left.
pub data Outcome : Type 0 where
  out_of_fuel : Outcome
  returns : Session → Outcome
  breaks : Session → List ℕ → Outcome

-- `bytes` is the buffer from `offset` on.
unfoldable pub process_frames : ℕ → Session → List ℕ → ℕ → Outcome
process_frames fuel s [] now = breaks s []
process_frames zero s (b ∷ bs) now = out_of_fuel
process_frames (suc fuel) s (b ∷ bs) now = elim (frame_round s (b ∷ bs) now) [
  | ended s' ↦ returns s'
  | waits s' ↦ breaks s' (b ∷ bs)
  | handled s' n ↦ process_frames fuel s' (drop n (b ∷ bs)) now
]

unfoldable pub end_processing : Session → Outcome → Session
end_processing s out_of_fuel = s
end_processing s (returns s') = s'
end_processing s (breaks s' rest) =
    let s2 = record s' { frame_buf = rest } in
    if not (is_closed s'.state) && not (is_closing s'.state) then do_read_frame s2 else s2

-- Each round takes two bytes at least, so the buffer's length is fuel enough.
unfoldable pub process_frame_buffer : Session → ℕ → Session
process_frame_buffer s now =
    end_processing s (process_frames (length s.frame_buf) s s.frame_buf now)

-- `OnFrameData` with no error.
unfoldable pub on_frame_data : Session → List ℕ → ℕ → Session
on_frame_data s bytes now =
    let s1 = record s { frame_buf = s.frame_buf ++ bytes } in
    if ltb s.options.max_frame_buffer_bytes (length (s.frame_buf ++ bytes))
    then close_session s1 message_too_big (codes "frame buffer too large")
    else process_frame_buffer s1 now

-- `DoWrite` on a send queue.
unfoldable pub do_write : Session → List OutgoingItem → Session
do_write s [] = record s { writing = false }
do_write s (item ∷ items) = record s { writing = true; in_flight = some item.is_close }

-- The closure that `EnqueueFrame` posts.
unfoldable pub run_posted : Session → List OutgoingItem → Session
run_posted s [] = s
run_posted s (item ∷ items) =
    let queue = s.send_queue ++ (item ∷ []) in
    let s1 = record s { posted = items; send_queue = queue } in
    if leb (length s.send_queue) 0 && not s.writing then do_write s1 queue else s1

-- The handler of `async_write`, behind `send_queue_.pop()`; `ec` says that the write failed.
unfoldable pub after_write : Session → Bool → Bool → Session
after_write s is_close ec =
    if ec
    then do_close (record s { writing = false }) abnormal_closure
    else if is_close
    then do_close (record s { writing = false }) normal_closure
    else if not (leb (length s.send_queue) 0)
    then do_write s s.send_queue
    else record s { writing = false }

unfoldable pub on_written : Session → List OutgoingItem → Bool → Bool → Session
on_written s [] is_close ec = s
on_written s (item ∷ items) is_close ec =
    after_write
      (record s { send_queue = items; in_flight = none; written = s.written ++ (item ∷ []) })
      is_close ec

-- The timer has run out, with no error.
unfoldable pub on_heartbeat_timer : Session → ℕ → Session
on_heartbeat_timer s now =
    if not (is_active s.state)
    then s
    else (let idle = now - s.last_activity in
        if s.awaiting_pong
        then (if leb s.options.heartbeat_timeout idle
            then do_close s abnormal_closure
            else record s { timer = true })
        else if leb s.options.heartbeat_interval idle
        then record (send_ping (record s { awaiting_pong = true }) []) { timer = true }
        else record s { timer = true })

pub data Input : Type 0 where
  received : List ℕ → Input
  read_fails : Input
  runs_posted : Input
  write_ends : Bool → Input
  timer_fires : Input
  sends : OpCode → List ℕ → Input
  closes : CloseCode → List ℕ → Input

on_read : Session → ℕ → (Session → Session) → Session
on_read s zero k = s
on_read s (suc n) k = k (record s { reading = n })

on_write_end : Session → Option Bool → Bool → Session
on_write_end s none ec = s
on_write_end s (some is_close) ec = on_written s s.send_queue is_close ec

-- An input that nothing waits for changes nothing.
unfoldable pub step : Session → ℕ × Input → Session
unfolding on_read on_write_end
step s (now, received bytes) = on_read s s.reading (λ s'. on_frame_data s' bytes now)
step s (now, read_fails) = on_read s s.reading (λ s'. do_close s' abnormal_closure)
step s (now, runs_posted) = run_posted s s.posted
step s (now, write_ends ec) = on_write_end s s.in_flight ec
step s (now, timer_fires) =
    if s.timer then on_heartbeat_timer (record s { timer = false }) now else s
step s (now, sends op payload) = send_frame s op payload
step s (now, closes code reason) = close_session s code reason

unfoldable pub run : Session → List (ℕ × Input) → Session
run s [] = s
run s (i ∷ is) = run (step s i) is
