-- ===== src/Ws/Session/Delivery.antt =====
-- A client's message, in one frame or in fragments, comes out of the loop as it went in.
use ai_camera.Base.{
  ℕ, suc, ◌+◌, ◌^◌, ◌≤◌, ◌<◌, ◌≡◌, refl, sym, ap, ◌∙◌, ◌≢◌, Bool, true, false, List, [], ◌∷◌, ◌++◌,
  arith, lt→ltb, length, take, drop, All, length-append, take-length, drop-length,
}
use mathlib.Core.List.{append_assoc, append-nil}
use ai_camera.Base.Bytes.{AreBytes}
use ai_camera.Ws.Types.{OpCode, text, binary, continuation, SessionOptions, is_control_frame}
use ai_camera.Ws.Frame.{Header, apply_mask}
use ai_camera.Ws.Frame.Masking.{apply_mask_twice, length-apply_mask}
use ai_camera.Ws.Frame.RoundTrip.{
  client_frame, client_header_size, drop-client_frame, length-client_frame, client_frame-ne-nil,
  parse_header-client_frame,
}
use ai_camera.Ws.Session.{
  Session, delivered, handled, payload_of, accumulated, on_header, frame_round, handle_frame,
  handle_data_frame, refresh_heartbeat, process_frames, absorb, start_message, continue_message,
  end_data_frame, deliver_message,
}

-- The fields that the parser finds in a client's frame.
abbrev client_header : Bool → OpCode → ℕ → List ℕ → Header
client_header fin op key payload = record {
  fin = fin;
  opcode = op;
  masked = true;
  header_len = client_header_size payload;
  payload_len = length payload;
  mask_key = key;
}

-- A payload that a client may send with a key.
pub record Sendable (key : ℕ) (payload : List ℕ) : Type 0 where
  pub are_bytes : AreBytes payload
  pub short : length payload < 2 ^ 32
  pub key_fits : key < 2 ^ 32

payload_of-client_frame :
    (fin : Bool) (op : OpCode) (key : ℕ) (payload rest : List ℕ)
    → AreBytes payload
    → payload_of (client_header fin op key payload) (client_frame fin op key payload ++ rest)
      ≡ payload
payload_of-client_frame fin op key [] rest h = refl
payload_of-client_frame fin op key (b ∷ bs) rest h =
    rw (drop-client_frame, lt→ltb 0 (suc (length bs)) (omega arith))
      (rw (masked_front (b ∷ bs) rest) (apply_mask_twice (b ∷ bs) key h).0)
  where
    masked_front : (p more : List ℕ) → take (length p) (apply_mask p key ++ more) ≡ apply_mask p key
    masked_front p more = rw length-apply_mask at (take-length (apply_mask p key) more)

-- A complete data frame within the limits is unmasked and handed to the handler.
frame_round-client_frame :
    (s : Session) (fin : Bool) (op : OpCode) (key : ℕ) (payload rest : List ℕ) (now : ℕ)
    → Sendable key payload
    → is_control_frame op ≡ false
    → accumulated s op + length payload ≤ s.options.max_message_bytes
    → client_header_size payload + length payload ≤ s.options.max_frame_buffer_bytes
    → frame_round s (client_frame fin op key payload ++ rest) now
      ≡ handled
          (handle_data_frame (refresh_heartbeat s now) op fin payload)
          (client_header_size payload + length payload)
unfolding frame_round on_header handle_frame
frame_round-client_frame s fin op key payload rest now k plain small fits =
    rw
      (
        parse_header-client_frame fin op key payload rest k.short k.key_fits,
        payload_of-client_frame fin op key payload rest k.are_bytes,
      )
      (ground (
        arith,
        length-client_frame fin op key payload,
        length-append (client_frame fin op key payload) rest,
      ))

-- The rest of the buffer behind such a frame.
rest_behind :
    (fin : Bool) (op : OpCode) (key : ℕ) (payload rest : List ℕ)
    → drop (client_header_size payload + length payload) (client_frame fin op key payload ++ rest)
      ≡ rest
rest_behind fin op key payload rest =
    ap (λ (n : ℕ). drop n (client_frame fin op key payload ++ rest))
      (sym (length-client_frame fin op key payload))
    ∙ drop-length (client_frame fin op key payload) rest

process_one :
    (fuel : ℕ) (s t : Session) (bs rest : List ℕ) (n now : ℕ)
    → bs ≢ []
    → frame_round s bs now ≡ handled t n
    → drop n bs ≡ rest
    → process_frames (suc fuel) s bs now ≡ process_frames fuel t rest now
process_one fuel s t [] rest n now h e d = absurd (h refl)
process_one fuel s t (b ∷ bs) rest n now h e d =
    unfold process_frames in
    rw (e, process_frames) (ap (λ (r : List ℕ). process_frames fuel t r now) d)

-- A fragment is a payload with the key that masks it.
abbrev pub Fragment : Type 0
Fragment = ℕ × List ℕ

abbrev pub message_of : List Fragment → List ℕ
message_of [] = []
message_of ((key, payload) ∷ fs) = payload ++ message_of fs

-- The frames of a message behind its first fragment.
unfoldable pub tail_frames : List Fragment → List ℕ
tail_frames [] = []
tail_frames ((key, payload) ∷ []) = client_frame true continuation key payload
tail_frames ((key, payload) ∷ f ∷ fs) =
    client_frame false continuation key payload ++ tail_frames (f ∷ fs)

is_last : List Fragment → Bool
is_last [] = true
is_last (f ∷ fs) = false

-- A message as a client sends it, in one or more fragments.
unfoldable pub message_frames : OpCode → Fragment → List Fragment → List ℕ
unfolding tail_frames is_last
message_frames op (key, payload) fs = client_frame (is_last fs) op key payload ++ tail_frames fs

-- What the limits ask of a fragment.
abbrev pub Fits : SessionOptions → Fragment → Type 0
Fits o (key, payload) =
    Sendable key payload × (client_header_size payload + length payload ≤ o.max_frame_buffer_bytes)

process_fragment :
    (fuel : ℕ) (s : Session) (fin : Bool) (op : OpCode) (f : Fragment) (rest : List ℕ) (now : ℕ)
    → Fits s.options f
    → is_control_frame op ≡ false
    → accumulated s op + length f.1 ≤ s.options.max_message_bytes
    → process_frames (suc fuel) s (client_frame fin op f.0 f.1 ++ rest) now
      ≡ process_frames fuel (handle_data_frame (refresh_heartbeat s now) op fin f.1) rest now
process_fragment fuel s fin op (key, payload) rest now h plain small =
    process_one fuel s _ _ rest _ now (client_frame-ne-nil fin op key payload rest)
      (frame_round-client_frame s fin op key payload rest now h.0 plain small h.1)
      (rest_behind fin op key payload rest)

-- One round for each fragment.
abbrev pub rounds : List Fragment → ℕ → ℕ
rounds [] fuel = fuel
rounds (f ∷ fs) fuel = suc (rounds fs fuel)

-- The session between two fragments, and the one that has delivered the message.
abbrev midway : Session → OpCode → List ℕ → ℕ → Session
midway s op acc now = record s {
  last_activity = now;
  awaiting_pong = false;
  msg_started = true;
  msg_opcode = op;
  msg_payload = acc;
}

abbrev pub after_delivery : Session → OpCode → List ℕ → ℕ → Session
after_delivery s op payload now = record s {
  last_activity = now;
  awaiting_pong = false;
  msg_started = false;
  msg_opcode = op;
  msg_payload = [];
  log = s.log ++ (delivered (record { opcode = op; payload = payload }) ∷ []);
}

-- The opcodes that start a message.
abbrev pub StartsMessage : OpCode → Type 0
StartsMessage text = Unit {0}
StartsMessage binary = Unit {0}
StartsMessage _ = ⊥

absorb_start :
    (op : OpCode) (s : Session) (p : List ℕ)
    → StartsMessage op
    → absorb s op p ≡ start_message s op p
unfolding absorb
absorb_start text s p h = refl
absorb_start binary s p h = refl
absorb_start _ s p h = absurd h

is_control_frame_start : (op : OpCode) → StartsMessage op → is_control_frame op ≡ false
is_control_frame_start text h = refl
is_control_frame_start binary h = refl
is_control_frame_start _ h = absurd h

accumulated_start : (op : OpCode) (s : Session) → StartsMessage op → accumulated s op ≡ 0
accumulated_start text s h = refl
accumulated_start binary s h = refl
accumulated_start _ s h = absurd h

module _ (s : Session) (op : OpCode) (now : ℕ) (listens : s.message_handler ≡ true) where
  -- A last fragment, and one that is not.
  last_fragment :
      (acc payload : List ℕ)
      → length acc + length payload ≤ s.options.max_message_bytes
      → handle_data_frame (midway s op acc now) continuation true payload
        ≡ after_delivery s op (acc ++ payload) now
  unfolding handle_data_frame absorb continue_message end_data_frame deliver_message
  last_fragment acc [] h = rw append-nil (ground arith)
  last_fragment acc (b ∷ bs) h = ground arith

  inner_fragment :
      (acc payload : List ℕ)
      → length acc + length payload ≤ s.options.max_message_bytes
      → handle_data_frame (midway s op acc now) continuation false payload
        ≡ midway s op (acc ++ payload) now
  unfolding handle_data_frame absorb continue_message end_data_frame
  inner_fragment acc [] h = rw append-nil (ground arith)
  inner_fragment acc (b ∷ bs) h = ground arith

  process_tail :
      (f : Fragment) (fs : List Fragment) (fuel : ℕ) (acc rest : List ℕ)
      → All (Fits s.options) (f ∷ fs)
      → length acc + length (message_of (f ∷ fs)) ≤ s.options.max_message_bytes
      → process_frames
          (rounds (f ∷ fs) fuel)
          (midway s op acc now)
          (tail_frames (f ∷ fs) ++ rest)
          now
        ≡ process_frames fuel (after_delivery s op (acc ++ message_of (f ∷ fs)) now) rest now
  unfolding tail_frames
  process_tail (key, payload) [] fuel acc rest h le =
      let small : length acc + length payload ≤ s.options.max_message_bytes =
        omega (arith, length-append payload []) in
      process_fragment fuel (midway s op acc now) true continuation (key, payload) rest now h.0 refl
        small
      ∙ ap (λ (t : Session). process_frames fuel t rest now)
          (rw append-nil (last_fragment acc payload small))
  process_tail (key, payload) (g ∷ gs) fuel acc rest h le =
      let size = length-append payload (message_of (g ∷ gs)) in
      let behind = tail_frames (g ∷ gs) ++ rest in
      let small : length acc + length payload ≤ s.options.max_message_bytes = omega arith in
      let small' : length (acc ++ payload) + length (message_of (g ∷ gs))
          ≤ s.options.max_message_bytes =
        omega (arith, length-append acc payload) in
      rw append_assoc (
        process_fragment (rounds (g ∷ gs) fuel) (midway s op acc now) false continuation
          (key, payload) behind now h.0 refl small)
      ∙ ap (λ (t : Session). process_frames (rounds (g ∷ gs) fuel) t behind now)
          (inner_fragment acc payload small)
      ∙ process_tail g gs fuel (acc ++ payload) rest h.1 small'
      ∙ ap (λ (m : List ℕ). process_frames fuel (after_delivery s op m now) rest now)
          (append_assoc acc payload (message_of (g ∷ gs)))

  -- The first frame, alone and with more to come.
  only_fragment :
      (payload : List ℕ)
      → StartsMessage op
      → s.msg_started ≡ false
      → length payload ≤ s.options.max_message_bytes
      → handle_data_frame (refresh_heartbeat s now) op true payload
        ≡ after_delivery s op payload now
  unfolding handle_data_frame start_message end_data_frame deliver_message
  only_fragment [] k e h = ground (arith, absorb_start op (refresh_heartbeat s now) [] k)
  only_fragment (b ∷ bs) k e h =
      ground (arith, absorb_start op (refresh_heartbeat s now) (b ∷ bs) k)

  first_fragment :
      (payload : List ℕ)
      → StartsMessage op
      → s.msg_started ≡ false
      → length payload ≤ s.options.max_message_bytes
      → handle_data_frame (refresh_heartbeat s now) op false payload ≡ midway s op payload now
  unfolding handle_data_frame start_message end_data_frame
  first_fragment [] k e h = ground (arith, absorb_start op (refresh_heartbeat s now) [] k)
  first_fragment (b ∷ bs) k e h =
      ground (arith, absorb_start op (refresh_heartbeat s now) (b ∷ bs) k)

  -- A text or binary message that a client sends in one or more masked fragments, each within the
  -- frame limit and all within the message limit, to a session that listens and is between messages:
  -- the loop reads the frames, calls the message handler once with the opcode and the unmasked
  -- payloads put together, and goes on behind them between messages, its heartbeat refreshed and
  -- nothing else changed.
  pub process_frames-message_frames :
      (f : Fragment) (fs : List Fragment) (fuel : ℕ) (rest : List ℕ)
      → StartsMessage op
      → s.msg_started ≡ false
      → All (Fits s.options) (f ∷ fs)
      → length (message_of (f ∷ fs)) ≤ s.options.max_message_bytes
      → process_frames (rounds (f ∷ fs) fuel) s (message_frames op f fs ++ rest) now
        ≡ process_frames fuel (after_delivery s op (message_of (f ∷ fs)) now) rest now
  unfolding message_frames
  process_frames-message_frames (key, payload) [] fuel rest k e h le =
      let small : length payload ≤ s.options.max_message_bytes =
        omega (arith, length-append payload []) in
      rw (append-nil, append-nil)
        (process_fragment fuel s true op (key, payload) rest now h.0 (is_control_frame_start op k)
            (omega (arith, accumulated_start op s k))
          ∙ ap (λ (t : Session). process_frames fuel t rest now) (only_fragment payload k e small))
  process_frames-message_frames (key, payload) (g ∷ gs) fuel rest k e h le =
      let size = length-append payload (message_of (g ∷ gs)) in
      let behind = tail_frames (g ∷ gs) ++ rest in
      let small : length payload ≤ s.options.max_message_bytes = omega arith in
      let front =
        process_fragment (rounds (g ∷ gs) fuel) s false op (key, payload) behind now h.0
          (is_control_frame_start op k) (omega (arith, accumulated_start op s k)) in
      rw append_assoc front
      ∙ ap (λ (t : Session). process_frames (rounds (g ∷ gs) fuel) t behind now)
          (first_fragment payload k e small)
      ∙ process_tail g gs fuel payload rest h.1 (omega arith)
