-- ===== src/Ws/Types.antt =====
-- Opcodes, close codes, messages and options of include/server/ws/ws_types.hpp.
use ai_camera.Base.{ℕ, List, Bool, leb, ◌==◌, ◌||◌, ◌≡◌, if◌then◌else◌, arith}

pub data OpCode : Type 0 where
  continuation text binary close ping pong : OpCode

-- `static_cast<uint8_t>(op)`.
abbrev pub code_of : OpCode → ℕ
code_of OpCode.continuation = 0x0
code_of OpCode.text = 0x1
code_of OpCode.binary = 0x2
code_of OpCode.close = 0x8
code_of OpCode.ping = 0x9
code_of OpCode.pong = 0xa

abbrev pub is_control_frame : OpCode → Bool
is_control_frame op = leb 0x8 (code_of op)

abbrev pub is_valid_op_code : ℕ → Bool
is_valid_op_code code =
    code == 0x0 || code == 0x1 || code == 0x2 || code == 0x8 || code == 0x9 || code == 0xa

pub data CloseCode : Type 0 where
  normal_closure going_away protocol_error unsupported_data : CloseCode
  no_status_received abnormal_closure invalid_frame_payload_data : CloseCode
  policy_violation message_too_big mandatory_extension internal_server_error : CloseCode
  -- A value that the peer sent and that no enumerator names.
  other : ℕ → CloseCode

-- `static_cast<uint16_t>(code)`.
abbrev pub status_of : CloseCode → ℕ
status_of CloseCode.normal_closure = 1000
status_of CloseCode.going_away = 1001
status_of CloseCode.protocol_error = 1002
status_of CloseCode.unsupported_data = 1003
status_of CloseCode.no_status_received = 1005
status_of CloseCode.abnormal_closure = 1006
status_of CloseCode.invalid_frame_payload_data = 1007
status_of CloseCode.policy_violation = 1008
status_of CloseCode.message_too_big = 1009
status_of CloseCode.mandatory_extension = 1010
status_of CloseCode.internal_server_error = 1011
status_of (CloseCode.other raw) = raw

pub record Message : Type 0 where
  pub opcode : OpCode
  pub payload : List ℕ

-- Sizes in bytes; the two durations in one unit of the steady clock.
pub record SessionOptions : Type 0 where
  pub max_handshake_bytes : ℕ
  pub max_frame_buffer_bytes : ℕ
  pub max_message_bytes : ℕ
  pub heartbeat_interval : ℕ
  pub heartbeat_timeout : ℕ

-- `static_cast<CloseCode>(raw)`.
unfoldable pub to_close_code : ℕ → CloseCode
to_close_code raw =
    if raw == 1000
    then CloseCode.normal_closure
    else if raw == 1001
    then CloseCode.going_away
    else if raw == 1002
    then CloseCode.protocol_error
    else if raw == 1003
    then CloseCode.unsupported_data
    else if raw == 1005
    then CloseCode.no_status_received
    else if raw == 1006
    then CloseCode.abnormal_closure
    else if raw == 1007
    then CloseCode.invalid_frame_payload_data
    else if raw == 1008
    then CloseCode.policy_violation
    else if raw == 1009
    then CloseCode.message_too_big
    else if raw == 1010
    then CloseCode.mandatory_extension
    else if raw == 1011
    then CloseCode.internal_server_error
    else CloseCode.other raw

pub status_of-to_close_code : (raw : ℕ) → status_of (to_close_code raw) ≡ raw
unfolding to_close_code
status_of-to_close_code raw = ground arith
