-- ===== src/Sip/Types.antt =====
-- SIP messages, include/ai-camera/gb28181/sip_message.h. The header fields are a `std::map`.
use ai_camera.Base.{ℕ, List, []}

pub data MessageType : Type 0 where
  request response : MessageType

pub data SipMethod : Type 0 where
  unknown register invite ack bye cancel message options subscribe notify : SipMethod

pub record SipMessage : Type 0 where
  pub type : MessageType
  pub method : SipMethod
  pub request_uri : List ℕ
  pub status_code : ℕ
  pub reason_phrase : List ℕ
  pub headers : List (List ℕ × List ℕ)
  pub body : List ℕ

-- `SipRequest` and `SipResponse`, with the other fields as the class declares them.
abbrev pub sip_request : SipMethod → List ℕ → SipMessage
sip_request method uri = record {
  type = request;
  method = method;
  request_uri = uri;
  status_code = 0;
  reason_phrase = [];
  headers = [];
  body = [];
}

abbrev pub sip_response : ℕ → List ℕ → SipMessage
sip_response code reason = record {
  type = response;
  method = unknown;
  request_uri = [];
  status_code = code;
  reason_phrase = reason;
  headers = [];
  body = [];
}
