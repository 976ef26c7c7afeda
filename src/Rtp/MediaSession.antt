-- ===== src/Rtp/MediaSession.antt =====
-- `AsioMediaSession`, src/rtp/mediasession.cpp: the sources and the clients of one stream. A client is
-- the number of a transport in a store of those that are alive, since the session keeps weak pointers;
-- sockets are known by their handles. `AddClient` leaves `is_active` unset: what the memory holds is an
-- argument. Callbacks are told of clients in a log.
pub mod FanOut
use ai_camera.Base.{
  ℕ, zero, suc, ◌+◌, ◌-◌, ◌*◌, ◌/◌, ◌%◌, ◌^◌, ◌≤◌, ◌<◌, ◌≡◌, refl, sym, ap, ◌∙◌, ◌≢◌, ◌↔◌, ◌⊎◌, inl,
  inr, Bool, true, false, not, ◌&&◌, ◌||◌, Option, none, some, List, [], ◌∷◌, ◌++◌, map, arith,
  dec_lt, dec_le, ℕ_discrete, ltb, leb, ◌==◌, if◌then◌else◌, ltb→lt, lt→ltb, ltb_false→le,
  le→ltb_false, ==_iff, ==_refl, Bool-cases, Option-cases, codes, length, get_or, take, drop,
  replicate, All, length-append, length-take, length-drop, take-append-drop, take-length,
  drop-length, take-append_le, drop-append_le, get_or-append_left, All-append, All-take, All-drop,
}
use ai_camera.Rtp.Packet.{RtpPacket, new_packet, write_at, max_media_channel}
use ai_camera.Rtp.Transport.{Transport, send_rtp_packet}

pub record ClientInfo : Type 0 where
  pub client : ℕ
  pub is_active : Bool

pub data Notice : Type 0 where
  connected disconnected : ℕ → Notice

pub record MediaSession : Type 0 where
  pub session_id : ℕ
  -- Of each channel.
  pub media_sources : ℕ → Option ℕ
  -- By handle, in order.
  pub clients : List (ℕ × ClientInfo)
  pub connect_callbacks : ℕ
  pub disconnect_callbacks : ℕ
  pub notices : List Notice
  pub multicast_ip : List ℕ
  pub multicast_port : ℕ → ℕ
  pub is_multicast_started : Bool
  pub has_new_client : Bool

-- The constructor, with the count of sessions so far.
abbrev pub new_media_session : ℕ → MediaSession
new_media_session last_session_id = record {
  session_id = (last_session_id + 1) % 2 ^ 32;
  media_sources = λ i. none;
  clients = [];
  connect_callbacks = 0;
  disconnect_callbacks = 0;
  notices = [];
  multicast_ip = [];
  multicast_port = λ i. 5000 + i;
  is_multicast_started = false;
  has_new_client = false;
}

abbrev out_of_range : ℕ → Bool
out_of_range id = leb max_media_channel id

abbrev with_media_source : MediaSession → ℕ → Option ℕ → MediaSession
with_media_source s id source = record s {
  media_sources = λ i. if i == id then source else s.media_sources i;
}

unfoldable pub add_source : MediaSession → ℕ → Option ℕ → MediaSession × Bool
add_source s id none = (s, false)
add_source s id (some source) =
    if out_of_range id then (s, false) else (with_media_source s id (some source), true)

unfoldable pub get_source : MediaSession → ℕ → Option ℕ
get_source s id = if out_of_range id then none else s.media_sources id

unfoldable pub remove_source : MediaSession → ℕ → MediaSession × Bool
remove_source s id = if out_of_range id then (s, false) else (with_media_source s id none, true)

unfoldable pub find_client : ℕ → List (ℕ × ClientInfo) → Option ClientInfo
find_client handle [] = none
find_client handle ((h, info) ∷ clients) =
    if h == handle then some info else find_client handle clients

unfoldable pub insert_client : ℕ → ClientInfo → List (ℕ × ClientInfo) → List (ℕ × ClientInfo)
insert_client handle info [] = (handle, info) ∷ []
insert_client handle info ((h, other) ∷ clients) =
    let rest = insert_client handle info clients in
    if ltb handle h then (handle, info) ∷ ((h, other) ∷ clients) else (h, other) ∷ rest

unfoldable pub erase_client : ℕ → List (ℕ × ClientInfo) → List (ℕ × ClientInfo)
erase_client handle [] = []
erase_client handle ((h, info) ∷ clients) =
    let rest = erase_client handle clients in if h == handle then clients else (h, info) ∷ rest

unfoldable pub add_client : MediaSession → ℕ → ℕ → Bool → MediaSession × Bool
unfolding find_client insert_client
add_client s handle client unset = elim (find_client handle s.clients) [
  | some info ↦ (s, false)
  | none ↦ (
    record s {
      clients = insert_client handle (record { client = client; is_active = unset }) s.clients;
      notices = s.notices ++ replicate s.connect_callbacks (connected client);
      has_new_client = true;
    },
    true,
  )
]

-- The transports that are alive.
abbrev pub Store : Type 0
Store = ℕ → Option Transport

unfoldable pub remove_client : Store → MediaSession → ℕ → MediaSession
unfolding find_client erase_client
remove_client store s handle = elim (find_client handle s.clients) [
  | none ↦ s
  | some info ↦ record s {
    clients = erase_client handle s.clients;
    notices = elim (store info.client) [
      | none ↦ s.notices
      | some t ↦ s.notices ++ replicate s.disconnect_callbacks (disconnected info.client)
    ];
  }
]

unfoldable pub get_client : Store → MediaSession → ℕ → Option Transport
unfolding find_client
get_client store s handle = elim (find_client handle s.clients) [
  | none ↦ none
  | some info ↦ store info.client
]

unfoldable pub client_count : Store → List (ℕ × ClientInfo) → ℕ
client_count store [] = 0
client_count store ((h, info) ∷ clients) = elim (store info.client) [
  | none ↦ client_count store clients
  | some t ↦ (if info.is_active then 1 else 0) + client_count store clients
]

-- The packet of a client: its own buffer, `fresh`, with the first `size` bytes of the packet's.
unfoldable pub client_packet : List ℕ → RtpPacket → RtpPacket
client_packet fresh packet = record packet {
  bytes = write_at fresh 0 (take packet.size packet.bytes);
}

abbrev pub put_transport : Store → ℕ → Transport → Store
put_transport store id t i = if i == id then some t else store i

-- The loop; a multicast goes to the first client alone. `answers` is what the sender of a transport
-- says, `fresh` the memory of a client's packet. Handles are naturals: the handles are descriptors of
-- sockets that are open, and the test for a negative one is left out.
unfoldable pub dispatch_loop :
    Bool → (ℕ → Bool) → (ℕ → List ℕ) → ℕ → RtpPacket → List (ℕ × ClientInfo) → Store → Store
dispatch_loop multicast answers fresh channel packet [] store = store
dispatch_loop multicast answers fresh channel packet ((h, info) ∷ clients) store =
    elim info.is_active [
      | false ↦ dispatch_loop multicast answers fresh channel packet clients store
      | true ↦ elim (store info.client) [
        | none ↦ dispatch_loop multicast answers fresh channel packet clients store
        | some t ↦
            let sent : Store =
              put_transport store info.client
                (send_rtp_packet t channel (client_packet (fresh h) packet)
                  (answers info.client)).0 in
            elim multicast [
              | true ↦ sent
              | false ↦ dispatch_loop multicast answers fresh channel packet clients sent
            ]
      ]
    ]

unfoldable pub dispatch_to_clients :
    (ℕ → Bool) → (ℕ → List ℕ) → MediaSession → ℕ → RtpPacket → Store → Store
unfolding dispatch_loop
dispatch_to_clients answers fresh s channel packet store =
    dispatch_loop s.is_multicast_started answers fresh channel packet s.clients store

-- `htons(n & 0xfffe)`.
abbrev network_port : ℕ → ℕ
network_port n = n % 2 ^ 16 / 2 * 2 % 256 * 256 + n % 2 ^ 16 / 256

-- With the address that `GetMulticastIp` gives, none being the empty text, and two random numbers.
unfoldable pub start_multicast : MediaSession → List ℕ → ℕ → ℕ → MediaSession × Bool
start_multicast s ip first second =
    if s.is_multicast_started
    then (s, true)
    else if length ip == 0
    then (record s { multicast_ip = ip }, false)
    else (
      record s {
        multicast_ip = ip;
        multicast_port = λ i. if i == 0 then network_port first else network_port second;
        is_multicast_started = true;
      },
      true,
    )

unfoldable pub get_multicast_port : MediaSession → ℕ → ℕ
get_multicast_port s id = if out_of_range id then 0 else s.multicast_port id
