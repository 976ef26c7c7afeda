-- ===== src/Rtp/MediaSession/FanOut.antt =====
-- What one transport is given when src/rtp/mediasession.cpp hands a packet to its clients.
use ai_camera.Base.{
  ℕ, ◌≡◌, refl, sym, ap, inl, inr, Bool, true, false, ◌&&◌, Option, none, some, List, [], ◌∷◌, ◌++◌,
  ◌+◌, take, drop, length, arith, ◌==◌, if◌then◌else◌, ==_refl, Bool-cases, Option-cases,
}
use ai_camera.Rtp.Packet.{RtpPacket, write_at}
use ai_camera.Rtp.Transport.{Transport, send_rtp_packet}
use ai_camera.Rtp.MediaSession.{
  MediaSession, ClientInfo, Store, put_transport, client_packet, dispatch_loop, dispatch_to_clients,
}

-- A copy of a packet that is its own: in fresh memory, whose first bytes are those that the packet
-- counts, and all else as in the packet.
abbrev pub own_copy : List ℕ → RtpPacket → RtpPacket
own_copy fresh packet =
    let counted = take packet.size packet.bytes in
    record packet { bytes = counted ++ drop (length counted) fresh }

client_packet-own_copy :
    (fresh : List ℕ) (packet : RtpPacket) → client_packet fresh packet ≡ own_copy fresh packet
unfolding client_packet write_at
client_packet-own_copy fresh packet =
    let counted = take packet.size packet.bytes in
    let start : 0 + length counted ≡ length counted = omega arith in
    ap (λ n. record packet { bytes = counted ++ drop n fresh }) start

module _ (answers : ℕ → Bool) (fresh : ℕ → List ℕ) (channel : ℕ) (packet : RtpPacket) where
  -- One transport, seen alone: a copy of the packet for each active client that it serves.
  unfoldable pub given : ℕ → List (ℕ × ClientInfo) → Transport → Transport
  given id [] t = t
  given id ((h, info) ∷ clients) t =
      let sent =
        given id clients (send_rtp_packet t channel (own_copy (fresh h) packet) (answers id)).0 in
      let rest = given id clients t in if info.is_active && info.client == id then sent else rest

  abbrev pub given_alive : ℕ → List (ℕ × ClientInfo) → Option Transport → Option Transport
  given_alive id clients none = none
  given_alive id clients (some t) = some (given id clients t)

  abbrev loop : List (ℕ × ClientInfo) → Store → Store
  loop = dispatch_loop false answers fresh channel packet

  abbrev sent_to : ℕ → ClientInfo → Transport → Transport
  sent_to h info t = (send_rtp_packet t channel (own_copy (fresh h) packet) (answers info.client)).0

  loop_nil : (store : Store) → loop [] store ≡ store
  unfolding dispatch_loop
  loop_nil store = refl

  loop_idle :
      (h : ℕ) (info : ClientInfo) (clients : List (ℕ × ClientInfo)) (store : Store)
      → info.is_active ≡ false
      → loop ((h, info) ∷ clients) store ≡ loop clients store
  unfolding dispatch_loop
  loop_idle h info clients store e = rw (dispatch_loop, e) refl

  loop_dead :
      (h : ℕ) (info : ClientInfo) (clients : List (ℕ × ClientInfo)) (store : Store)
      → info.is_active ≡ true
      → store info.client ≡ none
      → loop ((h, info) ∷ clients) store ≡ loop clients store
  unfolding dispatch_loop
  loop_dead h info clients store e d = rw (dispatch_loop, e, d) refl

  loop_sends :
      (h : ℕ) (info : ClientInfo) (clients : List (ℕ × ClientInfo)) (store : Store) (t : Transport)
      → info.is_active ≡ true
      → store info.client ≡ some t
      → loop ((h, info) ∷ clients) store
        ≡ loop clients (put_transport store info.client (sent_to h info t))
  unfolding dispatch_loop
  loop_sends h info clients store t e d =
      rw (dispatch_loop, e, d, client_packet-own_copy (fresh h) packet) refl

  given_skips :
      (id h : ℕ) (info : ClientInfo) (clients : List (ℕ × ClientInfo)) (x : Option Transport)
      → (info.is_active && info.client == id) ≡ false
      → given_alive id ((h, info) ∷ clients) x ≡ given_alive id clients x
  unfolding given
  given_skips id h info clients none e = refl
  given_skips id h info clients (some t) e = rw (given, e) refl

  given_takes :
      (h : ℕ) (info : ClientInfo) (clients : List (ℕ × ClientInfo)) (t : Transport)
      → info.is_active ≡ true
      → given info.client ((h, info) ∷ clients) t ≡ given info.client clients (sent_to h info t)
  unfolding given
  given_takes h info clients t e = rw (given, e, ==_refl info.client) refl

  loop-given :
      (id : ℕ) (clients : List (ℕ × ClientInfo)) (store : Store)
      → loop clients store id ≡ given_alive id clients (store id)
  unfolding given
  loop-given id [] store = elim (Option-cases (store id)) [
    | inl e ↦ rw (loop_nil store, e) refl
    | inr (t, e) ↦ rw (loop_nil store, e) refl
  ]
  loop-given id ((h, info) ∷ clients) store = elim (Bool-cases info.is_active) [
    | inr idle ↦
        rw (loop_idle h info clients store idle, loop-given id clients store)
          (sym (given_skips id h info clients (store id) (rw idle refl)))
    | inl active ↦ elim (Option-cases (store info.client)) [
      | inl dead ↦ elim (Bool-cases (info.client == id)) [
        | inl here ↦
            let same : id ≡ info.client = ground arith in
            rw (loop_dead h info clients store active dead, loop-given id clients store, same, dead)
              refl
        | inr there ↦
            rw (loop_dead h info clients store active dead, loop-given id clients store)
              (sym (given_skips id h info clients (store id) (rw (active, there) refl)))
      ]
      | inr (t, alive) ↦ elim (Bool-cases (id == info.client)) [
        | inl here ↦
            let same : id ≡ info.client = ground arith in
            rw
              (
                loop_sends h info clients store t active alive,
                loop-given id clients (put_transport store info.client (sent_to h info t)),
                here,
                same,
                alive,
              )
              (ap some (sym (given_takes h info clients t active)))
        | inr there ↦
            let apart : (info.is_active && info.client == id) ≡ false = rw active (ground arith) in
            rw
              (
                loop_sends h info clients store t active alive,
                loop-given id clients (put_transport store info.client (sent_to h info t)),
                there,
              )
              (sym (given_skips id h info clients (store id) apart))
      ]
    ]
  ]

-- A packet handed to the clients of a session that is not multicast: a transport that is alive is given
-- a copy of its own, the packet's counted bytes at the start of fresh memory, for each active client that
-- it serves, in the order of their handles, and no other transport changes.
pub dispatch_to_clients-given :
    (answers : ℕ → Bool) (fresh : ℕ → List ℕ) (s : MediaSession) (channel : ℕ) (packet : RtpPacket)
    (store : Store) (id : ℕ)
    → s.is_multicast_started ≡ false
    → dispatch_to_clients answers fresh s channel packet store id
      ≡ given_alive answers fresh channel packet id s.clients (store id)
unfolding dispatch_to_clients
dispatch_to_clients-given answers fresh s channel packet store id e =
    rw (dispatch_to_clients, e) (loop-given answers fresh channel packet id s.clients store)
