-- ===== src/Rtsp/Session/Choice.antt =====
-- The choice of a transport in HandleSetup of src/rtsp/rtspsession.cpp and what it keeps of the context.
use ai_camera.Base.{
  ℕ, ◌+◌, ◌≡◌, refl, inl, inr, ◌||◌, List, ◌==◌, Bool-cases, Option-cases, codes, length, take,
  drop,
}
use ai_camera.Base.Text.{contains, find, find_char}
use ai_camera.Base.Integers.{stoi}
use ai_camera.Rtp.Packet.{TransportMode}
use ai_camera.Rtsp.Types.{RtspContext}
use ai_camera.Rtsp.Session.Setup.{
  Chosen, chosen, refused, choice_threw, choose, choose_tcp, choose_udp, rtcp_text, parse_range_num,
  interleaved, client_ports,
}

abbrev pub context_of : Chosen → RtspContext
context_of (chosen c) = c
context_of (refused c) = c
context_of (choice_threw c) = c

pub record KeepsState (c d : RtspContext) : Type 0 where
  pub state : d.state ≡ c.state
  pub cseq : d.cseq ≡ c.cseq

interleaved-KeepsState :
    (c : RtspContext) (text : List ℕ) → KeepsState c (context_of (interleaved c text))
unfolding interleaved
interleaved-KeepsState c text = elim (Option-cases (find_char b'-' text)) [
  | inl e ↦ elim (Option-cases (stoi (rtcp_text text))) [
    | inl n ↦ rw (interleaved, e, n) (record { state = refl; cseq = refl })
    | inr (channel, n) ↦ rw (interleaved, e, n) (record { state = refl; cseq = refl })
  ]
  | inr (pos2, e) ↦ elim (Option-cases (stoi (take pos2 text))) [
    | inl m ↦ rw (interleaved, e, m) (record { state = refl; cseq = refl })
    | inr (rtp, m) ↦ elim (Option-cases (stoi (rtcp_text text))) [
      | inl n ↦ rw (interleaved, e, m, n) (record { state = refl; cseq = refl })
      | inr (channel, n) ↦ rw (interleaved, e, m, n) (record { state = refl; cseq = refl })
    ]
  ]
]

client_ports-KeepsState :
    (c : RtspContext) (ports : List ℕ × List ℕ) → KeepsState c (context_of (client_ports c ports))
unfolding client_ports
client_ports-KeepsState c (first, second) =
    elim (Bool-cases (length first == 0 || length second == 0)) [
      | inl e ↦ rw (client_ports, e) (record { state = refl; cseq = refl })
      | inr e ↦ elim (Option-cases (stoi first)) [
        | inl m ↦ rw (client_ports, e, m) (record { state = refl; cseq = refl })
        | inr (rtp, m) ↦ elim (Option-cases (stoi second)) [
          | inl n ↦ rw (client_ports, e, m, n) (record { state = refl; cseq = refl })
          | inr (rtcp, n) ↦ rw (client_ports, e, m, n) (record { state = refl; cseq = refl })
        ]
      ]
    ]

choose_tcp-KeepsState :
    (c : RtspContext) (header : List ℕ) → KeepsState c (context_of (choose_tcp c header))
unfolding choose_tcp
choose_tcp-KeepsState c header = elim (Option-cases (find (codes "interleaved=") header)) [
  | inl e ↦ rw (choose_tcp, e) (record { state = refl; cseq = refl })
  | inr (at_, e) ↦
      let k =
        interleaved-KeepsState (record c { mode = TransportMode.rtp_over_tcp })
          (drop (at_ + 12) header) in
      rw (choose_tcp, e) (record { state = k.state; cseq = k.cseq })
]

choose_udp-KeepsState :
    (c : RtspContext) (header : List ℕ) → KeepsState c (context_of (choose_udp c header))
unfolding choose_udp
choose_udp-KeepsState c header = elim (Option-cases (find (codes "client_port=") header)) [
  | inl e ↦ rw (choose_udp, e) (record { state = refl; cseq = refl })
  | inr (at_, e) ↦
      let k =
        client_ports-KeepsState (record c { mode = TransportMode.rtp_over_udp })
          (parse_range_num (drop (at_ + 12) header)) in
      rw (choose_udp, e) (record { state = k.state; cseq = k.cseq })
]

pub choose-KeepsState :
    (c : RtspContext) (header : List ℕ) → KeepsState c (context_of (choose c header))
unfolding choose
choose-KeepsState c header = elim (Bool-cases (contains (codes "RTP/AVP/TCP") header)) [
  | inl tcp ↦ rw (choose, tcp) (choose_tcp-KeepsState c header)
  | inr no_tcp ↦ elim (Bool-cases (contains (codes "RTP/AVP") header)) [
    | inl udp ↦ rw (choose, no_tcp, udp) (choose_udp-KeepsState c header)
    | inr no_udp ↦ elim (Bool-cases (contains (codes "multicast") header)) [
      | inl multi ↦ rw (choose, no_tcp, no_udp, multi) (record { state = refl; cseq = refl })
      | inr no_multi ↦ rw (choose, no_tcp, no_udp, no_multi) (record { state = refl; cseq = refl })
    ]
  ]
]
