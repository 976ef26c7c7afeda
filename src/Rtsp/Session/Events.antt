-- ===== src/Rtsp/Session/Events.antt =====
-- What happens to a session of src/rtsp/rtspsession.cpp from outside, as steps: bytes arrive, a wait of
-- the send loop ends, a file is loaded.
use mathlib.Core.Option
use ai_camera.Base.{
  ℕ, suc, ◌≡◌, refl, ◌≢◌, inl, inr, Bool, true, false, ◌||◌, Option, none, some, List, [], ◌∷◌,
  ◌++◌, arith, ◌==◌, if◌then◌else◌, Bool-cases, Option-cases, length,
}
use ai_camera.Rtp.RawSource.{
  RawSource, NalUnit, with_nals, open_source, read_next_frame, extract_nal_units,
}
use ai_camera.Rtp.RawSource.Streams.{extract_nal_units-ends}
use ai_camera.Rtp.Interleaved.{process_interleaved_data}
use ai_camera.Rtp.Interleaved.Delivery.{process_interleaved_data-ends}
use ai_camera.Rtsp.Session.{
  Handled, returned, threw, Session, Outside, load_video_file, with_source, first_frame,
  parameter_sets, closed_raw_source,
}
use ai_camera.Rtsp.Session.Playback.{frame_due, provided}
use ai_camera.Rtsp.Session.Requests.{
  on_bytes, is_playing, is_ready, cleared, take_pieces, handle_rtsp_request, channels_of,
}
use ai_camera.Rtsp.Session.Playing.{InStep, TransportInStep, on_timer-InStep}
use ai_camera.Rtsp.Session.Supply.{provided-context}
use ai_camera.Rtsp.Session.Playing.Handlers.{
  session_of, Silent, take_pieces-InStep, handle_rtsp_request-InStep,
}

pub data Event : Type 0 where
  arrives : Outside → List ℕ → Event
  wait_ends : Outside → Bool → Event
  loads : List ℕ → Event

-- The session afterwards; `none` is fuel run out.
unfoldable pub after_event : Event → Session → Option Session
after_event (arrives o bytes) s = elim (on_bytes o s bytes) [
  | none ↦ none
  | some h ↦ some (session_of h)
]
after_event (wait_ends o sent) s = some (frame_due o s sent)
after_event (loads file) s = load_video_file s file

unfoldable pub SilentEvent : Event → Type 0
SilentEvent (arrives o bytes) = Silent o
SilentEvent _ = Unit

cleared-InStep : (h : Handled) → InStep (session_of h) → InStep (session_of (cleared h))
cleared-InStep (returned s) i = i
cleared-InStep (threw s) i = i

on_bytes-InStep :
    (o : Outside) (s : Session) (bytes : List ℕ)
    → Silent o
    → InStep s
    → (h : Handled) × ((on_bytes o s bytes ≡ some h) × InStep (session_of h))
unfolding on_bytes
on_bytes-InStep o s bytes silent i =
    let t = record s { read_buffer = s.read_buffer ++ bytes } in
    elim (Bool-cases (is_playing s.context.state || is_ready s.context.state)) [
      | inr e ↦ (
        cleared (handle_rtsp_request o t t.read_buffer),
        (
          rw (on_bytes, e) refl,
          cleared-InStep (handle_rtsp_request o t t.read_buffer)
              (handle_rtsp_request-InStep o t t.read_buffer silent i),
        ),
      )
      | inl e ↦
          elim (Option-cases (
            process_interleaved_data (suc (length t.read_buffer)) (channels_of s.context)
              t.read_buffer)) [
                | inl missing ↦
                    elim (process_interleaved_data-ends (suc (length t.read_buffer))
                      (channels_of s.context) t.read_buffer (omega arith) missing) [ ]
                | inr ((pieces, rest), found) ↦ (
                  take_pieces o t pieces rest,
                  (rw (on_bytes, e, found) refl, take_pieces-InStep o t pieces rest silent i),
                )
              ]
    ]

frame_due-InStep :
    (o : Outside) (s : Session) (sent : Bool) → InStep s → InStep (frame_due o s sent)
unfolding frame_due TransportInStep
frame_due-InStep o s sent i = elim (Option-cases s.transport) [
  | inl e ↦ rw (frame_due, e) i
  | inr (t, e) ↦
      rw (frame_due, e, provided-context o s t)
        (on_timer-InStep s.context.state t (provided o s t).1 sent (rw e at i))
]

either-InStep : (b : Bool) (t u : Session) → InStep t → InStep u → InStep (if b then t else u)
either-InStep true t u h k = h
either-InStep false t u h k = k

parameter_sets-InStep : (us : List NalUnit) (s : Session) → InStep s → InStep (parameter_sets us s)
unfolding parameter_sets
parameter_sets-InStep [] s i = i
parameter_sets-InStep (u ∷ us) s i = parameter_sets-InStep us _ (
    either-InStep (u.nal.nal_type == 7) (record s { real_sps = u.nal.bytes })
      (if u.nal.nal_type == 8 then record s { real_pps = u.nal.bytes } else s) i
      (either-InStep (u.nal.nal_type == 8) (record s { real_pps = u.nal.bytes }) s i i))

first_frame-InStep :
    (s : Session) (read : RawSource × Option (List NalUnit))
    → InStep s
    → InStep (first_frame s read)
unfolding first_frame
first_frame-InStep s (after, none) i = i
first_frame-InStep s (after, some frame) i = parameter_sets-InStep frame s i

with_source-InStep : (s : Session) (source : RawSource) → InStep s → InStep (with_source s source)
unfolding with_source
with_source-InStep s source i =
    first_frame-InStep (record s { has_h264 = true; real_sps = []; real_pps = [] })
      (read_next_frame source) i

open_source-ends : (s : RawSource) (file : List ℕ) → open_source s file ≢ none
unfolding open_source
open_source-ends s [] = λ e. cc
open_source-ends s (b ∷ bs) = λ e.
    extract_nal_units-ends (length (b ∷ bs)) (b ∷ bs) (omega arith)
      ((Option.map-eq-none_iff (with_nals s) (extract_nal_units (length (b ∷ bs)) (b ∷ bs))).0 e)

load-InStep :
    (s : Session) (file : List ℕ)
    → InStep s
    → (t : Session) × ((load_video_file s file ≡ some t) × InStep t)
unfolding load_video_file
load-InStep s file i = elim (Option-cases (open_source closed_raw_source file)) [
  | inl missing ↦ elim (open_source-ends closed_raw_source file missing) [ ]
  | inr ((source, opened), e) ↦ (
    if opened then with_source s source else record s { nal_source = none },
    (
      rw (load_video_file, e) refl,
      either-InStep opened (with_source s source) (record s { nal_source = none })
          (with_source-InStep s source i) i,
    ),
  )
]

-- A session in step stays so, whatever happens next, if fresh memory does not say that a channel plays,
-- and the step ends: the loop of channel 0 runs exactly while the channel plays, which it does in the
-- state PLAYING and in no other but READY.
pub after_event-InStep :
    (event : Event) (s : Session)
    → SilentEvent event
    → InStep s
    → (t : Session) × ((after_event event s ≡ some t) × InStep t)
unfolding after_event SilentEvent
after_event-InStep (arrives o bytes) s silent i =
    let (h, ended) = on_bytes-InStep o s bytes silent i in
    let (e, kept) = ended in (session_of h, (rw (after_event, e) refl, kept))
after_event-InStep (wait_ends o sent) s silent i =
    (frame_due o s sent, (refl, frame_due-InStep o s sent i))
after_event-InStep (loads file) s silent i = load-InStep s file i
