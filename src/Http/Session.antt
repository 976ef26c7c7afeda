-- ===== src/Http/Session.antt =====
-- `http::Session`, src/server/http/session.cpp: a read, then a response, then the next read. An
-- exception in a handler leaves the session with nothing under way. The socket's operations are the
-- inputs; those that are not under way end in nothing.
pub mod Pipelining
use ai_camera.Base.{
  ℕ, zero, suc, ◌+◌, ◌-◌, ◌*◌, ◌/◌, ◌%◌, ◌^◌, ◌≤◌, ◌<◌, ◌≡◌, refl, sym, ap, ◌∙◌, ◌≢◌, ◌↔◌, ◌⊎◌, inl,
  inr, Bool, true, false, not, ◌&&◌, ◌||◌, Option, none, some, List, [], ◌∷◌, ◌++◌, map, arith,
  dec_lt, dec_le, ℕ_discrete, ltb, leb, ◌==◌, if◌then◌else◌, ltb→lt, lt→ltb, ltb_false→le,
  le→ltb_false, ==_iff, ==_refl, Bool-cases, Option-cases, codes, length, get_or, take, drop,
  replicate, All, length-append, length-take, length-drop, take-append-drop, take-length,
  drop-length, take-append_le, drop-append_le, get_or-append_left, All-append, All-take, All-drop,
}
use ai_camera.Http.Request.{Request}
use ai_camera.Http.Parser.{ParseState, Parser, reset, Fed, fed, threw, endless, feed}
use ai_camera.Http.Response.{Response, bad_request_response}
use ai_camera.Http.Router.{Router, dispatch}

-- The operation under way, if one is.
pub data Phase : Type 0 where
  reading : Phase
  writing : Response → Phase
  ended : Phase
  escaped : Phase
  looping : Phase

pub record Session : Type 0 where
  pub router : Router
  pub parser : Parser
  pub phase : Phase
  -- The responses written to the end.
  pub responses : List Response

abbrev pub do_read : Session → Session
do_read s = record s { phase = reading }

abbrev pub do_write : Session → Response → Session
do_write s response = record s { phase = writing response }

abbrev pub start : Router → Session
start router = do_read (record { router = router; parser = reset; phase = ended; responses = [] })

unfoldable pub after_parse : ParseState → Session → Request → Session
after_parse ParseState.error s req =
    do_write s (bad_request_response (codes "Malformed HTTP request"))
after_parse ParseState.done s req = do_write s (dispatch s.router req)
after_parse _ s req = do_read s

unfoldable pub after_feed : Session → Fed → Session
after_feed s (fed p consumed) = after_parse p.state (record s { parser = p }) p.req
after_feed s (threw p) = record s { parser = p; phase = escaped }
after_feed s endless = record s { phase = looping }

pub data Input : Type 0 where
  received : List ℕ → Input
  read_fails : Input
  written : Input
  write_fails : Input

unfoldable pub on_read : Session → Input → Session
on_read s (received bytes) = after_feed s (feed s.parser bytes)
on_read s read_fails = record s { phase = ended }
on_read s _ = s

unfoldable pub on_written : Session → Response → Input → Session
on_written s response written =
    do_read (record s { parser = reset; responses = s.responses ++ (response ∷ []) })
on_written s response write_fails = record s { phase = ended }
on_written s response _ = s

unfoldable pub step_in : Phase → Session → Input → Session
step_in reading s input = on_read s input
step_in (writing response) s input = on_written s response input
step_in _ s input = s

abbrev pub step : Session → Input → Session
unfolding step_in
step s input = step_in s.phase s input

unfoldable pub run : Session → List Input → Session
unfolding step_in
run s [] = s
run s (input ∷ inputs) = run (step s input) inputs
