-- ===== src/Http/Session/Pipelining.antt =====
-- What src/server/http/session.cpp does with bytes that come behind a whole request.
use ai_camera.Base.{ℕ, ◌≡◌, some, List, [], ◌∷◌, ◌++◌, arith}
use ai_camera.Http.Request.{Request}
use ai_camera.Http.Parser.{ParseState, Parser, reset, Fed, fed, threw, endless, feed}
use ai_camera.Http.Parser.Complete.{complete_request, feed_complete}
use ai_camera.Http.Router.{dispatch}
use ai_camera.Http.Session.{
  reading, Session, after_parse, after_feed, received, written, on_read, on_written, step_in, run,
}

-- The session between two requests, with one more answer given.
abbrev pub answered : Session → Request → Session
answered s r = record s {
  parser = reset;
  phase = reading;
  responses = s.responses ++ (dispatch s.router r ∷ []);
}

complete-after_parse :
    (state : ParseState) (s : Session) (p : Parser) (r : Request)
    → complete_request (fed (record p { state = state }) 0) ≡ some r
    → let t = after_parse state (record s { parser = p }) p.req in
      step_in t.phase t written ≡ answered s r
unfolding step_in after_parse on_written
complete-after_parse ParseState.done s p r h = ground arith
complete-after_parse ParseState.error s p r h = cc
complete-after_parse ParseState.at_method s p r h = cc
complete-after_parse ParseState.at_uri s p r h = cc
complete-after_parse ParseState.at_version s p r h = cc
complete-after_parse ParseState.header_key s p r h = cc
complete-after_parse ParseState.header_value s p r h = cc
complete-after_parse ParseState.at_body s p r h = cc

complete-after_feed :
    (s : Session) (f : Fed) (r : Request)
    → complete_request f ≡ some r
    → let t = after_feed s f in step_in t.phase t written ≡ answered s r
unfolding after_feed
complete-after_feed s (fed p consumed) r h = complete-after_parse p.state s p r h
complete-after_feed s (threw p) r h = cc
complete-after_feed s endless r h = cc

-- A session that waits for bytes is given those that complete a request, with more bytes behind them, such
-- as the next request: once the response is written, it is where it would be had there been none of
-- them. They are neither answered nor kept.
pub pipelined_dropped :
    (s : Session) (a b : List ℕ) (r : Request)
    → s.phase ≡ reading
    → complete_request (feed s.parser a) ≡ some r
    → run s (received (a ++ b) ∷ written ∷ []) ≡ answered s r
unfolding run step_in on_read
pipelined_dropped s a b r at_read h = rw at_read (
    complete-after_feed (record s { phase = reading }) (feed s.parser (a ++ b)) r
      (feed_complete s.parser r a b h))
