-- ===== src/Http/Runs.antt =====
-- The theorems on HTTP at concrete inputs.
use ai_camera.Base.{◌≢◌, ℕ, ◌≡◌, refl, none, some, List, [], ◌∷◌, ◌++◌, ◌==◌, if◌then◌else◌, codes}
use ai_camera.Base.Text.{same_text, lookup}
use ai_camera.Http.Request.{Method, Request, new_request, path}
use ai_camera.Http.Response.{ok_response}
use ai_camera.Http.Router.{RouteHandler, Router, method_index, add_route, dispatch}
use ai_camera.Http.Router.Routes.{not_allowed, dispatch-add_route}
use ai_camera.Http.Parser.{
  endless, reset, feed, parser_of, feed_in, feed_line, try_consume_line, request_line, feed_headers,
  after_headers, read_headers, read_body,
}
use ai_camera.Http.Parser.Ends.{feed-ends}
use ai_camera.Http.Parser.Chunks.{result, feed-append}
use ai_camera.Http.Session.{start, run, received, written}
use ai_camera.Http.Session.Pipelining.{answered, pipelined_dropped}

abbrev crlf : List ℕ
crlf = 13 ∷ 10 ∷ []

abbrev line : List ℕ
line = codes "GET /live HTTP/1.1" ++ crlf

feed-append_example :
    result (feed reset (line ++ crlf)) ≡ result (feed (parser_of (feed reset line)) crlf)
unfolding feed feed_in feed_line try_consume_line request_line feed_headers after_headers
    read_headers
feed-append_example = feed-append reset line crlf refl

abbrev empty_router : Router
empty_router = record { routes = λ m. []; fallback = none }

abbrev hello : RouteHandler
hello req = ok_response (codes "hi") (codes "text/plain")

abbrev live_request : Request
live_request = record new_request {
  method = Method.get;
  uri = codes "/live";
  http_version = codes "HTTP/1.1";
}

dispatch-add_route_example :
    dispatch (add_route empty_router Method.post (codes "/live") hello) live_request ≡ (
      if same_text (codes "/live") (path live_request)
      then (if method_index live_request.method == method_index Method.post
          then hello live_request
          else elim (lookup (path live_request) (empty_router.routes live_request.method)) [
            | some handler ↦ handler live_request
            | none ↦ not_allowed
          ])
      else dispatch empty_router live_request)
dispatch-add_route_example =
    dispatch-add_route empty_router Method.post (codes "/live") hello live_request

pipelined_dropped_example :
    run (start empty_router) (received ((line ++ crlf) ++ line) ∷ written ∷ [])
    ≡ answered (start empty_router) live_request
unfolding feed feed_in feed_line try_consume_line request_line feed_headers after_headers
    read_headers read_body lookup
pipelined_dropped_example =
    pipelined_dropped (start empty_router) (line ++ crlf) line live_request refl refl

feed-ends_example : feed reset line ≢ endless
feed-ends_example = feed-ends reset line
