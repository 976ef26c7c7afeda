-- ===== src/Http/Router.antt =====
-- `http::Router`, src/server/http/router.cpp. The array of maps is one function of the method; a
-- handler is a function, and no handler of a map is empty.
pub mod Routes
use ai_camera.Base.{
  ℕ, zero, suc, ◌+◌, ◌-◌, ◌*◌, ◌/◌, ◌%◌, ◌^◌, ◌≤◌, ◌<◌, ◌≡◌, refl, sym, ap, ◌∙◌, ◌≢◌, ◌↔◌, ◌⊎◌, inl,
  inr, Bool, true, false, not, ◌&&◌, ◌||◌, Option, none, some, List, [], ◌∷◌, ◌++◌, map, arith,
  dec_lt, dec_le, ℕ_discrete, ltb, leb, ◌==◌, if◌then◌else◌, ltb→lt, lt→ltb, ltb_false→le,
  le→ltb_false, ==_iff, ==_refl, Bool-cases, Option-cases, codes, length, get_or, take, drop,
  replicate, All, length-append, length-take, length-drop, take-append-drop, take-length,
  drop-length, take-append_le, drop-append_le, get_or-append_left, All-append, All-take, All-drop,
}
use ai_camera.Base.Text.{same_text, assign, lookup}
use ai_camera.Http.Request.{Method, Request, path}
use ai_camera.Http.Response.{
  Response, method_not_allowed, with_status, not_found_response, internal_error_response,
}

abbrev pub RouteHandler : Type 0
RouteHandler = Request → Response

pub record Router : Type 0 where
  pub routes : Method → List (List ℕ × RouteHandler)
  pub fallback : Option RouteHandler

-- `static_cast<int>`.
unfoldable pub method_index : Method → ℕ
method_index Method.get = 0
method_index Method.post = 1
method_index Method.put = 2
method_index Method.delete = 3
method_index Method.head = 4
method_index Method.options = 5
method_index Method.patch = 6
method_index Method.unknown = 7

-- The methods in the order of their indices.
abbrev pub all_methods : List Method
all_methods =
    Method.get ∷ Method.post ∷ Method.put ∷ Method.delete ∷ Method.head ∷ Method.options
    ∷ Method.patch ∷ Method.unknown ∷ []

unfoldable pub add_route : Router → Method → List ℕ → RouteHandler → Router
add_route r method path handler = record r {
  routes = λ m.
      if method_index m == method_index method
      then assign (r.routes m) path handler
      else r.routes m;
}

abbrev pub on_get : Router → List ℕ → RouteHandler → Router
on_get r path handler = add_route r Method.get path handler

abbrev pub on_post : Router → List ℕ → RouteHandler → Router
on_post r path handler = add_route r Method.post path handler

abbrev pub on_put : Router → List ℕ → RouteHandler → Router
on_put r path handler = add_route r Method.put path handler

abbrev pub on_delete : Router → List ℕ → RouteHandler → Router
on_delete r path handler = add_route r Method.delete path handler

abbrev pub set_fallback : Router → RouteHandler → Router
set_fallback r handler = record r { fallback = some handler }

abbrev is_there {ℓ} : {A : Type ℓ} → Option A → Bool
is_there none = false
is_there (some a) = true

-- The loop over the methods.
unfoldable pub path_exists : Router → List ℕ → List Method → Bool
path_exists r p [] = false
path_exists r p (m ∷ ms) = is_there (lookup p (r.routes m)) || path_exists r p ms

-- Where no route of the method matches.
unfoldable pub unmatched : Router → Request → Response
unmatched r req =
    if path_exists r (path req) all_methods
    then with_status (internal_error_response (codes "Method Not Allowed")) method_not_allowed
    else elim r.fallback [
      | some handler ↦ handler req
      | none ↦ not_found_response (codes "Not Found: " ++ path req)
    ]

unfoldable pub dispatch : Router → Request → Response
dispatch r req = elim (lookup (path req) (r.routes req.method)) [
  | some handler ↦ handler req
  | none ↦ unmatched r req
]
