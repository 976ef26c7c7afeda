-- ===== src/Http/Router/Routes.antt =====
-- What adding a route does to the answers of src/server/http/router.cpp.
use ai_camera.Base.{
  ℕ, ◌≡◌, refl, inl, inr, Bool, true, false, ◌&&◌, ◌||◌, none, some, List, [], ◌∷◌, arith, ◌==◌,
  if◌then◌else◌, Bool-cases, Option-cases, codes,
}
use ai_camera.Base.Text.{same_text, lookup, lookup-assign}
use ai_camera.Http.Request.{Method, Request, path}
use ai_camera.Http.Response.{Response, method_not_allowed, with_status, internal_error_response}
use ai_camera.Http.Router.{
  RouteHandler, Router, method_index, all_methods, add_route, path_exists, unmatched, dispatch,
}

lookup-add_route :
    (r : Router) (m : Method) (p : List ℕ) (h : RouteHandler) (m' : Method) (key : List ℕ)
    → lookup key ((add_route r m p h).routes m') ≡ (
        if method_index m' == method_index m && same_text p key
        then some h
        else lookup key (r.routes m'))
unfolding add_route
lookup-add_route r m p h m' key = elim (Bool-cases (method_index m' == method_index m)) [
  | inl same ↦ rw (same, lookup-assign (r.routes m') p key h) refl
  | inr differs ↦ rw differs refl
]

-- Where the path is another one, a route changes nothing.
path_exists-other :
    (r : Router) (m : Method) (p : List ℕ) (h : RouteHandler) (key : List ℕ) (ms : List Method)
    → same_text p key ≡ false
    → path_exists (add_route r m p h) key ms ≡ path_exists r key ms
unfolding path_exists
path_exists-other r m p h key [] other = refl
path_exists-other r m p h key (m' ∷ ms) other =
    rw (lookup-add_route r m p h m' key, other, path_exists-other r m p h key ms other)
      (ground arith)

unfoldable has_index : Method → List Method → Bool
has_index m [] = false
has_index m (m' ∷ ms) = method_index m' == method_index m || has_index m ms

path_exists-among :
    (r : Router) (m : Method) (p : List ℕ) (h : RouteHandler) (key : List ℕ) (ms : List Method)
    → same_text p key ≡ true
    → has_index m ms ≡ true
    → path_exists (add_route r m p h) key ms ≡ true
unfolding path_exists has_index
path_exists-among r m p h key [] same among = cc
path_exists-among r m p h key (m' ∷ ms) same among =
    let rest = path_exists-among r m p h key ms same in
    elim (Bool-cases (method_index m' == method_index m)) [
      | inl here ↦ rw (lookup-add_route r m p h m' key, here, same) refl
      | inr there ↦ rw (rest (rw there at among)) (ground arith)
    ]

has_index-all : (m : Method) → has_index m all_methods ≡ true
unfolding has_index method_index
has_index-all Method.get = refl
has_index-all Method.post = refl
has_index-all Method.put = refl
has_index-all Method.delete = refl
has_index-all Method.head = refl
has_index-all Method.options = refl
has_index-all Method.patch = refl
has_index-all Method.unknown = refl

unmatched-other :
    (r : Router) (m : Method) (p : List ℕ) (h : RouteHandler) (req : Request)
    → same_text p (path req) ≡ false
    → unmatched (add_route r m p h) req ≡ unmatched r req
unfolding unmatched add_route
unmatched-other r m p h req other = rw (path_exists-other r m p h (path req) all_methods other) refl

abbrev pub not_allowed : Response
not_allowed = with_status (internal_error_response (codes "Method Not Allowed")) method_not_allowed

unmatched-same :
    (r : Router) (m : Method) (p : List ℕ) (h : RouteHandler) (req : Request)
    → same_text p (path req) ≡ true
    → unmatched (add_route r m p h) req ≡ not_allowed
unfolding unmatched
unmatched-same r m p h req same =
    rw (path_exists-among r m p h (path req) all_methods same (has_index-all m)) refl

-- A route that is added answers the requests of its method and path. A request of the path by another
-- method has the answer of a route that it had, or else the status of a method that is not
-- allowed. What other paths are answered does not change, the fallback's answers included.
pub dispatch-add_route :
    (r : Router) (m : Method) (p : List ℕ) (h : RouteHandler) (req : Request)
    → dispatch (add_route r m p h) req ≡ (
        if same_text p (path req)
        then (if method_index req.method == method_index m
            then h req
            else elim (lookup (path req) (r.routes req.method)) [
              | some handler ↦ handler req
              | none ↦ not_allowed
            ])
        else dispatch r req)
unfolding dispatch
dispatch-add_route r m p h req =
    let found = lookup-add_route r m p h req.method (path req) in
    elim (Bool-cases (same_text p (path req))) [
      | inr other ↦
          let kept : (method_index req.method == method_index m && same_text p (path req)) ≡ false =
            rw other (ground arith) in
          elim (Option-cases (lookup (path req) (r.routes req.method))) [
            | inl missing ↦
                rw (dispatch, found, kept, other, missing, unmatched-other r m p h req other) refl
            | inr (handler, present) ↦ rw (dispatch, found, kept, other, present) refl
          ]
      | inl same ↦ elim (Bool-cases (method_index req.method == method_index m)) [
        | inl here ↦ rw (dispatch, found, here, same) refl
        | inr there ↦ elim (Option-cases (lookup (path req) (r.routes req.method))) [
          | inl missing ↦
              rw (dispatch, found, there, same, missing, unmatched-same r m p h req same) refl
          | inr (handler, present) ↦ rw (dispatch, found, there, same, present) refl
        ]
      ]
    ]
