-- ===== src/Http/Request.antt =====
-- Requests, include/server/http/http_parser.hpp.
use ai_camera.Base.{ℕ, suc, none, some, List, [], take, drop}
use ai_camera.Base.Text.{find_char}

pub data Method : Type 0 where
  get post put delete head options patch unknown : Method

pub record Request : Type 0 where
  pub method : Method
  pub uri : List ℕ
  pub http_version : List ℕ
  pub headers : List (List ℕ × List ℕ)
  pub body : List ℕ

abbrev pub new_request : Request
new_request = record { method = unknown; uri = []; http_version = []; headers = []; body = [] }

unfoldable pub path : Request → List ℕ
unfolding find_char
path req = elim (find_char b'?' req.uri) [ none ↦ req.uri | some pos ↦ take pos req.uri ]

unfoldable pub query_string : Request → List ℕ
unfolding find_char
query_string req = elim (find_char b'?' req.uri) [ none ↦ [] | some pos ↦ drop (suc pos) req.uri ]
