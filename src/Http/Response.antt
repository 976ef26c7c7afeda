-- ===== src/Http/Response.antt =====
-- `http::Response`, src/server/http/http_response.cpp.
use ai_camera.Base.{ℕ, List, [], ◌∷◌, ◌++◌, codes, length}
use ai_camera.Base.Text.{assign, to_decimal, decimal_digits}

pub data StatusCode : Type 0 where
  ok created no_content moved_permanently found bad_request not_found method_not_allowed
        internal_server_error :
      StatusCode

abbrev pub code_of : StatusCode → ℕ
code_of ok = 200
code_of created = 201
code_of no_content = 204
code_of moved_permanently = 301
code_of found = 302
code_of bad_request = 400
code_of not_found = 404
code_of method_not_allowed = 405
code_of internal_server_error = 500

unfoldable pub reason_phrase : StatusCode → List ℕ
reason_phrase ok = codes "OK"
reason_phrase created = codes "Created"
reason_phrase no_content = codes "No Content"
reason_phrase moved_permanently = codes "Moved Permanently"
reason_phrase found = codes "Found"
reason_phrase bad_request = codes "Bad Request"
reason_phrase not_found = codes "Not Found"
reason_phrase method_not_allowed = codes "Method Not Allowed"
reason_phrase internal_server_error = codes "Internal Server Error"

pub record Response : Type 0 where
  pub code : StatusCode
  pub headers : List (List ℕ × List ℕ)
  pub body : List ℕ

abbrev pub new_response : Response
new_response = record { code = ok; headers = []; body = [] }

abbrev pub with_status : Response → StatusCode → Response
with_status r code = record r { code = code }

unfoldable pub with_header : Response → List ℕ → List ℕ → Response
unfolding assign
with_header r key value = record r { headers = assign r.headers key value }

abbrev pub with_body : Response → List ℕ → Response
with_body r body = record r { body = body }

abbrev pub with_content_type : Response → List ℕ → Response
unfolding with_header
with_content_type r kind = with_header r (codes "Content-Type") kind

abbrev crlf : List ℕ
crlf = 13 ∷ 10 ∷ []

unfoldable pub header_lines : List (List ℕ × List ℕ) → List ℕ
header_lines [] = []
header_lines (entry ∷ entries) =
    entry.0 ++ (codes ": " ++ (entry.1 ++ (crlf ++ header_lines entries)))

-- `to_string`.
unfoldable pub print : Response → List ℕ
unfolding reason_phrase header_lines decimal_digits
print r =
    codes "HTTP/1.1 "
    ++ (to_decimal (code_of r.code)
        ++ (codes " "
            ++ (reason_phrase r.code
                ++ (crlf
                    ++ (header_lines r.headers
                        ++ (codes "Content-Length: "
                            ++ (to_decimal (length r.body)
                                ++ (crlf
                                    ++ (codes "Connection: keep-alive"
                                        ++ (crlf ++ (crlf ++ r.body)))))))))))

-- The shortcuts; those with a text/plain body differ in their status.
abbrev pub plain_response : StatusCode → List ℕ → Response
unfolding with_header
plain_response code msg =
    with_body (with_content_type (with_status new_response code) (codes "text/plain")) msg

unfoldable pub ok_response : List ℕ → List ℕ → Response
unfolding with_header
ok_response body kind = with_body (with_content_type (with_status new_response ok) kind) body

unfoldable pub not_found_response : List ℕ → Response
unfolding with_header
not_found_response msg = plain_response not_found msg

unfoldable pub bad_request_response : List ℕ → Response
unfolding with_header
bad_request_response msg = plain_response bad_request msg

unfoldable pub internal_error_response : List ℕ → Response
unfolding with_header
internal_error_response msg = plain_response internal_server_error msg
