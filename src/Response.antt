-- ===== src/Response.antt =====
-- src/server/response.h: the texts of the responses and the filling of a template.
mod Tests
use pwdmanlib.Base.{
  ℕ, zero, suc, ◌+◌, ◌-◌, ◌≤◌, ◌<◌, ◌≡◌, ◌≢◌, refl, sym, ap, ◌∙◌, ◌==◌, ◌%◌, ◌^◌, List, [], ◌∷◌,
  ◌++◌, length, length-append, take, All, Bytes, codes, if◌then◌else◌, arith, append_assoc,
}

abbrev pub ok_response : Bytes
ok_response = codes "HTTP/1.0 200 OK\r\n" ++ codes "Content-type: text/html\r\n" ++ codes "\r\n"

abbrev pub bad_request_response : Bytes
bad_request_response =
    codes "HTTP/1.0 400 Bad Request\r\n"
    ++ codes "Content-type: text/html\r\n"
    ++ codes "\r\n"
    ++ codes "<html>\r\n"
    ++ codes " <body>\r\n"
    ++ codes "  <h1>Bad Request</h1>\r\n"
    ++ codes "  <p>This server did not understand your request.</p>\r\n"
    ++ codes " </body>\r\n"
    ++ codes "</html>\r\n"

abbrev not_found_response_template : Bytes
not_found_response_template =
    codes "HTTP/1.0 404 Not Found\r\n"
    ++ codes "Content-type: text/html\r\n"
    ++ codes "\r\n"
    ++ codes "<html>\r\n"
    ++ codes " <body>\r\n"
    ++ codes "  <h1>Not Found</h1>\r\n"
    ++ codes "  <p>The requested URL %s was not found on this server.</p>\r\n"
    ++ codes " </body>\r\n"
    ++ codes "</html>\r\n"

abbrev server_error_response_template : Bytes
server_error_response_template =
    codes "HTTP/1.0 500 Internal Server Error\r\n"
    ++ codes "Content-type: text/html\r\n"
    ++ codes "\r\n"
    ++ codes "<html>\r\n"
    ++ codes " <body>\r\n"
    ++ codes "  <h1>Internal Server Error</h1>\r\n"
    ++ codes "  <p>The server encountered an error and cannot process your request.</p>\r\n"
    ++ codes "  <p>Error: %s.\r\n"
    ++ codes "</p> </body>\r\n"
    ++ codes "</html>\r\n"

abbrev pub bad_method_response_template : Bytes
bad_method_response_template =
    codes "HTTP/1.0 501 Method Not Implemented\r\n"
    ++ codes "Content-type: text/html\r\n"
    ++ codes "\r\n"
    ++ codes "<html>\r\n"
    ++ codes " <body>\r\n"
    ++ codes "  <h1>Method Not Implemented</h1>\r\n"
    ++ codes "  <p>The method %s is not implemented by this server.</p>\r\n"
    ++ codes " </body>\r\n"
    ++ codes "</html>\r\n"

-- `*getResponseLen(response)`
unfoldable pub get_response_len : Bytes → ℕ
get_response_len response = length response % 2 ^ 32

-- The text that a format with one `%s` comes to: what stands for the first one is the argument.
format_string : Bytes → Bytes → Bytes
format_string [] arg = []
format_string (c ∷ []) arg = c ∷ []
format_string (c ∷ d ∷ s) arg =
    let rest = format_string (d ∷ s) arg in
    if c == b'%' then if d == b's' then arg ++ s else c ∷ rest else c ∷ rest

-- `snprintf` leaves room for the terminator.
unfoldable pub create_reponse : Bytes → Bytes → Bytes
unfolding format_string
create_reponse resp_template arg =
    let len = length resp_template + length arg in take (len - 1) (format_string resp_template arg)

take-longer : (s : Bytes) (n : ℕ) → length s ≤ n → take n s ≡ s
take-longer [] zero h = refl
take-longer [] (suc n) h = refl
take-longer (c ∷ s) zero h = absurd (omega arith)
take-longer (c ∷ s) (suc n) h = ap (λ t. c ∷ t) (take-longer s n (omega arith))

format_string-before :
    (before after arg : Bytes)
    → All (λ c. c ≢ b'%') before
    → format_string (before ++ (codes "%s" ++ after)) arg ≡ before ++ (arg ++ after)
unfolding format_string
format_string-before [] after arg h = refl
format_string-before (c ∷ []) after arg (h, hs) =
    ground (arith, format_string-before [] after arg tt)
format_string-before (c ∷ d ∷ s) after arg (h, hs) =
    ground (arith, format_string-before (d ∷ s) after arg hs)

-- `createReponse` fills a template with the argument in the place of its `%s`, and never cuts it short:
-- the two bytes of the `%s` make up for the terminator.
create_reponse_lem :
    (before after arg : Bytes)
    → All (λ c. c ≢ b'%') before
    → create_reponse (before ++ (codes "%s" ++ after)) arg ≡ before ++ (arg ++ after)
create_reponse_lem before after arg h =
    unfold create_reponse in
    rw (format_string-before before after arg h) (
      take-longer (before ++ (arg ++ after))
        (length (before ++ (codes "%s" ++ after)) + length arg - 1)
        (omega (
          arith,
          length-append before (arg ++ after),
          length-append arg after,
          length-append before (codes "%s" ++ after),
          length-append (codes "%s") after,
        )))
