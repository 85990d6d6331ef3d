-- ===== src/Client/Fits.antt =====
-- When the message fits the allocation that `main` makes for it.
use pwdmanlib.Base.{
  ℕ, ◌+◌, ◌≤◌, ◌≡◌, ◌≢◌, ◌↔◌, refl, true, false, if◌then◌else◌, Option, none, some, List, [], ◌∷◌,
  ◌++◌, length, length-append, Bytes, codes, strcmp_iff, arith,
}
use pwdmanlib.StringOps.{is_empty}
use pwdmanlib.Client.{
  Args, or_else, host, path, is_get, data_arg, headers, headers_size, header_lines, optional_size,
  get_size, content_length_size, post_size, message_size, decimal, query_text, get_message,
  content_length, body, post_message,
}

length-header_lines : (hs : List Bytes) → length (header_lines hs) ≡ headers_size hs
unfolding header_lines headers_size
length-header_lines [] = refl
length-header_lines (h ∷ hs) = omega (
  arith,
  length-append h (codes "\r\n" ++ header_lines hs),
  length-append (codes "\r\n") (header_lines hs),
  length-header_lines hs,
)

-- The question mark.
abbrev pub mark_size : Option Bytes → ℕ
mark_size none = 0
mark_size (some d) = if is_empty d then 0 else 1

length-query_text : (d : Option Bytes) → length (query_text d) ≡ optional_size d + mark_size d
unfolding query_text is_empty
length-query_text none = refl
length-query_text (some []) = refl
length-query_text (some (c ∷ d)) = omega (arith, length-append (codes "?") (c ∷ d))

or_else-strcmp : (a : Args) → is_get a ≡ true → or_else a.method (codes "GET") ≡ codes "GET"
or_else-strcmp a h =
    unfold or_else is_empty in
    (let e : a.method ≡ codes "GET" = (strcmp_iff a.method (codes "GET")).0 (unfold is_get in h) in
      rw e refl)

length-get_message :
    (a : Args)
    → is_get a ≡ true
    → length (get_message a)
      ≡ 25
        + length (path a)
        + (optional_size (data_arg a.rest) + mark_size (data_arg a.rest))
        + length (host a)
        + headers_size (headers a.rest)
length-get_message a h =
    let l7 = header_lines (headers a.rest) ++ codes "\r\n" in
    let l6 = codes "\r\n" ++ l7 in
    let l5 = host a ++ l6 in
    let l4 = codes " HTTP/1.0\r\nHost: " ++ l5 in
    let l3 = query_text (data_arg a.rest) ++ l4 in
    let l2 = path a ++ l3 in
    unfold get_message in
    rw (or_else-strcmp a h) omega (
      arith,
      length-append (header_lines (headers a.rest)) (codes "\r\n"),
      length-append (codes "\r\n") l7,
      length-append (host a) l6,
      length-append (codes " HTTP/1.0\r\nHost: ") l5,
      length-append (query_text (data_arg a.rest)) l4,
      length-append (path a) l3,
      length-append (codes " ") l2,
      length-append (codes "GET") (codes " " ++ l2),
      length-header_lines (headers a.rest),
      length-query_text (data_arg a.rest),
    )

message_size-get :
    (a : Args)
    → is_get a ≡ true
    → message_size a
      ≡ 35 + length (path a) + optional_size (data_arg a.rest) + headers_size (headers a.rest)
message_size-get a h =
    let e : a.method ≡ codes "GET" = (strcmp_iff a.method (codes "GET")).0 (unfold is_get in h) in
    unfold message_size get_size in rw (h, e) omega arith

-- A request with the method GET fits with its terminator exactly if the host has at most nine bytes,
-- or eight where there is a query string: the size of the host is not counted.
pub get_message_fits :
    (a : Args)
    → is_get a ≡ true
    → (length (get_message a) + 1 ≤ message_size a)
      ↔ (length (host a) + mark_size (data_arg a.rest) ≤ 9)
get_message_fits a h =
    let n = length-get_message a h in
    let m = message_size-get a h in (λ f. omega (arith, n, m), λ f. omega (arith, n, m))

abbrev digits_size : Option Bytes → ℕ
digits_size none = 0
digits_size (some d) = length (decimal (length d))

abbrev spare : Option Bytes → ℕ
spare none = 5
spare (some d) = 17

pub or_else-given : (s otherwise : Bytes) → s ≢ [] → or_else s otherwise ≡ s
unfolding or_else is_empty
or_else-given [] otherwise ne = absurd (ne refl)
or_else-given (c ∷ s) otherwise ne = refl

abbrev line_size : Option Bytes → ℕ
line_size none = 0
line_size (some d) = 18 + length (decimal (length d)) + length d

length-content : (d : Option Bytes) → length (content_length d) + length (body d) ≡ line_size d
length-content none = refl
length-content (some d) = omega (
  arith,
  length-append (codes "Content-Length: ") (decimal (length d) ++ codes "\r\n"),
  length-append (decimal (length d)) (codes "\r\n"),
)

length-post_message :
    (a : Args)
    → a.method ≢ []
    → length (post_message a)
      ≡ 22
        + length a.method
        + length (path a)
        + length (host a)
        + headers_size (headers a.rest)
        + line_size (data_arg a.rest)
length-post_message a ne =
    let l8 = codes "\r\n" ++ body (data_arg a.rest) in
    let l7 = content_length (data_arg a.rest) ++ l8 in
    let l6 = header_lines (headers a.rest) ++ l7 in
    let l5 = codes "\r\n" ++ l6 in
    let l4 = host a ++ l5 in
    let l3 = codes " HTTP/1.0\r\nHost: " ++ l4 in
    let l2 = path a ++ l3 in
    unfold post_message in
    rw (or_else-given a.method (codes "POST") ne) omega (
      arith,
      length-append (codes "\r\n") (body (data_arg a.rest)),
      length-append (content_length (data_arg a.rest)) l8,
      length-append (header_lines (headers a.rest)) l7,
      length-append (codes "\r\n") l6,
      length-append (host a) l5,
      length-append (codes " HTTP/1.0\r\nHost: ") l4,
      length-append (path a) l3,
      length-append (codes " ") l2,
      length-append a.method (codes " " ++ l2),
      length-header_lines (headers a.rest),
      length-content (data_arg a.rest),
    )

message_size-post :
    (a : Args)
    → is_get a ≡ false
    → message_size a
      ≡ 28
        + length a.method
        + length (path a)
        + headers_size (headers a.rest)
        + content_length_size (data_arg a.rest)
        + optional_size (data_arg a.rest)
message_size-post a h = unfold message_size post_size in rw h omega arith

spare-cases :
    (d : Option Bytes) (rest host_size : ℕ)
    → (22 + rest + host_size + line_size d + 1
        ≤ 28 + rest + content_length_size d + optional_size d)
      ↔ (host_size + digits_size d ≤ spare d)
spare-cases none rest host_size = (λ f. omega arith, λ f. omega arith)
spare-cases (some d) rest host_size = (λ f. omega arith, λ f. omega arith)

-- Any other request, if its method is not empty, fits exactly if the host has at most five bytes, or
-- where there is a body, at most seventeen less the digits of the content length.
post_message_fits :
    (a : Args)
    → is_get a ≡ false
    → a.method ≢ []
    → (length (post_message a) + 1 ≤ message_size a)
      ↔ (length (host a) + digits_size (data_arg a.rest) ≤ spare (data_arg a.rest))
post_message_fits a h ne =
    let n = length-post_message a ne in
    let m = message_size-post a h in
    let k =
      spare-cases (data_arg a.rest)
        (length a.method + length (path a) + headers_size (headers a.rest)) (length (host a)) in
    (λ f. k.0 (omega (arith, n, m)), λ f. omega (arith, n, m, k.1 f))
