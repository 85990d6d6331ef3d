-- ===== src/Programs/Classes.antt =====
-- src/util/oop.h: the two classes of communication, whose `open` is called through the object, and their
-- test in src/test/oop_test.c; src/server/server_socket.c, a server that greets one client; and
-- src/test/test_response.c.
use pwdmanlib.Base.{
  ℕ, ◌==◌, ◌≡◌, refl, Bool, true, false, if◌then◌else◌, List, [], ◌∷◌, ◌++◌, take, Bytes, codes,
}
use pwdmanlib.Vector.{CInt, pos, negsuc}
use pwdmanlib.Response.{
  ok_response, bad_request_response, bad_method_response_template, get_response_len, create_reponse,
}

-- `tCommClass`: an object holds the function that opens it. A function prints, and returns a status.
record CommClass : Type 0 where
  open_with : Bytes → Bytes × ℕ

tcp_open : Bytes → Bytes × ℕ
tcp_open fspec = (codes "Opening TCP: " ++ (fspec ++ codes "\n"), 0)

tcp_init : CommClass
unfolding tcp_open
tcp_init = record { open_with = tcp_open }

http_open : Bytes → Bytes × ℕ
http_open fspec = (codes "Opening HTTP: " ++ (fspec ++ codes "\n"), 0)

http_init : CommClass
unfolding http_open
http_init = record { open_with = http_open }

-- What is printed, and whether the status is 0 and not -1.
test_virtual_class : Bytes × Bool
unfolding tcp_init http_init
test_virtual_class =
    let (tcp_text, tcp_status) = tcp_init.open_with (codes "bigiron.box.com:5000") in
    let (http_text, http_status) = http_init.open_with (codes "http://www.microsoft.com") in
    if tcp_status == 0 then (tcp_text ++ http_text, http_status == 0) else (tcp_text, false)

-- Both objects are opened in the same way, each by its own function.
test_virtual_class_lem :
    test_virtual_class
    ≡ (codes "Opening TCP: bigiron.box.com:5000\nOpening HTTP: http://www.microsoft.com\n", true)
unfolding test_virtual_class
test_virtual_class_lem = refl

-- The greeting server: what it prints, and the bytes that it sends, the terminator among them, whatever
-- the other calls return.
welcome : CInt → Bytes × Bytes
welcome (pos n) = (
  if n == 0 then codes "Listening\n" else codes "Error\n",
  take 13 (codes "Hello World\n" ++ 0 ∷ []),
)
welcome (negsuc n) = (codes "Error\n", take 13 (codes "Hello World\n" ++ 0 ∷ []))

-- The lengths that are printed, and the text.
unfoldable pub response_test : List ℕ × Bytes
response_test =
    let resp = create_reponse bad_method_response_template (codes "POST") in
    (
      get_response_len ok_response
          ∷ get_response_len bad_request_response
          ∷ get_response_len bad_method_response_template
          ∷ get_response_len resp
          ∷ [],
      resp,
    )
