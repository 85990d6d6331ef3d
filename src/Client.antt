-- ===== src/Client.antt =====
-- src/client/client_v2.c: the request that `main` builds, and the size of the allocation that it is
-- written into.
mod Tests
pub mod Fits
pub mod Start
pub mod Connection
pub mod OpenConnection
pub mod Send
pub mod Program
use pwdmanlib.Base.{
  ℕ, zero, suc, ◌+◌, ◌/◌, ◌%◌, ◌==◌, Bool, true, false, if◌then◌else◌, Option, none, some, List, [],
  ◌∷◌, ◌++◌, length, Bytes, codes, strcmp, strstr,
}
use pwdmanlib.StringOps.{is_empty}

-- `argv` from the first argument on: the host, the method and the path, and the data and the headers
-- if they are given. The port plays no part in the message.
pub record Args : Type 0 where
  pub host_arg : Bytes
  pub method : Bytes
  pub path_arg : Bytes
  pub rest : List Bytes

-- `strlen(s) > 0 ? s : otherwise`
unfoldable pub or_else : Bytes → Bytes → Bytes
or_else s otherwise = if is_empty s then otherwise else s

unfoldable pub host : Args → Bytes
host a = or_else a.host_arg (codes "localhost")

unfoldable pub path : Args → Bytes
path a = or_else a.path_arg (codes "/")

unfoldable pub is_get : Args → Bool
is_get a = strcmp a.method (codes "GET")

abbrev pub data_arg : List Bytes → Option Bytes
data_arg [] = none
data_arg (d ∷ headers) = some d

abbrev pub headers : List Bytes → List Bytes
headers [] = []
headers (d ∷ hs) = hs

-- The sizes that the loops over the headers add, and the lines that they append.
unfoldable pub headers_size : List Bytes → ℕ
headers_size [] = 0
headers_size (h ∷ hs) = length h + 2 + headers_size hs

unfoldable pub header_lines : List Bytes → Bytes
header_lines [] = []
header_lines (h ∷ hs) = h ++ (codes "\r\n" ++ header_lines hs)

abbrev pub optional_size : Option Bytes → ℕ
optional_size none = 0
optional_size (some d) = length d

unfoldable pub get_size : Args → ℕ
unfolding path headers_size
get_size a =
    length (codes "%s %s%s%s HTTP/1.0\r\nHost: %s\r\n")
    + length a.method
    + length (path a)
    + optional_size (data_arg a.rest)
    + headers_size (headers a.rest)
    + length (codes "\r\n")

abbrev pub content_length_size : Option Bytes → ℕ
content_length_size none = 0
content_length_size (some d) = length (codes "Content-Length: %d\r\n") + 10

unfoldable pub post_size : Args → ℕ
unfolding path headers_size
post_size a =
    length (codes "%s %s HTTP/1.0\r\nHost: %s\r\n")
    + length a.method
    + length (path a)
    + headers_size (headers a.rest)
    + content_length_size (data_arg a.rest)
    + length (codes "\r\n")
    + optional_size (data_arg a.rest)

-- `*message_size`
unfoldable pub message_size : Args → ℕ
unfolding is_get get_size post_size
message_size a = if is_get a then get_size a else post_size a

-- `%d` of a number that is not negative, on fuel for its digits.
unfoldable pub print_decimal : ℕ → ℕ → Bytes → Bytes
print_decimal zero n acc = acc
print_decimal (suc fuel) n acc =
    let rest = print_decimal fuel (n / 10) ((b'0' + n % 10) ∷ acc) in
    if n / 10 == 0 then (b'0' + n % 10) ∷ acc else rest

abbrev pub decimal : ℕ → Bytes
decimal n = print_decimal 10 n []

-- The query string: with a question mark if it is there and not empty.
unfoldable pub query_text : Option Bytes → Bytes
query_text none = []
query_text (some d) = if is_empty d then [] else codes "?" ++ d

unfoldable pub get_message : Args → Bytes
unfolding query_text path host or_else header_lines
get_message a =
    or_else a.method (codes "GET")
    ++ (codes " "
        ++ (path a
            ++ (query_text (data_arg a.rest)
                ++ (codes " HTTP/1.0\r\nHost: "
                    ++ (host a
                        ++ (codes "\r\n" ++ (header_lines (headers a.rest) ++ codes "\r\n")))))))

abbrev pub content_length : Option Bytes → Bytes
content_length none = []
content_length (some d) = codes "Content-Length: " ++ (decimal (length d) ++ codes "\r\n")

abbrev pub body : Option Bytes → Bytes
body none = []
body (some d) = d

unfoldable pub post_message : Args → Bytes
unfolding path host or_else header_lines
post_message a =
    or_else a.method (codes "POST")
    ++ (codes " "
        ++ (path a
            ++ (codes " HTTP/1.0\r\nHost: "
                ++ (host a
                    ++ (codes "\r\n"
                        ++ (header_lines (headers a.rest)
                            ++ (content_length (data_arg a.rest)
                                ++ (codes "\r\n" ++ body (data_arg a.rest)))))))))

-- `strchr(argv[5], ' ') != NULL`
has_space : Option Bytes → Bool
has_space none = false
has_space (some d) = elim (strstr d (codes " ")) [ none ↦ false | some n ↦ true ]

-- What the building ends in: a message, without its terminator, or an exit with status 0.
unfoldable pub build : Args → Option Bytes
unfolding is_get get_message post_message has_space
build a =
    if is_get a
    then if has_space (data_arg a.rest) then none else some (get_message a)
    else some (post_message a)
