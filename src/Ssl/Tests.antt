-- ===== src/Ssl/Tests.antt =====
-- The transfers and the session on concrete results of the calls.
use pwdmanlib.Base.{
  ◌≡◌, ◌↔◌, refl, true, some, List, [], ◌∷◌, ◌++◌, map, replicate, take, Bytes, codes, ok, spin,
  arith,
}
use pwdmanlib.Vector.{pos, negsuc}
use pwdmanlib.Validation.{Cert, dns, no_entry}
use pwdmanlib.Ssl.{sendall, got, failed, readall, ClientCalls, established, config_client_ssl}
use pwdmanlib.Ssl.Send.{total_of, sendall_complete, sendall_fails, sendall_zero_writes}
use pwdmanlib.Ssl.Receive.{concat, readall_stores}
use pwdmanlib.Ssl.Session.{IsSecured, config_client_ssl_established}

sendall_complete_example :
    sendall (map pos (2 ∷ 3 ∷ [])) (codes "hello") 5
    ≡ ok (record { status = pos 0; len = 5; wire = take 5 (codes "hello") })
sendall_complete_example =
    sendall_complete (codes "hello") 5 2 (3 ∷ [])
      (omega arith, omega arith, (omega arith, omega arith, tt)) refl

sendall_fails_example :
    sendall (map pos (2 ∷ []) ++ negsuc 0 ∷ []) (codes "hello") 5
    ≡ ok (record {
      status = negsuc 0;
      len = total_of (2 ∷ []);
      wire = take (total_of (2 ∷ [])) (codes "hello");
    })
sendall_fails_example =
    sendall_fails (codes "hello") 5 0 (2 ∷ []) [] (omega arith, omega arith, tt) (omega arith)

sendall_zero_writes_example :
    sendall (map pos (2 ∷ []) ++ replicate 50 (pos 0)) (codes "hello") 5 ≡ spin
sendall_zero_writes_example =
    sendall_zero_writes (codes "hello") 5 50 (2 ∷ []) (omega arith, omega arith, tt) (omega arith)

abbrev chunks : List Bytes
chunks = codes "GET " ∷ codes "/" ∷ []

readall_stores_example :
    (readall 87380 (map got chunks ++ got [] ∷ []) ≡ ok (pos 0, concat chunks))
    × (readall 87380 (map got chunks ++ failed 0 ∷ []) ≡ ok (negsuc 0, concat chunks))
readall_stores_example =
    readall_stores 87380 chunks [] 0 (omega arith, (omega arith, tt)) (omega arith) (omega arith)

abbrev cert : Cert
cert = record { subject = no_entry; san = some (dns (codes "devopsec.net") ∷ []) }

abbrev calls : ClientCalls
calls = record {
  ssl_init = true;
  crypto_init = true;
  ctx_new = true;
  load_verify_locations = pos 1;
  ssl_new = true;
  set_fd = pos 1;
  connect = pos 1;
  peer_certificate = some cert;
}

config_client_ssl_established_example :
    (config_client_ssl calls ≡ established cert) ↔ IsSecured calls cert
config_client_ssl_established_example = config_client_ssl_established calls cert
