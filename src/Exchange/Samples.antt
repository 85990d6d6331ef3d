-- ===== src/Exchange/Samples.antt =====
-- What the sample exchanges share: the session, its certificate and the files of the server.
use pwdmanlib.Base.{ℕ, ◌+◌, refl, true, List, [], ◌∷◌, Bytes, codes, none, some, arith}
use pwdmanlib.Vector.{pos}
use pwdmanlib.Validation.{Cert, common_name}
use pwdmanlib.StringOps.{File, readable}
use pwdmanlib.StringOps.Pieces.{lacks_test}
use pwdmanlib.Ssl.{ClientCalls}
use pwdmanlib.Ssl.Accept.{ServerCalls}
use pwdmanlib.Ssl.Session.{IsSecured}
use pwdmanlib.Client.{path}

abbrev pub room : ℕ → ℕ
room n = n + 24

abbrev pub given : List (Bytes × Bytes)
given = (codes "Accept", codes "x") ∷ []

abbrev pub cert : Cert
cert = record { subject = common_name (codes "devopsec.net"); san = none }

abbrev pub calls : ClientCalls
calls = record {
  ssl_init = true;
  crypto_init = true;
  ctx_new = true;
  load_verify_locations = pos 1;
  ssl_new = true;
  set_fd = pos 1;
  connect = pos 1;
  peer_certificate = some cert;
}

pub calls-IsSecured : IsSecured calls cert
calls-IsSecured = record {
  initialised = refl;
  crypto = refl;
  context = refl;
  loaded = refl;
  created = refl;
  attached = λ h. ground arith;
  connected = (1, omega arith, refl);
  presented = refl;
  certified = (
    codes "devopsec.net",
    refl,
    record { clean = lacks_test 0 (codes "devopsec.net") refl; same = refl },
  );
}

abbrev pub session : ServerCalls
session = record {
  ssl_init = true;
  crypto_init = true;
  ctx_new = true;
  use_certificate = pos 1;
  use_private_key = pos 1;
  check_private_key = pos 1;
  ssl_new = true;
  accept = pos 1;
}

abbrev pub files : Bytes → File
files path = readable (codes "<html>")

abbrev pub behind : Bytes
behind = 7 ∷ 8 ∷ 9 ∷ []
