-- ===== src/Main/Tests/Pages.antt =====
-- A request for a page, to a server with one.
use pwdmanlib.Base.{ℕ, false, some, List, [], ◌∷◌, ◌++◌, map, Bytes, codes, All}
use pwdmanlib.StringOps.{File, readable}
use pwdmanlib.Ssl.{got}
use pwdmanlib.Server.Parts.{Parts, request_text}
use pwdmanlib.Main.Serve.{Arrival}
use pwdmanlib.Main.Tests.{session}

abbrev pages : Bytes → File
pages path = readable (codes "<html>")

abbrev parts : Parts
parts = record {
  method = codes "GET";
  target = codes "/a";
  proto_first = b'H';
  proto_rest = codes "TTP/1.0";
  headers = [];
  body = [];
}

abbrev arrival : Arrival
arrival = record {
  sock = some 5;
  session = session;
  reads = map got ((request_text parts ++ 0 ∷ []) ∷ []) ++ got [] ∷ [];
  writes = [];
}
