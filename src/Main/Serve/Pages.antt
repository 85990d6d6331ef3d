-- ===== src/Main/Serve/Pages.antt =====
-- A client that asks the server for a page.
use pwdmanlib.Server.Parts.{Parts}
