-- ===== src/Client/Send/Termination.antt =====
-- The exchange of the client ends.
use pwdmanlib.Base.{
  ℕ, ◌==◌, length, List, Bytes, c_str, out_of_bounds, Ends, ok-Ends, fault-Ends, bind-Ends, if-Ends,
}
use pwdmanlib.Vector.{CInt, pos, negsuc}
use pwdmanlib.Ssl.{
  ClientCalls, Connection, established, exited, crashed, config_client_ssl, Read,
  sock_buff_def_read,
}
use pwdmanlib.Ssl.Termination.{Closes, Drains, readall-Ends, sendall-Ends}
use pwdmanlib.Client.Send.{print_response, received, receive, exchange, run_client}

received-Ends : (wire : Bytes) (r : CInt × Bytes) → Ends (received wire r)
unfolding received print_response
received-Ends wire (negsuc k, response) = ok-Ends _
received-Ends wire (pos n, response) =
    if-Ends (length (c_str response) == sock_buff_def_read) _ _ (fault-Ends out_of_bounds)
      (ok-Ends _)

receive-Ends :
    (reads : List Read) (n : CInt) (wire : Bytes) → Closes reads → Ends (receive reads n wire)
unfolding receive
receive-Ends reads (negsuc k) wire h = ok-Ends _
receive-Ends reads (pos n) wire h =
    bind-Ends _ _ (readall-Ends sock_buff_def_read reads h) (λ r. received-Ends wire r)

exchange-Ends :
    (c : Connection) (writes : List CInt) (reads : List Read) (memory : Bytes) (size : ℕ)
    → Drains writes size
    → Closes reads
    → Ends (exchange c writes reads memory size)
unfolding exchange
exchange-Ends (exited cleanup) writes reads memory size drains closes = ok-Ends _
exchange-Ends (crashed e) writes reads memory size drains closes = fault-Ends e
exchange-Ends (established cert) writes reads memory size drains closes =
    bind-Ends _ _ (sendall-Ends writes memory size drains)
      (λ s. receive-Ends reads s.status s.wire closes)

pub run_client-Ends :
    (calls : ClientCalls) (writes : List CInt) (reads : List Read) (memory : Bytes) (size : ℕ)
    → Drains writes size
    → Closes reads
    → Ends (run_client calls writes reads memory size)
unfolding run_client
run_client-Ends calls writes reads memory size drains closes =
    exchange-Ends (config_client_ssl calls) writes reads memory size drains closes
