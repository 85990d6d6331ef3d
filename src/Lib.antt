-- ===== src/Lib.antt =====
-- pwdmanlib, a password manager in C: a server that checks and stores credentials, a client, and the
-- headers that both include.
--
-- The parts, with the files that model them. Base holds what they share: tests on numbers, lists,
-- C strings with their library functions, and the result of a call.
-- - src/util/vector.c, src/util/vector.h: Vector, Vector/Increment. Two growing arrays of ints.
--   Vector/Growing is the interface of both, which its clients Vector/Growing/Runs and
--   Vector/Growing/Sample (src/test/vector-test.c) take as a parameter.
-- - src/util/stringops.h: StringOps. Splitting, numerals, reversal, paths and files.
-- - src/util/oop.h: Dict. The dictionary of static size. Dict/Assoc is the list of bindings that it
--   stands for, and Dict/View those bindings up to what cannot be looked up, as a quotient.
--   Stack is its stacks, whose operations are called through a table of functions.
-- - src/server/fawkes_proto.h: Fawkes. The information byte of a request.
-- - src/server/response.h: Response. The texts of the responses and the filling of a template.
-- - src/server/server.h: Server (the parsers), Server/Route (routeClient), Server/Respond (respond),
--   Server/Startup (start_server and the signal handlers) and Server/Process (small system calls). A
--   request is read by readall of Ssl, split by strsplit of StringOps, kept in dictionaries of Dict,
--   summed up in the byte of Fawkes, and routed.
-- - src/server/server.c: Main (what main settles before it starts the server), Main/Serve (its loop over
--   the clients as steps, with the signals between them), Main/Serve/Runs (the loop as a function) and
--   Main/Program (main as a whole, without signals; Main/Program/Waits and Main/Program/Stops tell what
--   it has done when it waits, and what ends it). Main/Serve/Pages is about a request for a page. The
--   modules named Termination follow the loops down into the parsers and the transfers.
-- - src/validation/openssl_validation.h: Validation. The check of the peer's certificate.
-- - src/crypto/ssl_funcs.h: Ssl (the session of the client, which relies on Validation, and the two
--   transfers), Ssl/Accept (the session of the server), Ssl/Shutdown (what releases them) and
--   Ssl/Report (what is printed).
-- - src/client/client_v2.c: Client (the message and the size of its allocation), Client/Send (its
--   exchange over the session and the transfers of Ssl) and Client/Program (main as a whole, on Linux).
-- - src/client/client.c, src/client/client.h: Client/Start (the older client's main) and
--   Client/Connection (its connection); Client/OpenConnection is openConnection.
-- - src/util/arithmetic.h: Arithmetic. Fermat's test and the search for a prime; Arithmetic/Power is its
--   square and multiply loop, and Arithmetic/Binomial the theory of primes that the test rests on. The
--   numbers of rand are a stream.
-- - src/util/netops.h: Netops. src/util/osinfo.c: Osinfo.
-- - src/test and the sample src/server/server_socket.c: Programs, and Database/Sample for
--   src/test/db_test.c.
-- - Exchange puts the client and the server together: Exchange/Get and Exchange/Post read the client's
--   messages with the server's parser, and Exchange/Waiting runs the two programs against each other.
-- - src/db/database.h: Database. The calls of libpq with what they acquire and release. In
--   Database/Accounts the server of the database is a parameter with the documented behaviour of the
--   statements that the program sends.
--
-- A function of the code is the definition of the same name in snake case; a parameter that it writes
-- through is part of what the definition returns. Undefined behaviour, exit and a loop that never ends are
-- values of Result. Widths are written out. OpenSSL, libpq and the operating system are not part of
-- the program: the results of their calls are arguments, in the order of the calls. room n is the
-- memory that an allocation of n bytes gives, since several functions write behind what they asked
-- for; nulls is whether memory that was not written yet reads as NULL; allocations succeed.
--
-- Loops that are not structural run on fuel: one step for each byte of the text in strsplit and in the
-- reversal, 32 for the digits of an int, 10 for those of a content length, and an argument in
-- set_at, whose theorem bounds it. The loop over the bits of an exponent has 32 steps, one more than an
-- int has bits, and the search for a prime as many as the theorem needs candidates. The loops
-- over the results of calls take one step for each result.
--
-- Not modelled: the hash map of src/util/oop.h and src/util/oop.c, which is declared and has no bodies;
-- the branch of src/client/client_v2.c for Windows, which uses a variable that it does not declare;
-- printing for debugging; the measuring of time, which is done in floating point; the windows of src/gui
-- and generated files.
pub mod Arithmetic
pub mod Stack
pub mod Base
pub mod Fawkes
pub mod Dict
pub mod Vector
pub mod StringOps
pub mod Validation
pub mod Ssl
pub mod Response
pub mod Server
pub mod Main
pub mod Client
pub mod Database
pub mod Netops
pub mod Osinfo
pub mod Exchange
pub mod Programs
