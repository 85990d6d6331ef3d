-- ===== src/Client/OpenConnection.antt =====
-- src/client/client.h: `openConnection`.
use pwdmanlib.Base.{
  ℕ, ◌≡◌, refl, ltb, if◌then◌else◌, Option, none, some, List, [], ◌∷◌, Result, ok, fault,
  out_of_bounds, ◌⊎◌, inl, inr, Ends, ok-Ends, fault-Ends, if-Ends,
}
use pwdmanlib.Vector.{CInt, pos, negsuc}

-- The results of the calls of `openConnection`: the length of the host's address if there is a host,
-- the socket, and whether it connects.
pub record HostCalls : Type 0 where
  pub address_length : Option ℕ
  pub socket : CInt
  pub connect : CInt

-- `sockfd` is a descriptor: the address is copied to the four bytes of `s_addr`.
connect_socket : ℕ → ℕ → CInt → Result (CInt × List ℕ)
connect_socket len sockfd (negsuc e) =
    if ltb 4 len then fault out_of_bounds else ok (negsuc 0, sockfd ∷ [])
connect_socket len sockfd (pos n) =
    if ltb 4 len then fault out_of_bounds else ok (pos sockfd, sockfd ∷ [])

open_socket : ℕ → CInt → CInt → Result (CInt × List ℕ)
unfolding connect_socket
open_socket len (negsuc e) connect = ok (negsuc 0, [])
open_socket len (pos sockfd) connect = connect_socket len sockfd connect

-- What is returned, and the descriptors that are open then.
unfoldable pub open_connection : HostCalls → Result (CInt × List ℕ)
unfolding open_socket
open_connection c = elim c.address_length [
  | none ↦ ok (negsuc 0, [])
  | some len ↦ open_socket len c.socket c.connect
]

open_socket-Ends : (len : ℕ) (socket connect : CInt) → Ends (open_socket len socket connect)
unfolding open_socket connect_socket
open_socket-Ends len (negsuc e) connect = ok-Ends (negsuc 0, [])
open_socket-Ends len (pos sockfd) (negsuc e) =
    if-Ends (ltb 4 len) _ _ (fault-Ends out_of_bounds) (ok-Ends (negsuc 0, sockfd ∷ []))
open_socket-Ends len (pos sockfd) (pos n) =
    if-Ends (ltb 4 len) _ _ (fault-Ends out_of_bounds) (ok-Ends (pos sockfd, sockfd ∷ []))

pub open_connection-Ends : (c : HostCalls) → Ends (open_connection c)
open_connection-Ends c = by c.address_length refl
  where
    by : (length : Option ℕ) → c.address_length ≡ length → Ends (open_connection c)
    by none e = unfold open_connection in rw e (ok-Ends (negsuc 0, []))
    by (some len) e = unfold open_connection in rw e (open_socket-Ends len c.socket c.connect)

-- For a host with an IPv4 address and a socket, `openConnection` leaves the socket open whether it
-- returns it or, where the connection is refused, -1.
open_connection_leaks :
    (c : HostCalls) (sockfd : ℕ)
    → c.address_length ≡ some 4
    → c.socket ≡ pos sockfd
    → (r : CInt) × (open_connection c ≡ ok (r, sockfd ∷ []))
      × (((n : ℕ) × (c.connect ≡ pos n) × (r ≡ pos sockfd))
          ⊎ ((e : ℕ) × (c.connect ≡ negsuc e) × (r ≡ negsuc 0)))
open_connection_leaks c sockfd a s = by c.connect refl
  where
    by :
        (connect : CInt)
        → c.connect ≡ connect
        → (r : CInt) × (open_connection c ≡ ok (r, sockfd ∷ []))
          × (((n : ℕ) × (c.connect ≡ pos n) × (r ≡ pos sockfd))
              ⊎ ((e : ℕ) × (c.connect ≡ negsuc e) × (r ≡ negsuc 0)))
    by (pos n) h = (
      pos sockfd,
      (unfold open_connection open_socket connect_socket in rw (a, s, h) refl),
      inl (n, h, refl),
    )
    by (negsuc e) h = (
      negsuc 0,
      (unfold open_connection open_socket connect_socket in rw (a, s, h) refl),
      inr (e, h, refl),
    )
