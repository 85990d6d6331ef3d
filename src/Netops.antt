-- ===== src/Netops.antt =====
-- src/util/netops.h. What the resolver answers comes as data: the addresses of a host as
-- `inet_ntoa` writes them, the status of `inet_pton` with the host of the address, and whether
-- `getnameinfo` succeeds on each address.
mod Tests
use pwdmanlib.Base.{
  ℕ, zero, suc, lt→ltb, ◌∙◌, ◌≡◌, ◌≢◌, ◌↔◌, ◌⊎◌, inl, inr, refl, ap, Bool, true, false, ◌||◌, ltb,
  leb, if◌then◌else◌, Option, none, some, List, [], ◌∷◌, length, Bytes, arith, Result, ok, fault,
  stop, out_of_bounds, uninitialised, invalid_free, ◌>>=◌, ◌<◌,
}
use pwdmanlib.Vector.{CInt, pos, negsuc}

-- `getIp` into a buffer of `room` bytes: what it returns, and what the buffer holds then if it was
-- written.
get_ip : ℕ → Option (List Bytes) → Result (CInt × Option Bytes)
get_ip room none = ok (negsuc 0, none)
get_ip room (some []) = ok (negsuc 0, none)
get_ip room (some (address ∷ addresses)) =
    if ltb (length address) room then ok (pos 0, some address) else fault out_of_bounds

-- `printf("%s resolved to %s", hostname, ip)`: the second text.
print_ip : Option Bytes → Result Bytes
print_ip none = fault uninitialised
print_ip (some ip) = ok ip

-- `main`, which does not look at what `get_ip` returns; `argv` without the name of the program.
netops_main : List Bytes → (Bytes → Option (List Bytes)) → Result Bytes
unfolding get_ip print_ip
netops_main [] gethostbyname = stop 1
netops_main (hostname ∷ args) gethostbyname =
    get_ip 100 (gethostbyname hostname) >>= λ (status, ip). print_ip ip

pub record Lookup : Type 0 where
  pub pton : CInt
  pub host : Option Bytes

-- What one half of `ip2Domain` settles; `none` goes on behind it.
look_up : CInt → Option Bytes → Option (CInt × Option Bytes)
look_up (pos (suc zero)) (some name) = some (pos 0, some name)
look_up (pos (suc zero)) none = none
look_up (pos zero) host = none
look_up (pos (suc (suc n))) host = none
look_up (negsuc zero) host = some (negsuc 0, none)
look_up (negsuc (suc n)) host = none

-- What is returned, and the name that is printed: the address is read as IPv4, then as IPv6.
ip2_domain : Lookup → Lookup → CInt × Option Bytes
unfolding look_up
ip2_domain v4 v6 = elim (look_up v4.pton v4.host) [
  | some answer ↦ answer
  | none ↦ elim (look_up v6.pton v6.host) [ some answer ↦ answer | none ↦ (negsuc 0, none) ]
]

-- Where `hostname` points.
data Hostname : Type 0 where
  heap literal : Hostname

-- The loop of `domain2IpRange`: a name would be written into the literal "".
range_loop : List Bool → Hostname → Result Hostname
range_loop [] hostname = ok hostname
range_loop (true ∷ results) hostname = fault out_of_bounds
range_loop (false ∷ results) hostname = range_loop results literal

-- `free(hostname)`
free_hostname : Hostname → Result CInt
free_hostname heap = ok (pos 0)
free_hostname literal = fault invalid_free

domain2_ip_range : Option (List Bool) → Result CInt
unfolding range_loop free_hostname
domain2_ip_range none = ok (negsuc 0)
domain2_ip_range (some results) = range_loop results heap >>= λ hostname. free_hostname hostname

-- The program prints the first address of a host that has one, if it is shorter than 100 bytes, and
-- otherwise reads a buffer that nothing was written to.
netops_main_lem :
    (hostname : Bytes) (args : List Bytes) (gethostbyname : Bytes → Option (List Bytes))
    → ((address : Bytes) (addresses : List Bytes)
        → gethostbyname hostname ≡ some (address ∷ addresses)
        → length address < 100)
    → netops_main (hostname ∷ args) gethostbyname ≡ (elim (gethostbyname hostname) [
      | none ↦ fault uninitialised
      | some addresses ↦ elim addresses [ [] ↦ fault uninitialised | address ∷ more ↦ ok address ]
    ])
unfolding netops_main
netops_main_lem hostname args gethostbyname small = by (gethostbyname hostname) refl
  where
    by :
        (r : Option (List Bytes))
        → gethostbyname hostname ≡ r
        → netops_main (hostname ∷ args) gethostbyname ≡ (elim r [
          | none ↦ fault uninitialised
          | some addresses ↦ elim addresses [
            | [] ↦ fault uninitialised
            | address ∷ more ↦ ok address
          ]
        ])
    by none e = rw e refl
    by (some []) e = rw e refl
    by (some (address ∷ addresses)) e = rw (e, lt→ltb _ _ (small address addresses e)) refl

pub any : List Bool → Bool
any [] = false
any (b ∷ bs) = b || any bs

if-fault :
    (b : Bool)
    → ((if b then fault out_of_bounds else ok literal) >>= λ hostname. free_hostname hostname)
      ≡ fault (if b then out_of_bounds else invalid_free)
unfolding free_hostname
if-fault true = refl
if-fault false = refl

range_loop-literal :
    (results : List Bool)
    → range_loop results literal ≡ (if any results then fault out_of_bounds else ok literal)
unfolding range_loop any
range_loop-literal [] = refl
range_loop-literal (true ∷ results) = refl
range_loop-literal (false ∷ results) = range_loop-literal results

range_loop-first :
    (result : Bool) (results : List Bool) (hostname : Hostname)
    → range_loop (result ∷ results) hostname
      ≡ (if any (result ∷ results) then fault out_of_bounds else ok literal)
unfolding range_loop any
range_loop-first true results hostname = refl
range_loop-first false results hostname = range_loop-literal results

-- `domain2IpRange` never ends well for a domain that has an address: the first name that is found is
-- written into a string literal, and where none is found the literal is freed.
domain2_ip_range_faults :
    (result : Bool) (results : List Bool)
    → domain2_ip_range (some (result ∷ results))
      ≡ fault (if any (result ∷ results) then out_of_bounds else invalid_free)
unfolding domain2_ip_range
domain2_ip_range_faults result results =
    ap (λ r. r >>= λ hostname. free_hostname hostname) (range_loop-first result results heap)
    ∙ if-fault (any (result ∷ results))

-- The first half, in front of what the second half answers.
look_up_iff :
    (pton : CInt) (host : Option Bytes) (rest : CInt × Option Bytes) (name : Bytes)
    → (elim (look_up pton host) [ some answer ↦ answer | none ↦ rest ] ≡ (pos 0, some name)) ↔ (
        ((pton ≡ pos 1) × (host ≡ some name))
        ⊎ ((pton ≢ negsuc 0) × ((pton ≢ pos 1) ⊎ (host ≡ none)) × (rest ≡ (pos 0, some name))))
unfolding look_up
look_up_iff (pos (suc zero)) (some host) rest name = (
  λ h. inl (refl, ap (λ p. p.1) h),
  λ h. elim h [ inl (p, e) ↦ ap (λ o. (pos 0, o)) e | inr (p, c, e) ↦ ground arith ],
)
look_up_iff (pos (suc zero)) none rest name = (
  λ h. inr (λ e. ground arith, inr refl, h),
  λ h. elim h [ inl (p, e) ↦ ground arith | inr (p, c, e) ↦ e ],
)
look_up_iff (pos zero) host rest name = (
  λ h. inr (λ e. ground arith, inl (λ e. ground arith), h),
  λ h. elim h [ inl (p, e) ↦ ground arith | inr (p, c, e) ↦ e ],
)
look_up_iff (pos (suc (suc n))) host rest name = (
  λ h. inr (λ e. ground arith, inl (λ e. ground arith), h),
  λ h. elim h [ inl (p, e) ↦ ground arith | inr (p, c, e) ↦ e ],
)
look_up_iff (negsuc zero) host rest name = (
  λ h. ground (arith, ap (λ p. p.0) h),
  λ h. elim h [ inl (p, e) ↦ ground arith | inr (p, c, e) ↦ absurd (p refl) ],
)
look_up_iff (negsuc (suc n)) host rest name = (
  λ h. inr (λ e. ground arith, inl (λ e. ground arith), h),
  λ h. elim h [ inl (p, e) ↦ ground arith | inr (p, c, e) ↦ e ],
)

abbrev second : Lookup → CInt × Option Bytes
second v6 = elim (look_up v6.pton v6.host) [ some answer ↦ answer | none ↦ (negsuc 0, none) ]

second_iff :
    (v6 : Lookup) (name : Bytes)
    → (second v6 ≡ (pos 0, some name)) ↔ ((v6.pton ≡ pos 1) × (v6.host ≡ some name))
second_iff v6 name =
    let both = look_up_iff v6.pton v6.host (negsuc 0, none) name in
    (
      λ h. elim (both.0 h) [ inl p ↦ p | inr (p, c, e) ↦ ground (arith, ap (λ p. p.0) e) ],
      λ h. both.1 (inl h),
    )

-- `ip2Domain` returns 0 exactly when it prints a name, and that is the name of the IPv4 address, or
-- where that reading did not fail with an error, that of the IPv6 address.
ip2_domain_iff :
    (v4 v6 : Lookup) (name : Bytes)
    → (ip2_domain v4 v6 ≡ (pos 0, some name)) ↔ (
        ((v4.pton ≡ pos 1) × (v4.host ≡ some name))
        ⊎ ((v4.pton ≢ negsuc 0)
            × ((v4.pton ≢ pos 1) ⊎ (v4.host ≡ none))
            × (v6.pton ≡ pos 1)
            × (v6.host ≡ some name)))
unfolding ip2_domain
ip2_domain_iff v4 v6 name =
    let first = look_up_iff v4.pton v4.host (second v6) name in
    let other = second_iff v6 name in
    (
      λ h. elim (first.0 h) [
        | inl p ↦ inl p
        | inr (p, c, e) ↦ inr (p, c, (other.0 e).0, (other.0 e).1)
      ],
      λ h. first.1 (elim h [ inl p ↦ inl p | inr (p, c, e, f) ↦ inr (p, c, other.1 (e, f)) ]),
    )
