-- ===== src/Server/Process.antt =====
-- src/server/server.h: `child_sig_handler`, `isRoot` and `get_in_addr`.
use pwdmanlib.Base.{
  ℕ, zero, suc, ◌==◌, ◌≡◌, refl, ◌<◌, if◌then◌else◌, List, [], ◌∷◌, ◌++◌, map, All, Result, ok,
  spin, ◌>>=◌, arith,
}
use pwdmanlib.Vector.{CInt, pos, negsuc}

-- The loop over the results of `waitpid`: the children that it has reaped. While it goes on there are
-- results.
reap : List CInt → Result (List ℕ)
reap [] = spin
reap (negsuc n ∷ results) = ok []
reap (pos zero ∷ results) = ok []
reap (pos (suc n) ∷ results) = reap results >>= λ pids. ok (suc n ∷ pids)

-- The children, and `errno` afterwards: `waitpid` may have set it to `error`.
child_sig_handler : List CInt → ℕ → ℕ → Result (List ℕ × ℕ)
unfolding reap
child_sig_handler results errno error = reap results >>= λ pids. ok (pids, errno)

-- 0 for root, and -1.
is_root : ℕ → CInt
is_root uid = if uid == 0 then pos 0 else negsuc 0

-- Which part of the address is taken, by its family.
data InAddr : Type 0 where
  sin_addr sin6_addr : InAddr

-- `sa_family == AF_INET`, which is 2.
get_in_addr : ℕ → InAddr
get_in_addr family = if family == 2 then sin_addr else sin6_addr

reap_ends :
    (pids : List ℕ) (results : List CInt)
    → All (λ p. 0 < p) pids
    → reap (map pos pids ++ pos 0 ∷ results) ≡ ok pids
unfolding reap
reap_ends [] results h = refl
reap_ends (zero ∷ pids) results (l, h) = absurd (omega arith)
reap_ends (suc p ∷ pids) results (l, h) = rw (reap_ends pids results h) refl

-- The handler reaps every child that has ended, until `waitpid` has none to report, and leaves
-- `errno` as it was.
child_sig_handler-reaps :
    (pids : List ℕ) (results : List CInt) (errno error : ℕ)
    → All (λ p. 0 < p) pids
    → child_sig_handler (map pos pids ++ pos 0 ∷ results) errno error ≡ ok (pids, errno)
unfolding child_sig_handler
child_sig_handler-reaps pids results errno error h = rw (reap_ends pids results h) refl
