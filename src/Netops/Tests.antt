-- ===== src/Netops/Tests.antt =====
-- The resolver's functions on concrete answers.
use pwdmanlib.Base.{◌≡◌, Option, none, some, List, [], ◌∷◌, Bytes, codes, length, ◌<◌, arith, subst}
use pwdmanlib.Vector.{pos}
use pwdmanlib.Netops.{Lookup}

abbrev local : Bytes → Option (List Bytes)
local hostname = some (codes "127.0.0.1" ∷ [])

first-some :
    (a b : Bytes) (more bs : List Bytes)
    → some (a ∷ more) ≡ some (b ∷ bs)
    → length a < 100
    → length b < 100
first-some a b more bs h l = subst (λ t. length t < 100) (ground (arith, h)) l

abbrev refused : Lookup
refused = record { pton = pos 0; host = none }

abbrev loopback : Lookup
loopback = record { pton = pos 1; host = some (codes "localhost") }
