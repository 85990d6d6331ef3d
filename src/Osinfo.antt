-- ===== src/Osinfo.antt =====
-- src/util/osinfo.c: `get_absolute_path`. What `realpath`, the command `which` and `readlink` give
-- comes as functions of the path and of the command.
mod Tests
use pwdmanlib.Base.{
  ℕ, ◌-◌, ◌≡◌, ◌≢◌, ◌↔◌, ◌⊎◌, inl, inr, refl, ap, ap₂, sym, stop, spin, ◌∙◌, Bool, true, false,
  Option, none, some, List, [], ◌∷◌, ◌++◌, length, take, Bytes, codes, Result, ok, fault,
  null_pointer, out_of_bounds, uninitialised, ◌>>=◌, length-append, arith, suc, zero, ◌+◌,
}

-- The calls: `popen` gives no stream, or a stream from which `fgets` reads nothing or a first line.
pub record System : Type 0 where
  pub realpath : Bytes → Option Bytes
  pub popen : Bytes → Option (Option Bytes)
  pub readlink : Bytes → Option Bytes

-- The path that is returned, and whether `set_environ_flag` was set.
pub record AbsolutePath : Type 0 where
  pub abs_path : Bytes
  pub set_environ_flag : Bool

-- `abs_path[strlen(abs_path)-1] = '\0'`
chop : Bytes → Result Bytes
chop [] = fault out_of_bounds
chop (c ∷ line) = ok (take (length line) (c ∷ line))

-- `readlink` ends what it writes with no terminator, and the buffer was never written before: the
-- `strlen` behind it reads on.
follow_link : Option Bytes → Bytes → Result AbsolutePath
follow_link (some target) relativepath = fault uninitialised
follow_link none relativepath = ok (record { abs_path = relativepath; set_environ_flag = true })

-- What the output of `which` comes to; `fgets` of no stream reads through NULL.
ask_which : Option (Option Bytes) → Option Bytes → Bytes → Result AbsolutePath
unfolding chop follow_link
ask_which none link relativepath = fault null_pointer
ask_which (some (some line)) link relativepath =
    chop line >>= λ path. ok (record { abs_path = path; set_environ_flag = false })
ask_which (some none) link relativepath = follow_link link relativepath

pub get_absolute_path : System → Bytes → Result AbsolutePath
unfolding ask_which
get_absolute_path s relativepath = elim (s.realpath relativepath) [
  | some path ↦ ok (record { abs_path = path; set_environ_flag = false })
  | none ↦
      ask_which (s.popen (codes "which " ++ relativepath)) (s.readlink relativepath) relativepath
]

take-all : (line rest : Bytes) → take (length line) (line ++ rest) ≡ line
take-all [] rest = refl
take-all (c ∷ line) rest = ap (λ t. c ∷ t) (take-all line rest)

ok-inj : (a b : Bytes) → ok a ≡ ok b → a ≡ b
ok-inj a b h = ground arith

last-of : (c : ℕ) (line : Bytes) → (d : ℕ) × (c ∷ line ≡ take (length line) (c ∷ line) ++ d ∷ [])
last-of c [] = (c, refl)
last-of c (e ∷ line) = let (d, p) = last-of e line in (d, ap (λ t. c ∷ t) p)

chop-line : (line : Bytes) (c : ℕ) → chop (line ++ c ∷ []) ≡ ok line
unfolding chop
chop-line [] c = refl
chop-line (d ∷ line) c =
    let n : length (line ++ c ∷ []) ≡ suc (length line) =
      omega (arith, length-append line (c ∷ [])) in
    rw n (ap (λ t. ok (d ∷ t)) (take-all line (c ∷ [])))

some-inj : (a b : Bytes) → some a ≡ some b → a ≡ b
some-inj a b h = ground arith

lines-inj :
    (a : Bytes) (d : ℕ) (b : Bytes) → some (some b) ≡ some (some (a ++ d ∷ [])) → a ++ d ∷ [] ≡ b
lines-inj a d b h = ground arith

snoc-nonempty : (a : Bytes) (d : ℕ) → a ++ d ∷ [] ≢ []
snoc-nonempty [] d h = ground arith
snoc-nonempty (c ∷ a) d h = ground arith

abbrev found : Bytes → Bool → Result AbsolutePath
found path flag = ok (record { abs_path = path; set_environ_flag = flag })

abbrev path_of : Result AbsolutePath → Bytes
path_of (ok f) = f.abs_path
path_of (fault e) = []
path_of (stop n) = []
path_of spin = []

abbrev flag_of : Result AbsolutePath → Bool
flag_of (ok f) = f.set_environ_flag
flag_of (fault e) = false
flag_of (stop n) = false
flag_of spin = false

found-inj : (p q : Bytes) (b c : Bool) → found p b ≡ found q c → (p ≡ q) × (b ≡ c)
found-inj p q b c h = (ap path_of h, ap flag_of h)

-- What the three calls can have given for a path to be returned.
Tries : Option Bytes → Option (Option Bytes) → Option Bytes → Bytes → Bytes → Bool → Type 0
Tries real which link relativepath path flag =
    ((real ≡ some path) × (flag ≡ false))
    ⊎ ((real ≡ none) × ((c : ℕ) × (which ≡ some (some (path ++ c ∷ [])))) × (flag ≡ false))
    ⊎ ((real ≡ none) × (which ≡ some none) × (link ≡ none) × (path ≡ relativepath) × (flag ≡ true))

found_iff :
    (real : Option Bytes) (which : Option (Option Bytes)) (link : Option Bytes)
    (relativepath path : Bytes) (flag : Bool)
    → (elim real [ some p ↦ found p false | none ↦ ask_which which link relativepath ]
        ≡ found path flag)
      ↔ Tries real which link relativepath path flag
unfolding ask_which follow_link Tries
found_iff (some real) which link relativepath path flag = (
  λ h. let (p, f) = found-inj real path false flag h in inl (ap some p, sym f),
  λ t. elim t [
    | inl (e, f) ↦ ap₂ found (some-inj real path e) (sym f)
    | inr (inl (e, w, f)) ↦ ground arith
    | inr (inr (e, w, l, p, f)) ↦ ground arith
  ],
)
found_iff none none link relativepath path flag = (
  λ h. ground arith,
  λ t. elim t [
    | inl (e, f) ↦ ground arith
    | inr (inl (e, (d, w), f)) ↦ ground arith
    | inr (inr (e, w, l, p, f)) ↦ ground arith
  ],
)
found_iff none (some (some [])) link relativepath path flag = (
  λ h. ground arith,
  λ t. elim t [
    | inl (e, f) ↦ ground arith
    | inr (inl (e, (d, w), f)) ↦ absurd (snoc-nonempty path d (lines-inj path d [] w))
    | inr (inr (e, w, l, p, f)) ↦ ground arith
  ],
)
found_iff none (some (some (c ∷ line))) link relativepath path flag = (
  λ h.
      let (p, f) = found-inj (take (length line) (c ∷ line)) path false flag h in
      let (d, e) = last-of c line in
      inr (inl (refl, (d, ap (λ t. some (some t)) (e ∙ ap (λ t. t ++ d ∷ []) p)), sym f)),
  λ t. elim t [
    | inl (e, f) ↦ ground arith
    | inr (inl (e, (d, w), f)) ↦
        ap₂ found (ok-inj _ _ (ap chop (sym (lines-inj path d (c ∷ line) w)) ∙ chop-line path d))
          (sym f)
    | inr (inr (e, w, l, p, f)) ↦ ground arith
  ],
)
found_iff none (some none) (some link) relativepath path flag = (
  λ h. ground arith,
  λ t. elim t [
    | inl (e, f) ↦ ground arith
    | inr (inl (e, (d, w), f)) ↦ ground arith
    | inr (inr (e, w, l, p, f)) ↦ ground arith
  ],
)
found_iff none (some none) none relativepath path flag = (
  λ h.
      let (p, f) = found-inj relativepath path true flag h in
      inr (inr (refl, refl, refl, sym p, sym f)),
  λ t. elim t [
    | inl (e, f) ↦ ground arith
    | inr (inl (e, (d, w), f)) ↦ ground arith
    | inr (inr (e, w, l, p, f)) ↦ ap₂ found (sym p) (sym f)
  ],
)

-- When a path is returned: that of `realpath`; or without it the first line of `which` less its last
-- byte, whatever that is; or where `which` prints nothing and the path is no link, the given path,
-- and only then the flag is set.
get_absolute_path_iff :
    (s : System) (relativepath path : Bytes) (flag : Bool)
    → (get_absolute_path s relativepath ≡ ok (record { abs_path = path; set_environ_flag = flag }))
      ↔ (((s.realpath relativepath ≡ some path) × (flag ≡ false))
          ⊎ ((s.realpath relativepath ≡ none)
              × ((c : ℕ) × (s.popen (codes "which " ++ relativepath)
                    ≡ some (some (path ++ c ∷ []))))
              × (flag ≡ false))
          ⊎ ((s.realpath relativepath ≡ none)
              × (s.popen (codes "which " ++ relativepath) ≡ some none)
              × (s.readlink relativepath ≡ none)
              × (path ≡ relativepath)
              × (flag ≡ true)))
get_absolute_path_iff s relativepath path flag =
    unfold get_absolute_path in
    (unfold Tries in
      found_iff (s.realpath relativepath) (s.popen (codes "which " ++ relativepath))
        (s.readlink relativepath) relativepath path flag)
