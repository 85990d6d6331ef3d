-- ===== src/Programs/Signals.antt =====
-- src/test/oop_test.c: what its handler of signals prints and how it ends, the trace of the stack, and
-- the command that looks up a line of the code.
use pwdmanlib.Base.{
  ℕ, zero, suc, ◌≤◌, ◌≡◌, refl, Bool, true, false, ltb, if◌then◌else◌, Option, none, some, List, [],
  ◌∷◌, ◌++◌, length, length-append, take, Bytes, codes, Result, ok, fault, stop, null_pointer,
  out_of_bounds, ◌>>=◌, arith,
}
use pwdmanlib.Base.{lt→ltb}

-- The signals that the handler tells apart; `si_code` comes with two of them.
pub data Fpe : Type 0 where
  int_div int_ovf flt_div flt_ovf flt_und flt_res flt_inv flt_sub other_fpe : Fpe

pub data Ill : Type 0 where
  ill_opc ill_opn ill_adr ill_trp prv_opc prv_reg coproc bad_stk other_ill : Ill

pub data Caught : Type 0 where
  sig_hup sig_int sig_quit sig_segv sig_abrt sig_term unknown : Caught
  sig_fpe : Fpe → Caught
  sig_ill : Ill → Caught

fpe_text : Fpe → Bytes
fpe_text int_div = codes "Caught SIGFPE: (integer divide by zero)\n"
fpe_text int_ovf = codes "Caught SIGFPE: (integer overflow)\n"
fpe_text flt_div = codes "Caught SIGFPE: (floating-point divide by zero)\n"
fpe_text flt_ovf = codes "Caught SIGFPE: (floating-point overflow)\n"
fpe_text flt_und = codes "Caught SIGFPE: (floating-point underflow)\n"
fpe_text flt_res = codes "Caught SIGFPE: (floating-point inexact result)\n"
fpe_text flt_inv = codes "Caught SIGFPE: (floating-point invalid operation)\n"
fpe_text flt_sub = codes "Caught SIGFPE: (subscript out of range)\n"
fpe_text other_fpe = codes "Caught SIGFPE: Arithmetic Exception\n"

ill_text : Ill → Bytes
ill_text ill_opc = codes "Caught SIGILL: (illegal opcode)\n"
ill_text ill_opn = codes "Caught SIGILL: (illegal operand)\n"
ill_text ill_adr = codes "Caught SIGILL: (illegal addressing mode)\n"
ill_text ill_trp = codes "Caught SIGILL: (illegal trap)\n"
ill_text prv_opc = codes "Caught SIGILL: (privileged opcode)\n"
ill_text prv_reg = codes "Caught SIGILL: (privileged register)\n"
ill_text coproc = codes "Caught SIGILL: (coprocessor error)\n"
ill_text bad_stk = codes "Caught SIGILL: (internal stack error)\n"
ill_text other_ill = codes "Caught SIGILL: Illegal Instruction\n"

-- `"addr2line -f -p -e %.256s %p"`, with the text that `%p` gives for the address.
addr2line_cmd : Bytes → Bytes → Bytes
addr2line_cmd prog_name addr =
    codes "addr2line -f -p -e " ++ (take 256 prog_name ++ (codes " " ++ addr))

-- The command is written with its terminator into 512 bytes; what `system` makes of it is returned.
addr2line : (Bytes → Bool) → Bytes → Bytes → Result Bool
unfolding addr2line_cmd
addr2line system prog_name addr =
    if ltb (length (addr2line_cmd prog_name addr)) 512
    then ok (system (addr2line_cmd prog_name addr))
    else fault out_of_bounds

-- The trace: the frames whose line could not be found. `PWD` may be missing.
print_frames : (Bytes → Bool) → Bytes → List Bytes → Result (List Bytes)
unfolding addr2line
print_frames system prog_name [] = ok []
print_frames system prog_name (frame ∷ frames) = do
  found ← addr2line system prog_name frame
  rest ← print_frames system prog_name frames
  ok (if found then rest else frame ∷ rest)

print_stack_trace : (Bytes → Bool) → Option Bytes → List Bytes → Result (List Bytes)
unfolding print_frames
print_stack_trace system none frames = elim frames [
  | [] ↦ ok []
  | frame ∷ rest ↦ fault null_pointer
]
print_stack_trace system (some pwd) frames = print_frames system pwd frames

-- How the handler ends: what it printed before, and its status, where -2 is 254 and so on.
handled : Caught → List Bytes × Option ℕ
unfolding fpe_text ill_text
handled sig_hup = (codes "\nSIGHUP" ∷ [], some 254)
handled sig_int = (codes "\nSIGINT" ∷ [], some 253)
handled sig_quit = (codes "\nSIGQUIT" ∷ [], some 252)
handled sig_segv = (codes "\nSIGSEGV" ∷ [], some 251)
handled sig_abrt = (codes "\nSIGABRT" ∷ [], some 250)
handled (sig_fpe code) = (fpe_text code ∷ codes "\nSIGFPE" ∷ [], some 249)
handled (sig_ill code) = (ill_text code ∷ codes "\nSIGILL" ∷ [], some 248)
handled sig_term = (codes "\nSIGTERM" ∷ [], some 247)
handled unknown = (codes "\nUnknown signal caught" ∷ [], none)

-- Only an unknown signal gets to the trace, and to `_Exit(1)`.
unfoldable pub oop_sig_handler : (Bytes → Bool) → Option Bytes → List Bytes → Caught → Result ℕ
unfolding handled print_stack_trace
oop_sig_handler system pwd frames caught = elim (handled caught).1 [
  | some status ↦ ok status
  | none ↦ (print_stack_trace system pwd frames >>= λ lost. ok 1)
]

-- The alternate stack, and then the handlers one by one until one is refused: `err` ends the program
-- with status 1.
install : List Bool → Result (Unit {0})
install [] = ok tt
install (true ∷ rest) = install rest
install (false ∷ rest) = stop 1

oop_set_sig_handler : Bool → List Bool → Result (Unit {0})
unfolding install
oop_set_sig_handler stack actions = if stack then install actions else stop 1

length-take-le : (n : ℕ) (s : Bytes) → length (take n s) ≤ n
length-take-le zero s = omega arith
length-take-le (suc n) [] = omega arith
length-take-le (suc n) (c ∷ s) = omega (arith, length-take-le n s)

-- Whatever the name of the program, the command fits its buffer, with an address of at most 235
-- characters.
addr2line_fits :
    (system : Bytes → Bool) (prog_name addr : Bytes)
    → length addr ≤ 235
    → addr2line system prog_name addr ≡ ok (system (addr2line_cmd prog_name addr))
unfolding addr2line addr2line_cmd
addr2line_fits system prog_name addr h =
    let rest = codes " " ++ addr in
    let n : ltb (length (codes "addr2line -f -p -e " ++ (take 256 prog_name ++ rest))) 512 ≡ true =
      lt→ltb _ _ (
        omega (
          arith,
          length-append (codes "addr2line -f -p -e ") (take 256 prog_name ++ rest),
          length-append (take 256 prog_name) rest,
          length-append (codes " ") addr,
          length-take-le 256 prog_name,
        )) in
    rw n refl
