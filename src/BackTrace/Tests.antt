-- ===== src/BackTrace/Tests.antt =====
-- demangle at the symbol of a C function: "a(f+0)".
use blue_thread.Prelude.{◌≡◌, ◌≢◌, [], ◌∷◌, Option, none, inl, arith, refl}
use blue_thread.BackTrace.{CString, demangle}
use blue_thread.BackTrace.Symbols.{symbol, demangle-readable, IsPlain}

abbrev no_demangler : CString → Option CString
no_demangler s = none

letter-IsPlain : IsPlain (102 ∷ [])
letter-IsPlain = ((λ e. absurd (omega (arith, e)), λ e. absurd (omega (arith, e))), tt)

rest-IsPlain : IsPlain (48 ∷ 41 ∷ [])
rest-IsPlain = (
  (λ e. absurd (omega (arith, e)), λ e. absurd (omega (arith, e))),
  ((λ e. absurd (omega (arith, e)), λ e. absurd (omega (arith, e))), tt),
)

abbrev letter : CString
letter = 102 ∷ []

is_text : letter ≢ []
is_text e = cc

demangle-readable_example :
    demangle no_demangler
      (symbol (102 ∷ []) (102 ∷ []) (48 ∷ 41 ∷ []) letter-IsPlain letter-IsPlain rest-IsPlain)
    ≡ 102 ∷ 40 ∷ 41 ∷ []
demangle-readable_example =
    demangle-readable (102 ∷ []) (102 ∷ []) (48 ∷ 41 ∷ []) letter-IsPlain letter-IsPlain
      rest-IsPlain no_demangler is_text none (inl refl)
