-- ===== src/BackTrace.antt =====
-- synchronization/backtrace.h and backtrace.cc: captured call stacks, and demangle. `backtrace` and
-- `backtrace_symbols` of the C library are not modelled: their strings are an argument.
pub mod Symbols
mod Tests
use blue_thread.Prelude.{
  ℕ, zero, suc, ◌+◌, ◌-◌, List, [], ◌∷◌, ◌++◌, Option, none, some, Bool, true, false, ◌&&◌, ltb,
  ◌==◌, if◌then◌else◌,
}

-- A C string as its characters, without the terminator.
abbrev pub CString : Type 0
CString = List ℕ

pub record BackTrace : Type 0 where
  pub strings : List CString
  pub skip : ℕ

-- The characters that demangle and print look for.
abbrev pub open_char : ℕ
open_char = 40

abbrev pub plus_char : ℕ
plus_char = 43

-- The positions `begin` and `end`, as numbers from the start of the name.
abbrev pub Marks : Type 0
Marks = Option ℕ × Option ℕ

-- The body of the loop over the characters.
unfoldable pub note : ℕ → ℕ → Marks → Marks
note c i (begin, end) =
    if c == open_char
    then (some (i + 1), end)
    else if c == plus_char
    then (begin, some i)
    else (begin, end)

unfoldable pub scan : CString → ℕ → Marks → Marks
scan [] i m = m
scan (c ∷ cs) i m = scan cs (suc i) (note c i m)

unfoldable pub drop : ℕ → CString → CString
drop zero s = s
drop (suc n) [] = []
drop (suc n) (c ∷ cs) = drop n cs

unfoldable pub take : ℕ → CString → CString
take zero s = []
take (suc n) [] = []
take (suc n) (c ∷ cs) = c ∷ take n cs

-- mangled.compare(0, 2, "_Z") == 0
unfoldable pub is_mangled : CString → Bool
is_mangled (a ∷ b ∷ cs) = a == 95 && b == 90
is_mangled _ = false

-- The text for `mangled`, with what follows it from `end` on. `cxa_demangle` is abi::__cxa_demangle,
-- with `none` for a status that is not 0.
unfoldable pub readable : (CString → Option CString) → CString → CString → CString
readable cxa_demangle mangled end =
    let plain = mangled ++ 40 ∷ 41 ∷ [] in
    if is_mangled mangled
    then elim (cxa_demangle mangled) [ none ↦ plain | some demangled ↦ 40 ∷ demangled ++ end ]
    else plain

unfoldable pub demangle_at : (CString → Option CString) → CString → Marks → CString
unfolding readable
demangle_at cxa_demangle name (some begin, some end) =
    if ltb begin end
    then readable cxa_demangle (take (end - begin) (drop begin name)) (drop end name)
    else name
demangle_at cxa_demangle name _ = name

unfoldable pub demangle : (CString → Option CString) → CString → CString
unfolding demangle_at
demangle cxa_demangle name = demangle_at cxa_demangle name (scan name 0 (none, none))
