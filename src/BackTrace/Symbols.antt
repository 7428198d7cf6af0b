-- ===== src/BackTrace/Symbols.antt =====
-- demangle on the symbols that backtrace_symbols gives: file(function+offset) [address].
use blue_thread.Prelude.{
  ℕ, zero, suc, ◌+◌, ◌-◌, ◌≡◌, ◌≢◌, refl, [], ◌∷◌, ◌++◌, Option, none, some, true, length, All, ltb,
  lt→ltb, ◌<◌, arith, ◌⊎◌, inl, inr, Bool-cases, ◌==◌, ==_iff, false,
}
use blue_thread.BackTrace.{
  CString, Marks, open_char, plus_char, note, scan, drop, take, is_mangled, readable, demangle_at,
  demangle,
}

abbrev pub IsPlain : CString → Type 0
IsPlain s = All (λ c. (c ≢ open_char) × (c ≢ plus_char)) s

scan_plain :
    (xs ys : CString) (i j : ℕ) (m : Marks)
    → IsPlain xs
    → j ≡ length xs + i
    → scan (xs ++ ys) i m ≡ scan ys j m
unfolding scan note
scan_plain [] ys i j m h e = let same : j ≡ i = omega arith in rw same refl
scan_plain (x ∷ xs) ys i j (b, d) h e =
    ground (arith, scan_plain xs ys (suc i) j (b, d) h.1 (omega arith), h.0)

drop_plain : (xs ys : CString) (n : ℕ) → n ≡ length xs → drop n (xs ++ ys) ≡ ys
unfolding drop
drop_plain [] ys zero e = refl
drop_plain [] ys (suc n) e = absurd (omega arith)
drop_plain (x ∷ xs) ys zero e = absurd (omega arith)
drop_plain (x ∷ xs) ys (suc n) e = drop_plain xs ys n (omega arith)

take_plain : (xs ys : CString) (n : ℕ) → n ≡ length xs → take n (xs ++ ys) ≡ xs
unfolding take
take_plain [] ys zero e = refl
take_plain [] ys (suc n) e = absurd (omega arith)
take_plain (x ∷ xs) ys zero e = absurd (omega arith)
take_plain (x ∷ xs) ys (suc n) e = rw (take_plain xs ys n (omega arith)) refl

drop_open : (xs ys : CString) (n : ℕ) → n ≡ length xs + 1 → drop n (xs ++ open_char ∷ ys) ≡ ys
unfolding drop
drop_open [] ys zero e = absurd (omega arith)
drop_open [] ys (suc zero) e = refl
drop_open [] ys (suc (suc n)) e = absurd (omega arith)
drop_open (x ∷ xs) ys zero e = absurd (omega arith)
drop_open (x ∷ xs) ys (suc n) e = drop_open xs ys n (omega arith)

drop_more :
    (xs ys : CString) (n k : ℕ) → n ≡ length xs + 1 + k → drop n (xs ++ open_char ∷ ys) ≡ drop k ys
unfolding drop
drop_more [] ys zero k e = absurd (omega arith)
drop_more [] ys (suc n) k e = let same : n ≡ k = omega arith in rw same refl
drop_more (x ∷ xs) ys zero k e = absurd (omega arith)
drop_more (x ∷ xs) ys (suc n) k e = drop_more xs ys n k (omega arith)

nonempty : (s : CString) → s ≢ [] → 0 < length s
nonempty [] h = absurd (h refl)
nonempty (c ∷ cs) h = omega arith

scan_rest : (xs : CString) (i : ℕ) (m : Marks) → IsPlain xs → scan xs i m ≡ m
unfolding scan note
scan_rest [] i m h = refl
scan_rest (x ∷ xs) i (b, d) h = ground (arith, scan_rest xs (suc i) (b, d) h.1, h.0)

-- The C++ name of a function, if it has one: it starts with _Z, and __cxa_demangle knows it.
abbrev pub IsKnownAs : (CString → Option CString) → CString → Option CString → Type 0
IsKnownAs cxa_demangle func (some d) =
    ((cs : CString) × (func ≡ 95 ∷ 90 ∷ cs)) × (cxa_demangle func ≡ some d)
IsKnownAs cxa_demangle func none =
    (cxa_demangle func ≡ none) ⊎ ((cs : CString) → func ≢ 95 ∷ 90 ∷ cs)

-- (name+rest for a known name, and func() for any other function.
abbrev pub printed : Option CString → CString → CString → CString
printed (some d) func rest = 40 ∷ d ++ 43 ∷ rest
printed none func rest = func ++ 40 ∷ 41 ∷ []

not_mangled : (s : CString) → ((cs : CString) → s ≢ 95 ∷ 90 ∷ cs) → is_mangled s ≡ false
unfolding is_mangled
not_mangled [] h = refl
not_mangled (a ∷ []) h = refl
not_mangled (a ∷ b ∷ cs) h = elim (Bool-cases (a == 95)) [
  | inl e ↦ elim (Bool-cases (b == 90)) [
    | inl f ↦ absurd (h cs (rw ((==_iff a 95).0 e, (==_iff b 90).0 f) refl))
    | inr f ↦ rw (e, f) refl
  ]
  | inr e ↦ rw e refl
]

readable-printed :
    (cxa_demangle : CString → Option CString) (func rest : CString) (known : Option CString)
    → IsKnownAs cxa_demangle func known
    → readable cxa_demangle func (plus_char ∷ rest) ≡ printed known func rest
unfolding readable is_mangled
readable-printed cxa_demangle func rest (some d) ((cs, e), k) =
    let at : cxa_demangle (95 ∷ 90 ∷ cs) ≡ some d = rw e at k in rw (e, at) refl
readable-printed cxa_demangle func rest none (inl k) = elim (Bool-cases (is_mangled func)) [
  | inl e ↦ rw (e, k) refl
  | inr e ↦ rw e refl
]
readable-printed cxa_demangle func rest none (inr k) = rw (not_mangled func k) refl

between :
    (cxa_demangle : CString → Option CString) (name m r : CString) (b e : ℕ)
    → ltb b e ≡ true
    → take (e - b) (drop b name) ≡ m
    → drop e name ≡ r
    → demangle_at cxa_demangle name (some b, some e) ≡ readable cxa_demangle m r
unfolding demangle_at
between cxa_demangle name m r b e h p q = rw h cc

module _ (file func rest : CString) (hfile : IsPlain file) (hfunc : IsPlain func)
    (hrest : IsPlain rest) where
  abbrev pub symbol : CString
  symbol = file ++ (open_char ∷ (func ++ (plus_char ∷ rest)))

  scan_open :
      (i : ℕ) (s : CString)
      → scan (open_char ∷ s) i (none, none) ≡ scan s (suc i) (some (i + 1), none)
  unfolding scan note
  scan_open i s = refl

  scan_plus :
      (i : ℕ) (s : CString) (b : Option ℕ)
      → scan (plus_char ∷ s) i (b, none) ≡ scan s (suc i) (b, some i)
  unfolding scan note
  scan_plus i s b = refl

  scan-symbol :
      scan symbol 0 (none, none) ≡ (some (length file + 1), some (length file + 1 + length func))
  scan-symbol =
      rw
        (
          scan_plain file (open_char ∷ (func ++ (plus_char ∷ rest))) 0 (length file) (none, none)
              hfile (omega arith),
          scan_open (length file) (func ++ (plus_char ∷ rest)),
          scan_plain func (plus_char ∷ rest) (suc (length file)) (length file + 1 + length func)
              (some (length file + 1), none) hfunc (omega arith),
          scan_plus (length file + 1 + length func) rest (some (length file + 1)),
          scan_rest rest (suc (length file + 1 + length func))
              (some (length file + 1), some (length file + 1 + length func)) hrest,
        )
        refl

  drop_file : drop (length file + 1) symbol ≡ func ++ (plus_char ∷ rest)
  unfolding drop
  drop_file = drop_open file (func ++ (plus_char ∷ rest)) (length file + 1) (omega arith)

  drop_func : drop (length file + 1 + length func) symbol ≡ plus_char ∷ rest
  drop_func =
      rw
        (drop_more file (func ++ (plus_char ∷ rest)) (length file + 1 + length func) (length func)
          (omega arith))
        (drop_plain func (plus_char ∷ rest) (length func) refl)

  -- For a symbol file(function+rest) whose file, function and rest hold no open parenthesis and no plus
  -- sign, and whose function is not empty: demangle() gives an open parenthesis, the C++ name and the
  -- symbol from the plus sign on, if the function starts with _Z and __cxa_demangle knows its name; if
  -- it does not start so or is not known, it gives the function with "()".
  pub demangle-readable :
      (cxa_demangle : CString → Option CString)
      → func ≢ []
      → (known : Option CString) → IsKnownAs cxa_demangle func known
      → demangle cxa_demangle symbol ≡ printed known func rest
  unfolding demangle
  demangle-readable cxa_demangle ne known is =
      let some_name : 0 < length func = nonempty func ne in
      let before : ltb (length file + 1) (length file + 1 + length func) ≡ true =
        lt→ltb (length file + 1) (length file + 1 + length func) (omega arith) in
      let width : length file + 1 + length func - (length file + 1) ≡ length func = omega arith in
      let found : take (length file + 1 + length func - (length file + 1))
            (drop (length file + 1) symbol)
          ≡ func =
        rw drop_file (
          take_plain func (plus_char ∷ rest) (length file + 1 + length func - (length file + 1))
            width) in
      rw
        (
          scan-symbol,
          between cxa_demangle symbol func (plus_char ∷ rest) (length file + 1)
              (length file + 1 + length func) before found drop_func,
        )
        (readable-printed cxa_demangle func rest known is)
