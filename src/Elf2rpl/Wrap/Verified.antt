-- ===== src/Elf2rpl/Wrap/Verified.antt =====
-- What `renameRplWrap` leaves as it is.
use wut_tools.Common.{
  ℕ, zero, suc, ◌+◌, ◌≡◌, refl, ap, sym, ◌∙◌, inl, inr, Bool-cases, leb, if◌then◌else◌, List, [],
  ◌∷◌, map, length, drop, get_elem?, ok, fault, >>=-eq-ok, ok-injective, access, u32,
}
use wut_tools.Elf.{Symbol}
use wut_tools.Elf2rpl.Reading.{same_text}
use wut_tools.Elf2rpl.Wrap.{
  is_renamed, name_at, find_wraps, set_name, swap_wraps, swap_all, skip_prefixes, rename_symbols,
}

-- A symbol but for its name.
abbrev pub without_name : Symbol → Symbol
without_name symbol = record symbol { name = 0 }

set_name-without_name :
    (symbols : List Symbol) (i name : ℕ)
    → map without_name (set_name symbols i name) ≡ map without_name symbols
unfolding set_name
set_name-without_name [] i name = refl
set_name-without_name (symbol ∷ symbols) zero name = refl
set_name-without_name (symbol ∷ symbols) (suc i) name =
    ap (λ rest. without_name symbol ∷ rest) (set_name-without_name symbols i name)

swap_wraps-without_name :
    (strings : List ℕ) (i : ℕ) (name wraps : List ℕ) (symbols : List Symbol)
    (p : List ℕ × List Symbol)
    → swap_wraps strings i name wraps symbols ≡ ok p
    → map without_name p.1 ≡ map without_name symbols
unfolding swap_wraps
swap_wraps-without_name strings i name [] symbols p run =
    ap (λ (q : List ℕ × List Symbol). map without_name q.1) (sym (ok-injective run))
swap_wraps-without_name strings i name (w ∷ wraps) symbols p run =
    let (wrap, _, run1) = >>=-eq-ok (access (get_elem? symbols w)) _ run in
    let (symbol, _, run2) = >>=-eq-ok (access (get_elem? symbols i)) _ run1 in
    let (wrap_name, _, run3) = >>=-eq-ok (name_at strings wrap.name) _ run2 in
    elim (Bool-cases (leb 10 (length wrap_name))) [
      | inr short ↦ absurd (let e : fault ≡ ok p = rw short at run3 in cc)
      | inl long ↦ elim (Bool-cases (same_text (drop 10 wrap_name) name)) [
        | inl same ↦
            swap_wraps-without_name strings i name wraps
              (set_name (set_name symbols w symbol.name) i wrap.name) p (rw (long, same) at run3)
            ∙ set_name-without_name (set_name symbols w symbol.name) i wrap.name
            ∙ set_name-without_name symbols w symbol.name
        | inr other ↦
            let (rest, r4, run4) =
              >>=-eq-ok (swap_wraps strings i name wraps symbols) _ (rw (long, other) at run3) in
            ap (λ (q : List ℕ × List Symbol). map without_name q.1) (sym (ok-injective run4))
            ∙ swap_wraps-without_name strings i name wraps symbols rest r4
      ]
    ]

swap_all-without_name :
    (strings : List ℕ) (n i : ℕ) (wraps : List ℕ) (symbols : List Symbol) (p : List ℕ × List Symbol)
    → swap_all strings n i wraps symbols ≡ ok p
    → map without_name p.1 ≡ map without_name symbols
unfolding swap_all
swap_all-without_name strings zero i wraps symbols p run =
    ap (λ (q : List ℕ × List Symbol). map without_name q.1) (sym (ok-injective run))
swap_all-without_name strings (suc n) i wraps symbols p run =
    let (symbol, _, run1) = >>=-eq-ok (access (get_elem? symbols i)) _ run in
    let (name, _, run2) = >>=-eq-ok (name_at strings symbol.name) _ run1 in
    let (next, r3, run3) =
      >>=-eq-ok
        (if is_renamed symbol then swap_wraps strings i name wraps symbols else ok (wraps, symbols))
        _ run2 in
    swap_all-without_name strings n (i + 1) next.0 next.1 p run3
    ∙ elim (Bool-cases (is_renamed symbol)) [
      | inl renamed ↦ swap_wraps-without_name strings i name wraps symbols next (rw renamed at r3)
      | inr other ↦
          ap (λ (q : List ℕ × List Symbol). map without_name q.1)
            (sym (ok-injective (rw other at r3)))
    ]

skip_prefixes-without_name :
    (wraps : List ℕ) (symbols symbols' : List Symbol)
    → skip_prefixes wraps symbols ≡ ok symbols'
    → map without_name symbols' ≡ map without_name symbols
unfolding skip_prefixes
skip_prefixes-without_name [] symbols symbols' run = ap (map without_name) (sym (ok-injective run))
skip_prefixes-without_name (w ∷ wraps) symbols symbols' run =
    let (wrap, _, run1) = >>=-eq-ok (access (get_elem? symbols w)) _ run in
    skip_prefixes-without_name wraps (set_name symbols w (u32 (wrap.name + 10))) symbols' run1
    ∙ set_name-without_name symbols w (u32 (wrap.name + 10))

-- If the renaming of a symbol table ends normally, then it changes nothing but names: the symbols
-- are as many, in the same order, with the same values, sizes, kinds and sections.
pub rename_symbols-without_name :
    (strings : List ℕ) (symbols symbols' : List Symbol)
    → rename_symbols strings symbols ≡ ok symbols'
    → map without_name symbols' ≡ map without_name symbols
unfolding rename_symbols
rename_symbols-without_name strings symbols symbols' run =
    let (wraps, _, run1) = >>=-eq-ok (find_wraps strings 0 symbols) _ run in
    let (swapped, r2, run2) =
      >>=-eq-ok (swap_all strings (length symbols) 0 wraps symbols) _ run1 in
    skip_prefixes-without_name swapped.0 swapped.1 symbols' run2
    ∙ swap_all-without_name strings (length symbols) 0 wraps symbols swapped r2
