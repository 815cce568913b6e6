-- ===== src/Elf2rpl/Wrap/Renamed.antt =====
-- What `renameRplWrap` makes of a symbol table in which no names have to be swapped.
use wut_tools.Common.{
  ℕ, suc, ◌+◌, ◌≡◌, refl, ap, arith, Bool, true, false, ◌&&◌, leb, inl, inr, Bool-cases, List, [],
  ◌∷◌, ◌++◌, length, drop, get_elem?, Option, none, some, ok, append_assoc, All,
}
use wut_tools.Elf.{Symbol}
use wut_tools.Elf2rpl.Reading.{same_text}
use wut_tools.Elf2rpl.Wrap.{
  rplwrap_prefix, name_at, find_wraps, swap_wraps, swap_all, rename_symbols,
}
use wut_tools.Elf2rpl.Wrap.Prefix.{
  Named, symbols_of, is_object_or_function, base_of, is_renamed_lem, all_renamed, same_prefix,
  wraps_from, behind-length, drop-behind, base_of-behind, get_elem?-middle, length-snoc,
  skip_prefixes-wraps,
}

-- A name behind the prefix is that of a text.
abbrev pub is_base : Option (List ℕ) → List ℕ → Bool
is_base none name = false
is_base (some base) name = same_text base name

-- The name of a function or an object is that of another behind its prefix.
abbrev pub is_swapped : Named → Named → Bool
is_swapped x y = is_object_or_function y.symbol && is_base (base_of x) y.name

module _ (strings : List ℕ) where
  abbrev pub HasName : Named → Type 0
  HasName x = name_at strings x.symbol.name ≡ ok x.name

  find_wraps-names :
      (i : ℕ) (xs : List Named)
      → All HasName xs
      → find_wraps strings i (symbols_of xs) ≡ ok (wraps_from i xs)
  unfolding find_wraps
  find_wraps-names i [] h = refl
  find_wraps-names i (x ∷ xs) h = elim (Bool-cases (is_object_or_function x.symbol)) [
    | inl renamed ↦
        rw
          (
            find_wraps-names (i + 1) xs h.1,
            is_renamed_lem x.symbol,
            renamed,
            h.0,
            same_prefix rplwrap_prefix x.name,
          )
          refl
    | inr other ↦ rw (find_wraps-names (i + 1) xs h.1, is_renamed_lem x.symbol, other) refl
  ]

  -- A symbol with the prefix whose name behind it is not this one.
  record Waits (symbols : List Symbol) (name : List ℕ) (w : ℕ) : Type 0 where
    wrap : Symbol
    wrap_name : List ℕ
    there : get_elem? symbols w ≡ some wrap
    named : name_at strings wrap.name ≡ ok wrap_name
    long : leb 10 (length wrap_name) ≡ true
    other : same_text (drop 10 wrap_name) name ≡ false

  swap_wraps-Waits :
      (i : ℕ) (name : List ℕ) (wraps : List ℕ) (symbols : List Symbol) (s : Symbol)
      → get_elem? symbols i ≡ some s
      → All (Waits symbols name) wraps
      → swap_wraps strings i name wraps symbols ≡ ok (wraps, symbols)
  unfolding swap_wraps
  swap_wraps-Waits i name [] symbols s e h = refl
  swap_wraps-Waits i name (w ∷ wraps) symbols s e h =
      rw
        (
          h.0.there,
          e,
          h.0.named,
          h.0.long,
          h.0.other,
          swap_wraps-Waits i name wraps symbols s e h.1,
        )
        refl

  wrap-Waits :
      (front : List Symbol) (x : Named) (xs : List Named) (name : List ℕ)
      → HasName x
      → All (Waits (front ++ x.symbol ∷ symbols_of xs) name) (wraps_from (length front + 1) xs)
      → (base : Option (List ℕ)) → base_of x ≡ base
      → is_base base name ≡ false
      → All (Waits (front ++ x.symbol ∷ symbols_of xs) name) (wraps_from (length front) (x ∷ xs))
  wrap-Waits front x xs name h later none e k = rw e later
  wrap-Waits front x xs name h later (some base) e k =
      let b = base_of-behind x base e in
      let size = behind-length rplwrap_prefix x.name base b in
      rw e (
        record {
          wrap = x.symbol;
          wrap_name = x.name;
          there = get_elem?-middle front x.symbol (symbols_of xs);
          named = h;
          long = ground (arith, size);
          other = rw (drop-behind rplwrap_prefix x.name base b) k;
        },
        later,
      )

  wraps-Waits :
      (front : List Symbol) (xs : List Named) (name : List ℕ)
      → All HasName xs
      → All (λ x. is_base (base_of x) name ≡ false) xs
      → All (Waits (front ++ symbols_of xs) name) (wraps_from (length front) xs)
  wraps-Waits front [] name h k = tt
  wraps-Waits front (x ∷ xs) name h k =
      wrap-Waits front x xs name h.0
        (rw (length-snoc front x.symbol, append_assoc front (x.symbol ∷ []) (symbols_of xs)) at
          (wraps-Waits (front ++ x.symbol ∷ []) xs name h.1 k.1))
        (base_of x) refl k.0

  swap_all-Waits :
      (front : List Symbol) (ys : List Named) (wraps : List ℕ)
      → All HasName ys
      → All
          (λ y.
            is_object_or_function y.symbol ≡ true
            → All (Waits (front ++ symbols_of ys) y.name) wraps)
          ys
      → swap_all strings (length ys) (length front) wraps (front ++ symbols_of ys)
        ≡ ok (wraps, front ++ symbols_of ys)
  unfolding swap_all
  swap_all-Waits front [] wraps h k = refl
  swap_all-Waits front (y ∷ ys) wraps h k =
      let there = get_elem?-middle front y.symbol (symbols_of ys) in
      let whole = append_assoc front (y.symbol ∷ []) (symbols_of ys) in
      let later =
        rw (length-snoc front y.symbol, whole) at
          (swap_all-Waits (front ++ y.symbol ∷ []) ys wraps h.1 (rw whole k.1)) in
      elim (Bool-cases (is_object_or_function y.symbol)) [
        | inl renamed ↦
            rw
              (
                there,
                h.0,
                is_renamed_lem y.symbol,
                renamed,
                swap_wraps-Waits (length front) y.name wraps (front ++ y.symbol ∷ symbols_of ys)
                    y.symbol there (k.0 renamed),
              )
              later
        | inr other ↦ rw (there, h.0, is_renamed_lem y.symbol, other) later
      ]

  length-symbols_of : (xs : List Named) → length (symbols_of xs) ≡ length xs
  length-symbols_of [] = refl
  length-symbols_of (x ∷ xs) = ap suc (length-symbols_of xs)

  unswapped :
      (y : Named) (xs : List Named)
      → is_object_or_function y.symbol ≡ true
      → All (λ x. is_swapped x y ≡ false) xs
      → All (λ x. is_base (base_of x) y.name ≡ false) xs
  unswapped y [] renamed h = tt
  unswapped y (x ∷ xs) renamed h = (rw renamed at (h.0), unswapped y xs renamed h.1)

  all-Waits :
      (ys xs : List Named)
      → All HasName xs
      → All (λ y. All (λ x. is_swapped x y ≡ false) xs) ys
      → All
          (λ y.
            is_object_or_function y.symbol ≡ true
            → All (Waits (symbols_of xs) y.name) (wraps_from 0 xs))
          ys
  all-Waits [] xs names h = tt
  all-Waits (y ∷ ys) xs names h = (
    λ renamed. wraps-Waits [] xs y.name names (unswapped y xs renamed h.0),
    all-Waits ys xs names h.1,
  )

  -- If each symbol's name is in the string table, and no function or object has the name of one with
  -- the prefix __rplwrap_ without it, then the renaming of a symbol table ends normally: each function
  -- and each object whose name has the prefix gets the name behind it, 10 bytes further on in the
  -- string table modulo 2 ^ 32, all else of it is kept, and so are all other symbols.
  pub rename_symbols-all_renamed :
      (xs : List Named)
      → All HasName xs
      → All (λ y. All (λ x. is_swapped x y ≡ false) xs) xs
      → rename_symbols strings (symbols_of xs) ≡ ok (all_renamed xs)
  unfolding rename_symbols
  rename_symbols-all_renamed xs names unswapped_names =
      rw
        (
          find_wraps-names 0 xs names,
          length-symbols_of xs,
          swap_all-Waits [] xs (wraps_from 0 xs) names (all-Waits xs xs names unswapped_names),
        )
        (skip_prefixes-wraps [] xs)
