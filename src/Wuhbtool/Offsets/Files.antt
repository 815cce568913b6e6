-- ===== src/Wuhbtool/Offsets/Files.antt =====
-- The offsets of the files.
use wut_tools.Common.Apart.{Apart, IsWithin, IsOutside, All-imply, Apart-append}
use wut_tools.Common.{
  ℕ, ◌+◌, ◌^◌, ◌≤◌, ◌<◌, ◌≡◌, ◌≢◌, ◌⊎◌, subst, subst₂, ◌∙◌, arith, inl, inr, u32, u64, List, [],
  ◌∷◌, ◌++◌, All, All-append,
}
use wut_tools.Utils.{align}
use wut_tools.Wuhbtool.Entries.{Children, end, file, dir}
use wut_tools.Wuhbtool.Offsets.Sizes.{
  file_size, own_space, inner_space, file_entry_size_lem, place_files-end, place_in_dirs-end,
  own_space-place_in_dirs,
}
use wut_tools.Wuhbtool.Offsets.{
  Cursor, place_file, place_files, place_in_dirs, calculate_file_offsets,
}

-- The offsets of the files, as `be_word` takes them, in the order of `populate`.
unfoldable pub file_offsets : Children → List ℕ
file_offsets end = []
file_offsets (file f rest) = u32 f.entry_offset ∷ file_offsets rest
file_offsets (dir d es rest) = file_offsets es ++ file_offsets rest

-- In one of two ranges.
abbrev IsInEither : (a b c d x : ℕ) → Type 0
IsInEither a b c d x = IsWithin a b x ⊎ IsWithin c d x

-- The files of the directories among the children lie in `[c, c1)`, and the others in `[f, f1)`.
record Spread (c c1 f f1 : ℕ) (offsets : List ℕ) : Type 0 where
  ranges : All (IsInEither c c1 f f1) offsets
  apart : Apart offsets

Spread-file :
    (c c1 f f1 x next : ℕ) (offsets : List ℕ)
    → x ≡ f
    → c1 ≤ f
    → f < next
    → next ≤ f1
    → Spread c c1 next f1 offsets
    → Spread c c1 f f1 (x ∷ offsets)
Spread-file c c1 f f1 x next offsets e below less room s =
    let w : IsWithin f f1 f = (omega arith, omega arith) in
    record {
      ranges = (
        inr (omega arith, omega arith),
        All-imply (IsInEither c c1 next f1) (IsInEither c c1 f f1) offsets (λ y h. wider y h)
            s.ranges,
      );
      apart = (
        All-imply (IsInEither c c1 next f1) (λ y. x ≢ y) offsets (λ y h. differ y h) s.ranges,
        s.apart,
      );
    }
  where
    wider : (y : ℕ) → IsInEither c c1 next f1 y → IsInEither c c1 f f1 y
    wider y (inl h) = inl h
    wider y (inr h) = inr (omega arith, h.1)

    differ : (y : ℕ) → IsInEither c c1 next f1 y → x ≢ y
    differ y (inl h) = omega arith
    differ y (inr h) = omega arith

Spread-dir :
    (c c1 c2 c3 f f1 : ℕ) (xs ys : List ℕ)
    → c ≤ c1
    → c1 ≤ c2
    → c2 ≤ c3
    → c3 ≤ f
    → Spread c c1 c1 c2 xs
    → Spread c2 c3 f f1 ys
    → Spread c c3 f f1 (xs ++ ys)
Spread-dir c c1 c2 c3 f f1 xs ys a b d g inner back =
    let inside : All (IsWithin c c2) xs =
      All-imply (IsInEither c c1 c1 c2) (IsWithin c c2) xs (λ y h. one y h) inner.ranges in
    record {
      ranges =
          All-append (IsInEither c c3 f f1) xs ys
            (All-imply (IsWithin c c2) (IsInEither c c3 f f1) xs (λ y h. inl (h.0, omega arith))
              inside)
            (All-imply (IsInEither c2 c3 f f1) (IsInEither c c3 f f1) ys (λ y h. wider y h)
              back.ranges);
      apart =
          Apart-append c c2 xs ys inside
            (All-imply (IsInEither c2 c3 f f1) (IsOutside c c2) ys (λ y h. outside y h) back.ranges)
            inner.apart back.apart;
    }
  where
    one : (y : ℕ) → IsInEither c c1 c1 c2 y → IsWithin c c2 y
    one y (inl h) = (h.0, omega arith)
    one y (inr h) = (omega arith, h.1)

    wider : (y : ℕ) → IsInEither c2 c3 f f1 y → IsInEither c c3 f f1 y
    wider y (inl h) = inl (omega arith, h.1)
    wider y (inr h) = inr h

    outside : (y : ℕ) → IsInEither c2 c3 f f1 y → IsOutside c c2 y
    outside y (inl h) = inr h.0
    outside y (inr h) = inr (omega arith)

-- Both loops, the second from a cursor behind the first.
place-Spread :
    (es : Children) (c g : Cursor)
    → c.entry + inner_space es ≤ g.entry
    → g.entry + own_space es < 2 ^ 32
    → Spread c.entry
        (c.entry + inner_space es)
        g.entry
        (g.entry + own_space es)
        (file_offsets (place_files (place_in_dirs es c).0 g).0)
unfolding place_in_dirs place_files place_file file_offsets inner_space own_space
place-Spread end c g before small = record { ranges = tt; apart = tt }
place-Spread (file f rest) c g before small =
    let e : u32 (g.entry + file_size f) ≡ g.entry + file_size f = omega arith in
    let size = file_entry_size_lem f (omega arith) in
    let p = u64 (align 64 g.partition 0x10 + f.size) in
    let g1 : Cursor = record { partition = p; entry = g.entry + file_size f } in
    let s = place-Spread rest c g1 (omega arith) (omega arith) in
    let end_ : g.entry + file_size f + own_space rest ≡ g.entry + (file_size f + own_space rest) =
      omega arith in
    rw (size, e)
      (Spread-file c.entry (c.entry + inner_space rest) g.entry
        (g.entry + (file_size f + own_space rest)) (u32 g.entry) (g.entry + file_size f) _
        (omega arith) before (omega arith) (omega arith)
        (subst
          (λ n.
            Spread c.entry (c.entry + inner_space rest) (g.entry + file_size f) n
              (file_offsets (place_files (place_in_dirs rest c).0 g1).0))
          end_ s))
place-Spread (dir d es rest) c g before small =
    let (es1, c1) = place_in_dirs es c in
    let c2 = (place_files es1 c1).1 in
    let a = c.entry + inner_space es in
    let b = a + own_space es in
    let own = own_space-place_in_dirs es c in
    let e1 : c1.entry ≡ a = place_in_dirs-end es c (omega arith) in
    let e2 : c2.entry ≡ b =
      place_files-end es1 c1 (omega (arith, own, e1)) ∙ omega (arith, own, e1) in
    let inner = place-Spread es c c1 (omega (arith, e1)) (omega (arith, e1)) in
    let back = place-Spread rest c2 g (omega (arith, e2)) small in
    let e3 : c1.entry + own_space es ≡ b = omega (arith, e1) in
    let last = c.entry + (inner_space es + own_space es + inner_space rest) in
    let e4 : c2.entry + inner_space rest ≡ last = omega (arith, e2) in
    Spread-dir c.entry a b last g.entry (g.entry + own_space rest) _ _ (omega arith) (omega arith)
      (omega arith) before
      (subst₂ (λ u v. Spread c.entry a u v (file_offsets (place_files es1 c1).0)) e1 e3 inner)
      (subst₂
        (λ u v.
          Spread u v g.entry (g.entry + own_space rest)
            (file_offsets (place_files (place_in_dirs rest c2).0 g).0))
        e2 e4 back)

-- The files take different offsets.
pub calculate_file_offsets-Apart :
    (es : Children) (c : Cursor)
    → c.entry + (own_space es + inner_space es) < 2 ^ 32
    → Apart (file_offsets (calculate_file_offsets es c).0)
unfolding calculate_file_offsets
calculate_file_offsets-Apart es c small =
    let c1 = (place_in_dirs es c).1 in
    let e1 : c1.entry ≡ c.entry + inner_space es = place_in_dirs-end es c (omega arith) in
    (place-Spread es c c1 (omega (arith, e1)) (omega (arith, e1))).apart
