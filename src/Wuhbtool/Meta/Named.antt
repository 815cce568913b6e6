-- ===== src/Wuhbtool/Meta/Named.antt =====
-- The name that wuhbtool takes from a path against the one that readrpl takes.
use wut_tools.Common.{
  ℕ, zero, suc, ◌+◌, ◌-◌, ◌^◌, ◌≤◌, ◌<◌, ◌≡◌, refl, sym, ap, ◌∙◌, subst, arith, true, false, ◌==◌,
  Bool-cases, inl, inr, ◌⊎◌, List, [], ◌∷◌, ◌++◌, take, drop, length, length-append, take-append,
  drop-append, append_assoc, contains, contains-append, none, some,
}
use wut_tools.Readrpl.Exports.Basename.{
  NoSeparator, behind_separator-none, behind_separator-last, before_dot-last,
}
use wut_tools.Readrpl.Exports.{before_dot, behind_separator, get_file_basename}
use wut_tools.Utils.{wrap_sub}
use wut_tools.Wuhbtool.Meta.{find_last_of, start_position, end_position, name_of_path}

-- A text without a character, or the parts around the last one.
record Split (x : ℕ) (s : List ℕ) : Type 0 where
  front : List ℕ
  back : List ℕ
  parts : s ≡ front ++ x ∷ back
  last : contains back x ≡ false

split : (x : ℕ) (s : List ℕ) → (contains s x ≡ false) ⊎ Split x s
unfolding contains
split x [] = inl refl
split x (c ∷ s) = elim (split x s) [
  | inr found ↦ inr (record {
    front = c ∷ found.front;
    back = found.back;
    parts = ap (λ t. c ∷ t) found.parts;
    last = found.last;
  })
  | inl none' ↦ elim (Bool-cases (x == c)) [
    | inl here ↦ inr (record {
      front = [];
      back = s;
      parts = ap (λ y. y ∷ s) (ground (arith, here));
      last = none';
    })
    | inr other ↦ inl (ground (arith, other, none'))
  ]
]

find_last_of-none : (x : ℕ) (s : List ℕ) → contains s x ≡ false → find_last_of x s ≡ none
unfolding find_last_of contains
find_last_of-none x [] h = refl
find_last_of-none x (c ∷ s) h = elim (Bool-cases (x == c)) [
  | inl here ↦ absurd (ground (arith, here, h))
  | inr other ↦
      let more : contains s x ≡ false = ground (arith, other, h) in
      let e : (c == x) ≡ false = ground (arith, other) in rw (find_last_of-none x s more, e) refl
]

find_last_of-last :
    (x : ℕ) (front back : List ℕ)
    → contains back x ≡ false
    → find_last_of x (front ++ x ∷ back) ≡ some (length front)
unfolding find_last_of
find_last_of-last x [] back h =
    let e : (x == x) ≡ true = ground arith in rw (find_last_of-none x back h, e) refl
find_last_of-last x (c ∷ front) back h =
    let e : length front + 1 ≡ suc (length front) = omega arith in
    rw (find_last_of-last x front back h) (ap some e)

-- What follows without the character does not matter.
find_last_of-front :
    (x : ℕ) (front back : List ℕ)
    → contains back x ≡ false
    → find_last_of x (front ++ back) ≡ find_last_of x front
unfolding find_last_of
find_last_of-front x [] back h = find_last_of-none x back h
find_last_of-front x (c ∷ front) back h = rw (find_last_of-front x front back h) refl

take-eq-all : (n : ℕ) (s : List ℕ) → length s ≤ n → take n s ≡ s
take-eq-all zero [] h = refl
take-eq-all zero (c ∷ s) h = absurd (omega arith)
take-eq-all (suc n) [] h = refl
take-eq-all (suc n) (c ∷ s) h = ap (λ t. c ∷ t) (take-eq-all n s (omega arith))

before_dot-none : (s : List ℕ) → contains s 46 ≡ false → before_dot s ≡ s
unfolding before_dot contains
before_dot-none [] h = refl
before_dot-none (c ∷ s) h = elim (Bool-cases (46 == c)) [
  | inl here ↦ absurd (ground (arith, here, h))
  | inr other ↦
      let more : contains s 46 ≡ false = ground (arith, other, h) in
      let e : (c == 46) ≡ false = ground (arith, other) in rw (e, before_dot-none s more) refl
]

end_position-dot : (path : List ℕ) (i : ℕ) → find_last_of 46 path ≡ some i → end_position path ≡ i
unfolding end_position
end_position-dot path i e = rw (end_position, e) refl

end_position-none : (path : List ℕ) → find_last_of 46 path ≡ none → end_position path ≡ length path
unfolding end_position
end_position-none path e = rw (end_position, e) refl

-- The name behind a part of the path: without its extension, if it has one.
module _ (front rest : List ℕ) (small : length (front ++ rest) < 2 ^ 63)
    (starts : start_position (front ++ rest) ≡ length front) where
  behind_front :
      (n : ℕ) → take n (drop (start_position (front ++ rest)) (front ++ rest)) ≡ take n rest
  behind_front n = ap (take n) (ap (λ m. drop m (front ++ rest)) starts ∙ drop-append front rest)

  cut :
      (end n : ℕ)
      → end_position (front ++ rest) ≡ end
      → wrap_sub 64 end (start_position (front ++ rest)) ≡ n
      → name_of_path (front ++ rest) ≡ take n rest
  unfolding name_of_path
  cut end n e size =
      ap (λ m. take m (drop (start_position (front ++ rest)) (front ++ rest)))
        (ap (λ m. wrap_sub 64 m (start_position (front ++ rest))) e ∙ size)
      ∙ behind_front n

  with_extension :
      (name extension : List ℕ)
      → rest ≡ name ++ 46 ∷ extension
      → contains extension 46 ≡ false
      → name_of_path (front ++ rest) ≡ name
  with_extension name extension parts last =
      let whole : front ++ rest ≡ (front ++ name) ++ 46 ∷ extension =
        ap (λ t. front ++ t) parts ∙ sym (append_assoc front name (46 ∷ extension)) in
      let dot : find_last_of 46 (front ++ rest) ≡ some (length (front ++ name)) =
        ap (find_last_of 46) whole ∙ find_last_of-last 46 (front ++ name) extension last in
      let size : wrap_sub 64 (length (front ++ name)) (start_position (front ++ rest))
          ≡ length name =
        ap (wrap_sub 64 (length (front ++ name))) starts
        ∙ omega (
          arith,
          length-append front name,
          length-append (front ++ name) (46 ∷ extension),
          ap length whole,
          small,
        ) in
      cut (length (front ++ name)) (length name) (end_position-dot (front ++ rest) _ dot) size
      ∙ ap (take (length name)) parts
      ∙ take-append name (46 ∷ extension)

  without_extension : contains rest 46 ≡ false → name_of_path (front ++ rest) ≡ rest
  without_extension none' =
      let same = find_last_of-front 46 front rest none' in
      let sizes = length-append front rest in
      elim (split 46 front) [
        | inl nowhere ↦
            let dot : find_last_of 46 (front ++ rest) ≡ none =
              same ∙ find_last_of-none 46 front nowhere in
            let size : wrap_sub 64 (length (front ++ rest)) (start_position (front ++ rest))
                ≡ length rest =
              ap (wrap_sub 64 (length (front ++ rest))) starts ∙ omega (arith, sizes, small) in
            cut (length (front ++ rest)) (length rest) (end_position-none (front ++ rest) dot) size
            ∙ take-eq-all (length rest) rest (omega arith)
        | inr found ↦
            let dot : find_last_of 46 (front ++ rest) ≡ some (length found.front) =
              same
              ∙ ap (find_last_of 46) found.parts
              ∙ find_last_of-last 46 found.front found.back found.last in
            let n = wrap_sub 64 (length found.front) (start_position (front ++ rest)) in
            let size : n ≡ 2 ^ 64 + length found.front - length front =
              ap (wrap_sub 64 (length found.front)) starts
              ∙ omega (
                arith,
                sizes,
                small,
                ap length found.parts,
                length-append found.front (46 ∷ found.back),
              ) in
            let enough : length rest ≤ n = omega (arith, size, sizes, small) in
            cut (length found.front) n (end_position-dot (front ++ rest) _ dot) refl
            ∙ take-eq-all n rest enough
      ]

  name_behind : name_of_path (front ++ rest) ≡ before_dot rest
  name_behind = elim (split 46 rest) [
    | inl none' ↦ without_extension none' ∙ sym (before_dot-none rest none')
    | inr found ↦
        with_extension found.front found.back found.parts found.last
        ∙ sym (ap before_dot found.parts ∙ before_dot-last found.front found.back found.last)
  ]

no_separator : (s : List ℕ) → contains s 92 ≡ false → contains s 47 ≡ false → NoSeparator s
unfolding contains
no_separator [] h k = tt
no_separator (c ∷ s) h k =
    (ground (arith, h, k), no_separator s (ground (arith, h)) (ground (arith, k)))

contains_back :
    (front back : List ℕ) (x c : ℕ)
    → contains (front ++ c ∷ back) x ≡ false
    → contains back x ≡ false
unfolding contains
contains_back front back x c h = ground (arith, h, contains-append front (c ∷ back) x)

-- On a path without '\' of fewer than 2 ^ 63 characters, the name that wuhbtool cuts out of the path
-- is the one that readrpl cuts out of it: what follows the last '/', up to the last '.' of that, even
-- where the last '.' of the path is before the last '/' and the length that is given to substr wraps
-- around.
pub name_of_path-get_file_basename :
    (path : List ℕ)
    → length path < 2 ^ 63
    → contains path 92 ≡ false
    → name_of_path path ≡ get_file_basename path
unfolding get_file_basename start_position
name_of_path-get_file_basename path small plain = elim (split 47 path) [
  | inl none' ↦
      let starts : start_position path ≡ 0 =
        rw (start_position, find_last_of-none 47 path none') refl in
      name_behind [] path small starts
      ∙ ap before_dot (sym (behind_separator-none path path (no_separator path plain none')))
  | inr found ↦
      let front = found.front ++ 47 ∷ [] in
      let whole : path ≡ front ++ found.back =
        found.parts ∙ sym (append_assoc found.front (47 ∷ []) found.back) in
      let slash : find_last_of 47 path ≡ some (length found.front) =
        ap (find_last_of 47) found.parts ∙ find_last_of-last 47 found.front found.back found.last in
      let starts : start_position path ≡ length front =
        rw (start_position, slash) (sym (length-append found.front (47 ∷ []))) in
      let back_plain =
        contains_back found.front found.back 92 47
          (ap (λ s. contains s 92) (sym found.parts) ∙ plain) in
      let behind : behind_separator path path ≡ found.back =
        ap (behind_separator path) found.parts
        ∙ behind_separator-last found.front path 47 found.back refl
            (no_separator found.back back_plain found.last) in
      ap name_of_path whole
      ∙ name_behind front found.back (subst (λ s. length s < 2 ^ 63) whole small)
          (subst (λ s. start_position s ≡ length front) whole starts)
      ∙ ap before_dot (sym behind)
]
