-- ===== src/Files/Patches.antt =====
-- Writes into a file: adjacent ones are one, and what is written is read back.
use wut_tools.Files.{fwrite, write_at}
use wut_tools.Common.{
  length-padded, padded-append, take-append, drop-append, drop-drop, ℕ, ◌+◌, ◌≤◌, ◌≡◌, sym, ap, ap₂,
  ◌∙◌, arith, if◌then◌else◌, List, [], ◌∷◌, ◌++◌, take, drop, length, is_empty, padded,
  append_assoc, append-nil, length-append, length-drop,
}

-- A write behind the bytes of another one.
write_at-append :
    (p : ℕ) (a b out : List ℕ)
    → write_at (p + length a) b (write_at p a out) ≡ write_at p (a ++ b) out
unfolding write_at
write_at-append p a b out =
    let front = padded p 0 out in
    let size : length (front ++ a) ≡ p + length a =
      length-append front a ∙ ap (λ n. n + length a) (length-padded p 0 out) in
    let rest = drop (p + length a) out in
    let whole : front ++ (a ++ rest) ≡ (front ++ a) ++ rest = sym (append_assoc front a rest) in
    let kept : padded (p + length a) 0 (front ++ (a ++ rest)) ≡ front ++ a =
      ap₂ (λ n xs. padded n 0 xs) (sym size) whole ∙ padded-append 0 (front ++ a) rest in
    let behind : drop (p + length a + length b) (front ++ (a ++ rest))
        ≡ drop (p + length (a ++ b)) out =
      ap (drop (p + length a + length b)) whole
      ∙ sym (drop-drop (p + length a) (length b) ((front ++ a) ++ rest))
      ∙ ap (drop (length b))
          (ap (λ n. drop n ((front ++ a) ++ rest)) (sym size) ∙ drop-append (front ++ a) rest)
      ∙ drop-drop (p + length a) (length b) out
      ∙ ap (λ n. drop n out) (omega (arith, length-append a b)) in
    ap₂ (λ xs ys. xs ++ (b ++ ys)) kept behind
    ∙ append_assoc front a (b ++ drop (p + length (a ++ b)) out)
    ∙ ap (λ xs. front ++ xs) (sym (append_assoc a b (drop (p + length (a ++ b)) out)))

pub fwrite-append :
    (p : ℕ) (a b out : List ℕ) → fwrite (p + length a) b (fwrite p a out) ≡ fwrite p (a ++ b) out
unfolding fwrite
fwrite-append p [] b out =
    let e : p + 0 ≡ p = omega arith in ap (λ n. if is_empty b then out else write_at n b out) e
fwrite-append p (x ∷ a) [] out = ap (λ xs. write_at p xs out) (sym (append-nil (x ∷ a)))
fwrite-append p (x ∷ a) (y ∷ b) out = write_at-append p (x ∷ a) (y ∷ b) out

-- The bytes of the output from a position on.
abbrev pub read_at : (position size : ℕ) → List ℕ → List ℕ
read_at position size out = take size (drop position out)

pub read_at-write_at : (p : ℕ) (a out : List ℕ) → read_at p (length a) (write_at p a out) ≡ a
unfolding write_at
read_at-write_at p a out =
    let front = padded p 0 out in
    let e : drop p (front ++ (a ++ drop (p + length a) out)) ≡ a ++ drop (p + length a) out =
      ap (λ n. drop n (front ++ (a ++ drop (p + length a) out))) (sym (length-padded p 0 out))
      ∙ drop-append front (a ++ drop (p + length a) out) in
    ap (take (length a)) e ∙ take-append a (drop (p + length a) out)

-- Part of what is written.
pub read_at-within :
    (p : ℕ) (x y z out : List ℕ)
    → read_at (p + length x) (length y) (write_at p (x ++ (y ++ z)) out) ≡ y
unfolding write_at
read_at-within p x y z out =
    let front = padded p 0 out in
    let rest = drop (p + length (x ++ (y ++ z))) out in
    let size : length (front ++ x) ≡ p + length x =
      length-append front x ∙ ap (λ n. n + length x) (length-padded p 0 out) in
    let whole : front ++ ((x ++ (y ++ z)) ++ rest) ≡ (front ++ x) ++ (y ++ (z ++ rest)) =
      ap (λ t. front ++ t) (append_assoc x (y ++ z) rest ∙ ap (λ t. x ++ t) (append_assoc y z rest))
      ∙ sym (append_assoc front x (y ++ (z ++ rest))) in
    ap₂ (λ n xs. take (length y) (drop n xs)) (sym size) whole
    ∙ ap (take (length y)) (drop-append (front ++ x) (y ++ (z ++ rest)))
    ∙ take-append y (z ++ rest)

pub length-write_at : (p : ℕ) (a out : List ℕ) → length out ≤ length (write_at p a out)
unfolding write_at
length-write_at p a out =
    let front = padded p 0 out in
    let rest = drop (p + length a) out in
    let e = length-append front (a ++ rest) in
    let e' = length-append a rest in
    omega (arith, e, e', length-padded p 0 out, length-drop (p + length a) out)

pub length-write_at_end : (p : ℕ) (a out : List ℕ) → p + length a ≤ length (write_at p a out)
unfolding write_at
length-write_at_end p a out =
    let front = padded p 0 out in
    let rest = drop (p + length a) out in
    let e = length-append front (a ++ rest) in
    let e' = length-append a rest in omega (arith, e, e', length-padded p 0 out)
