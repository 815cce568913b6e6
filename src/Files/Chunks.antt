-- ===== src/Files/Chunks.antt =====
-- Writes that do not meet: each of them is read back.
use wut_tools.Files.{fwrite, write_at}
use wut_tools.Common.Ranges.{Range, IsClear, AreClear}
use wut_tools.Common.{
  length-padded, drop-append, drop-drop, ℕ, zero, suc, ◌+◌, ◌-◌, ◌≤◌, ◌≡◌, ◌⊎◌, inl, inr, refl, sym,
  ap, ap₂, ◌∙◌, arith, List, [], ◌∷◌, ◌++◌, All, map, take, drop, length, padded, append_assoc,
  length-append,
}
use wut_tools.Files.Patches.{read_at, length-write_at, length-write_at_end, read_at-write_at}

module _ {A : Type 0} (a : A) where
  take-padded :
      (n q : ℕ) (xs rest : List A)
      → n ≤ q
      → n ≤ length xs
      → take n (padded q a xs ++ rest) ≡ take n xs
  unfolding padded
  take-padded zero q xs rest h k = refl
  take-padded (suc n) zero xs rest h k = absurd (omega arith)
  take-padded (suc n) (suc q) [] rest h k = absurd (omega arith)
  take-padded (suc n) (suc q) (x ∷ xs) rest h k =
      ap (λ t. x ∷ t) (take-padded n q xs rest (omega arith) (omega arith))

  take-drop-padded :
      (n p q : ℕ) (xs rest : List A)
      → p + n ≤ q
      → p + n ≤ length xs
      → take n (drop p (padded q a xs ++ rest)) ≡ take n (drop p xs)
  unfolding padded
  take-drop-padded n zero q xs rest h k = take-padded n q xs rest (omega arith) (omega arith)
  take-drop-padded n (suc p) zero xs rest h k = absurd (omega arith)
  take-drop-padded n (suc p) (suc q) [] rest h k = absurd (omega arith)
  take-drop-padded n (suc p) (suc q) (x ∷ xs) rest h k =
      take-drop-padded n p q xs rest (omega arith) (omega arith)

-- A write elsewhere changes nothing that is there.
read_at-write_at_other :
    (p n q : ℕ) (b out : List ℕ)
    → p + n ≤ length out
    → (p + n ≤ q) ⊎ (q + length b ≤ p)
    → read_at p n (write_at q b out) ≡ read_at p n out
unfolding write_at
read_at-write_at_other p n q b out there (inl before) = take-drop-padded 0 n p q out _ before there
read_at-write_at_other p n q b out there (inr behind) =
    let front = padded q 0 out ++ b in
    let rest = drop (q + length b) out in
    let k = p - (q + length b) in
    let size : length front ≡ q + length b =
      length-append (padded q 0 out) b ∙ ap (λ m. m + length b) (length-padded q 0 out) in
    let split : p ≡ length front + k = omega (arith, size) in
    let whole : padded q 0 out ++ (b ++ rest) ≡ front ++ rest =
      sym (append_assoc (padded q 0 out) b rest) in
    ap (take n) (
      ap₂ (λ m xs. drop m xs) split whole
      ∙ sym (drop-drop (length front) k (front ++ rest))
      ∙ ap (drop k) (drop-append front rest)
      ∙ drop-drop (q + length b) k out
      ∙ ap (λ m. drop m out) (omega arith))

pub record Chunk : Type 0 where
  pub position : ℕ
  pub bytes : List ℕ

abbrev pub range_of_chunk : Chunk → Range
range_of_chunk c = record { start = c.position; size = length c.bytes }

-- Bytes, where there are any, are at a position of the output.
abbrev pub HoldsAt : ℕ → List ℕ → List ℕ → Type 0
HoldsAt position bytes out =
    (read_at position (length bytes) out ≡ bytes)
    × ((bytes ≡ []) ⊎ (position + length bytes ≤ length out))

abbrev pub Holds : List ℕ → Chunk → Type 0
Holds out c = HoldsAt c.position c.bytes out

-- The writes, in order.
unfoldable pub write_all : List Chunk → List ℕ → List ℕ
unfolding fwrite
write_all [] out = out
write_all (c ∷ cs) out = write_all cs (fwrite c.position c.bytes out)

pub write_all-append :
    (cs ds : List Chunk) (out : List ℕ) → write_all (cs ++ ds) out ≡ write_all ds (write_all cs out)
unfolding write_all
write_all-append [] ds out = refl
write_all-append (c ∷ cs) ds out = write_all-append cs ds _

fwrite-Holds : (p : ℕ) (b out : List ℕ) → HoldsAt p b (fwrite p b out)
unfolding fwrite
fwrite-Holds p [] out = (refl, inl refl)
fwrite-Holds p (x ∷ b) out =
    (read_at-write_at p (x ∷ b) out, inr (length-write_at_end p (x ∷ b) out))

fwrite-Holds_other :
    (p q : ℕ) (b d out : List ℕ)
    → (p + length b ≤ q) ⊎ (q + length d ≤ p)
    → HoldsAt p b out
    → HoldsAt p b (fwrite q d out)
unfolding fwrite
fwrite-Holds_other p q b [] out clear h = h
fwrite-Holds_other p q [] (y ∷ d) out clear h = (refl, inl refl)
fwrite-Holds_other p q (x ∷ b) (y ∷ d) out clear (e, inl nothing) = absurd (cc)
fwrite-Holds_other p q (x ∷ b) (y ∷ d) out clear (e, inr there) =
    let grows = length-write_at q (y ∷ d) out in
    (
      read_at-write_at_other p (length (x ∷ b)) q (y ∷ d) out there clear ∙ e,
      inr (omega (arith, grows)),
    )

write_all-Holds_other :
    (cs : List Chunk) (c : Chunk) (out : List ℕ)
    → All (λ (d : Chunk). IsClear (range_of_chunk c) (range_of_chunk d)) cs
    → Holds out c
    → Holds (write_all cs out) c
unfolding write_all
write_all-Holds_other [] c out clear h = h
write_all-Holds_other (d ∷ cs) c out clear h =
    write_all-Holds_other cs c _ clear.1
      (fwrite-Holds_other c.position d.position c.bytes d.bytes out clear.0 h)

All-chunks :
    (P : Range → Type 0) (cs : List Chunk)
    → All P (map range_of_chunk cs)
    → All (λ (c : Chunk). P (range_of_chunk c)) cs
All-chunks P [] h = tt
All-chunks P (c ∷ cs) h = (h.0, All-chunks P cs h.1)

pub write_all-Holds :
    (cs : List Chunk) (out : List ℕ)
    → AreClear (map range_of_chunk cs)
    → All (Holds (write_all cs out)) cs
unfolding write_all
write_all-Holds [] out clear = tt
write_all-Holds (c ∷ cs) out clear = (
  write_all-Holds_other cs c _ (All-chunks (IsClear (range_of_chunk c)) cs clear.0)
      (fwrite-Holds c.position c.bytes out),
  write_all-Holds cs _ clear.1,
)
