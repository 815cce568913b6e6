-- ===== src/Wuhbtool/Output/Copy.antt =====
-- The loop of `OSFileEntry::write`.
use wut_tools.Files.{fwrite}
use wut_tools.Common.{
  ℕ, zero, suc, ◌+◌, ◌-◌, ◌^◌, ◌≤◌, ◌<◌, ◌≡◌, refl, sym, ap, ap₂, ◌∙◌, arith, u64, Bool, true,
  false, Bool-cases, inl, inr, ltb, if◌then◌else◌, List, [], ◌∷◌, ◌++◌, take, drop, length,
  length-take, length-drop, Option, some, Run, ok, failed,
}
use native.Mathlib.Numerals.{unary_clauses}
use wut_tools.Files.Patches.{fwrite-append}
use wut_tools.Wuhbtool.Output.{copy_chunks}

take-append-take {ℓ} :
    {A : Type ℓ} (n m : ℕ) (xs : List A) → take n xs ++ take m (drop n xs) ≡ take (n + m) xs
take-append-take zero m xs = ap (λ k. take k xs) (omega arith)
take-append-take (suc n) zero [] = simp unary_clauses refl
take-append-take (suc n) (suc m) [] = simp unary_clauses refl
take-append-take (suc n) m (x ∷ xs) =
    let e : suc n + m ≡ suc (n + m) = omega arith in
    ap (λ t. x ∷ t) (take-append-take n m xs) ∙ ap (λ k. take k (x ∷ xs)) (sym e)

-- A copy of `n` bytes at once.
abbrev pub copied : (n : ℕ) → List ℕ → (position : ℕ) → List ℕ → Run (List ℕ)
copied n input position out =
    if ltb (length input) n then failed else ok (fwrite position (take n input) out)

copied-step :
    (n m : ℕ) (input : List ℕ) (position : ℕ) (out : List ℕ)
    → n ≤ length input
    → copied m (drop n input) (position + n) (fwrite position (take n input) out)
      ≡ copied (n + m) input position out
copied-step n m input position out room =
    let size : length (take n input) ≡ n = length-take n input ∙ omega arith in
    let test : ltb (length (drop n input)) m ≡ ltb (length input) (n + m) =
      ground (arith, length-drop n input) in
    let e =
      ap (λ k. fwrite (position + k) (take m (drop n input)) (fwrite position (take n input) out))
        (sym size)
      ∙ fwrite-append position (take n input) (take m (drop n input)) out
      ∙ ap (λ xs. fwrite position xs out) (take-append-take n m input) in
    ap₂ (λ (b : Bool) (file : List ℕ). if b then failed else ok file) test e

-- One round of the loop, for a chunk of `n` bytes.
abbrev round :
    (fuel n size offset : ℕ) (input : List ℕ) (position : ℕ) → List ℕ → Option (Run (List ℕ))
round fuel n size offset input position out =
    if ltb offset size
    then if ltb (length input) n
      then some failed
      else copy_chunks fuel size (u64 (offset + n)) n (drop n input) (position + n)
          (fwrite position (take n input) out)
    else some (ok out)

chunk :
    (left read_size : ℕ)
    → 0 < read_size
    → 0 < left
    → (0 < (if ltb left read_size then left else read_size))
      × ((if ltb left read_size then left else read_size) ≤ left)
chunk left read_size some_bytes more = elim (Bool-cases (ltb left read_size)) [
  | inl e ↦ rw e (more, omega arith)
  | inr e ↦ rw e (some_bytes, ground (arith, e))
]

round_lem :
    (fuel n size offset : ℕ) (input : List ℕ) (position : ℕ) (out : List ℕ)
    → size < 2 ^ 64
    → 0 < n
    → n ≤ size - offset
    → (n ≤ length input
        → copy_chunks fuel size
            (offset + n)
            n
            (drop n input)
            (position + n)
            (fwrite position (take n input) out)
          ≡ some (
              copied
                (size - (offset + n))
                (drop n input)
                (position + n)
                (fwrite position (take n input) out)))
    → round fuel n size offset input position out ≡ some (copied (size - offset) input position out)
round_lem fuel n size offset input position out wide positive room next =
    let more : ltb offset size ≡ true = ground arith in
    let e : u64 (offset + n) ≡ offset + n = omega arith in
    elim (Bool-cases (ltb (length input) n)) [
      | inl short ↦
          let short' : ltb (length input) (size - offset) ≡ true = ground (arith, short) in
          rw (more, short, short') refl
      | inr long ↦
          let k : n ≤ length input = ground (arith, long) in
          let last : n + (size - (offset + n)) ≡ size - offset = omega arith in
          let step =
            next k
            ∙ ap some (
                copied-step n (size - (offset + n)) input position out k
                ∙ ap (λ m. copied m input position out) last) in
          rw (more, long, e) step
    ]

-- Where there is fuel for one round per byte and a chunk has at least one byte, the loop ends: it
-- fails when the input is shorter than what is left of the file's size, and otherwise writes that
-- many bytes at the position, as one write would, however they are cut into chunks.
pub copy_chunks_lem :
    (fuel size offset read_size : ℕ) (input : List ℕ) (position : ℕ) (out : List ℕ)
    → size < 2 ^ 64
    → 0 < read_size
    → offset ≤ size
    → size - offset < fuel
    → copy_chunks fuel size offset read_size input position out
      ≡ some (copied (size - offset) input position out)
unfolding copy_chunks fwrite
copy_chunks_lem zero size offset read_size input position out wide some_bytes below enough =
    absurd (omega arith)
copy_chunks_lem (suc fuel) size offset read_size input position out wide some_bytes below enough =
    elim (Bool-cases (ltb offset size)) [
      | inl more ↦
          let less : offset < size = ground (arith, more) in
          let (positive, room) = chunk (size - offset) read_size some_bytes (omega arith) in
          let n = if ltb (size - offset) read_size then size - offset else read_size in
          round_lem fuel n size offset input position out wide positive room (λ k.
            copy_chunks_lem fuel size (offset + n) n (drop n input) (position + n)
              (fwrite position (take n input) out) wide positive (omega arith) (omega arith))
      | inr done ↦
          let e : size - offset ≡ 0 = ground (arith, done) in
          let none_short : ltb (length input) 0 ≡ false = ground arith in
          let nothing : fwrite position (take 0 input) out ≡ out = refl in
          rw (done, e, none_short, nothing) refl
    ]
