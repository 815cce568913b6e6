-- ===== src/Readrpl/Reading/Streams.antt =====
-- Reads from a file that has the bytes.
use wut_tools.Common.{
  ℕ, ◌+◌, ◌≡◌, refl, sym, ap, ◌∙◌, arith, true, leb, List, ◌++◌, length, take, drop, take-take,
  drop-take, take-append, drop-append, drop-drop, drop-eq-nil, append-nil, length-append,
}
use wut_tools.Elf2rpl.Reading.{read_into}
use wut_tools.Files.Patches.{read_at}

-- The parts of bytes that are there are there.
pub read_at-append :
    (p : ℕ) (a b file : List ℕ)
    → read_at p (length (a ++ b)) file ≡ a ++ b
    → (read_at p (length a) file ≡ a) × (read_at (p + length a) (length b) file ≡ b)
read_at-append p a b file there =
    let whole : take (length a + length b) (drop p file) ≡ a ++ b =
      ap (λ n. take n (drop p file)) (sym (length-append a b)) ∙ there in
    (
      sym (take-take (length a) (length a + length b) (drop p file) (omega arith))
          ∙ ap (take (length a)) whole
          ∙ take-append a b,
      ap (take (length b)) (sym (drop-drop p (length a) file))
          ∙ sym (drop-take (length a) (length a + length b) (length b) (drop p file) refl)
          ∙ ap (drop (length a)) whole
          ∙ drop-append a b,
    )

pub read_into_all :
    (file : List ℕ) (p : ℕ) (bytes buffer : List ℕ)
    → read_at p (length bytes) file ≡ bytes
    → length bytes ≡ length buffer
    → read_into file (record { pos = p; good = true }) buffer
      ≡ (bytes, record { pos = p + length bytes; good = true })
unfolding read_into
read_into_all file p bytes buffer there size =
    let got : take (length buffer) (drop p file) ≡ bytes =
      ap (λ n. take n (drop p file)) (sym size) ∙ there in
    let full : leb (length buffer) (length bytes) ≡ true = ground (arith, size) in
    let rest : bytes ++ drop (length bytes) buffer ≡ bytes =
      ap (λ t. bytes ++ t) (drop-eq-nil (length bytes) buffer (omega (arith, size)))
      ∙ append-nil bytes in
    rw (got, full, rest) refl
