-- ===== src/Elf2rpl/Reading/Verified.antt =====
-- How `readElf` numbers the sections that it keeps.
use wut_tools.Common.{
  ℕ, zero, suc, ◌+◌, ◌<◌, ◌^◌, ◌≡◌, ◌≢◌, refl, ap, sym, subst, ◌∙◌, arith, Bool, true, false, inl,
  inr, Bool-cases, ◌==◌, if◌then◌else◌, List, [], ◌∷◌, map, length, drop, access, Option, none,
  some, ok, failed, >>=-eq-ok, ok-injective,
}
use wut_tools.Elf.Bytes.{c_string, header_of}
use wut_tools.Elf2rpl.File.{Section, ElfFile, section_at, uint32_max}
use wut_tools.Elf2rpl.Reading.{
  Stream, is_elf_for_rpl, read_section, read_sections, name_sections, is_debugging, discard,
  mark_sections, read_elf, read_into, seek,
}
use wut_tools.Elf2rpl.Write.{written_sections}

-- The numbers from `i` on.
abbrev pub count_from : ℕ → ℕ → List ℕ
count_from i zero = []
count_from i (suc n) = i ∷ count_from (i + 1) n

abbrev pub indices : List Section → List ℕ
indices = map (λ (s : Section). s.index)

-- The sections that are kept have the indices from `i` on, and `n` more are discarded.
pub record IsNumbered (i n : ℕ) (ss : List Section) : Type 0 where
  pub consecutive : indices (written_sections ss) ≡ count_from i (length (written_sections ss))
  pub counted : length ss ≡ length (written_sections ss) + n

record Marked (i count : ℕ) (ss : List Section) (p : List Section × ℕ) : Type 0 where
  discarded : ℕ
  total : p.1 ≡ count + discarded
  numbered : IsNumbered i discarded p.0
  size : length p.0 ≡ length ss

discarded_first :
    (i n : ℕ) (s : Section) (ss : List Section)
    → IsNumbered i n ss
    → IsNumbered i (n + 1) (discard s ∷ ss)
unfolding written_sections discard
discarded_first i n s ss h = record {
  consecutive = h.consecutive;
  counted = omega (arith, h.counted);
}

kept_first :
    (i n : ℕ) (s : Section) (ss : List Section)
    → i ≢ uint32_max
    → IsNumbered (i + 1) n ss
    → IsNumbered i n (record s { index = i } ∷ ss)
unfolding written_sections
kept_first i n s ss room h =
    let e : (i == uint32_max) ≡ false = ground arith in
    record {
      consecutive = rw e (ap (λ rest. i ∷ rest) h.consecutive);
      counted = rw e (omega (arith, h.counted));
    }

none_kept : (i : ℕ) → IsNumbered i 0 []
unfolding written_sections
none_kept i = record { consecutive = refl; counted = refl }

-- One round more, whichever way it goes.
Marked-first :
    (i count : ℕ) (s : Section) (ss : List Section) (debugging : Bool) (rest : List Section × ℕ)
    → i + suc (length ss) < uint32_max
    → Marked (if debugging then i else i + 1) (if debugging then count + 1 else count) ss rest
    → Marked i count
        (s ∷ ss)
        ((if debugging then discard s else record s { index = i }) ∷ rest.0, rest.1)
Marked-first i count s ss true rest small m = record {
  discarded = m.discarded + 1;
  total = omega (arith, m.total);
  numbered = discarded_first i m.discarded s rest.0 m.numbered;
  size = ap suc m.size;
}
Marked-first i count s ss false rest small m = record {
  discarded = m.discarded;
  total = m.total;
  numbered = kept_first i m.discarded s rest.0 (omega arith) m.numbered;
  size = ap suc m.size;
}

mark_sections-Marked :
    (all : List Section) (i count : ℕ) (ss : List Section) (p : List Section × ℕ)
    → i + length ss < uint32_max
    → mark_sections all i count ss ≡ ok p
    → Marked i count ss p
unfolding mark_sections
mark_sections-Marked all i count [] p small run =
    subst (Marked i count []) (ok-injective run)
      (record { discarded = 0; total = omega arith; numbered = none_kept i; size = refl })
mark_sections-Marked all i count (s ∷ ss) p small run =
    let (debugging, r1, run1) = >>=-eq-ok (is_debugging all s) _ run in
    let (rest, r2, run2) =
      >>=-eq-ok
        (mark_sections all (if debugging then i else i + 1) (if debugging then count + 1 else count)
          ss)
        _ run1 in
    let m =
      mark_sections-Marked all (if debugging then i else i + 1)
        (if debugging then count + 1 else count) ss rest (ground arith) r2 in
    subst (Marked i count (s ∷ ss)) (ok-injective run2)
      (Marked-first i count s ss debugging rest small m)

Marked-from_zero :
    (ss : List Section) (p : List Section × ℕ)
    → Marked 0 0 ss p
    → IsNumbered 0 p.1 p.0 × (length p.0 ≡ length ss)
Marked-from_zero ss p m =
    let e : m.discarded ≡ p.1 = omega (arith, m.total) in
    (subst (λ n. IsNumbered 0 n p.0) e m.numbered, m.size)

-- `name_sections` and the loop that reads keep the number of sections.
length-read_sections :
    (n : ℕ) (file : List ℕ) (in_ : Stream) → length (read_sections n file in_) ≡ n
unfolding read_sections
length-read_sections zero file in_ = refl
length-read_sections (suc n) file in_ =
    ap suc (length-read_sections n file (read_section file in_).1)

length-name_sections :
    (names : List ℕ) (ss ss' : List Section)
    → name_sections names ss ≡ ok ss'
    → length ss' ≡ length ss
unfolding name_sections
length-name_sections names [] ss' run = ap length (sym (ok-injective run))
length-name_sections names (s ∷ ss) ss' run =
    let (name, r1, run1) = >>=-eq-ok (access (c_string (drop s.header.name names))) _ run in
    let (named, r2, run2) = >>=-eq-ok (name_sections names ss) _ run1 in
    subst (λ (xs : List Section). length xs ≡ suc (length ss)) (ok-injective run2)
      (ap suc (length-name_sections names ss named r2))

-- If `readElf` succeeds, then it reads as many sections as the header counts (which is a 16-bit
-- field), numbers those that it keeps consecutively from 0, and counts the others.
pub read_elf-IsNumbered :
    (opened : Option (List ℕ)) (memory : List ℕ) (elf : ElfFile)
    → read_elf opened memory ≡ ok elf
    → elf.header.shnum < 2 ^ 16
    → IsNumbered 0 elf.num_discarded_sections elf.sections
      × (length elf.sections ≡ elf.header.shnum)
unfolding read_elf
read_elf-IsNumbered none memory elf run small = absurd (cc)
read_elf-IsNumbered (some file) memory elf run small =
    let (bytes, in1) = read_into file (record { pos = 0; good = true }) memory in
    let h = header_of bytes in
    elim (Bool-cases (is_elf_for_rpl h)) [
      | inl fine ↦
          let sections = read_sections h.shnum file (seek h.shoff in1) in
          let (names, r1, run1) = >>=-eq-ok (section_at sections h.shstrndx) _ (rw fine at run) in
          let (named, r2, run2) = >>=-eq-ok (name_sections names.bytes sections) _ run1 in
          let (marked, r3, run3) = >>=-eq-ok (mark_sections named 0 0 named) _ run2 in
          let e = ok-injective run3 in
          let size : length named ≡ h.shnum =
            length-name_sections names.bytes sections named r2
            ∙ length-read_sections h.shnum file (seek h.shoff in1) in
          let same : h.shnum ≡ elf.header.shnum = ap (λ (f : ElfFile). f.header.shnum) e in
          let m =
            Marked-from_zero named marked
              (mark_sections-Marked named 0 0 named marked (omega arith) r3) in
          subst
            (λ (f : ElfFile).
              IsNumbered 0 f.num_discarded_sections f.sections
              × (length f.sections ≡ f.header.shnum))
            e (m.0, m.1 ∙ size)
      | inr bad ↦ absurd (let e' : failed ≡ ok elf = rw bad at run in cc)
    ]
