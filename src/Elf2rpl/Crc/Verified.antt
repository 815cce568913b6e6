-- ===== src/Elf2rpl/Crc/Verified.antt =====
-- `generateCrcSection` against `verifyCrcs` of readrpl.
use wut_tools.Common.{
  ℕ, suc, ◌+◌, ◌*◌, ◌^◌, ◌<◌, ◌≡◌, ◌≢◌, refl, ap, ap₂, sym, subst, subst₂, ◌∙◌, arith, true, false,
  inl, inr, Bool-cases, List, [], is_empty, ◌∷◌, ◌++◌, map, length, drop, All, append_assoc,
  length-append, before_last, before_last-append, some, ok, ok-injective, leb, ◌==◌, ◌!=◌,
}
use wut_tools.Elf.Bytes.{read_32, bytes_32, table_bytes}
use wut_tools.Elf.Constants
use wut_tools.Elf2rpl.Crc.{Crc32, crc_of, crc_header, generate_crc_section}
use wut_tools.Elf2rpl.File.{Section, ElfFile, uint32_max}
use wut_tools.Elf2rpl.Relocations.Verified.{loaded}
use wut_tools.Elf2rpl.Write.{written_sections}
use wut_tools.Readrpl.Rpl
use wut_tools.Readrpl.Rpl.{Rpl}
use wut_tools.Readrpl.Verify.Crcs.{find_crcs, crc_at, expected_crc, check_crcs, verify_crcs}

abbrev words : List ℕ → List ℕ
words = table_bytes bytes_32

words-some : (xs : List ℕ) (y : ℕ) (ys : List ℕ) → is_empty (words (xs ++ y ∷ ys)) ≡ false
unfolding table_bytes
words-some [] y ys = refl
words-some (x ∷ xs) y ys = refl

-- An entry of a table of words, behind the entries before it.
drop-words : (done : List ℕ) (rest : List ℕ) → drop (4 * length done) (words done ++ rest) ≡ rest
unfolding table_bytes
drop-words [] rest = refl
drop-words (x ∷ done) rest =
    let e : 4 * suc (length done) ≡ suc (suc (suc (suc (4 * length done)))) = omega arith in
    rw e (drop-words done rest)

length-words : (vs : List ℕ) → length (words vs) ≡ 4 * length vs
unfolding table_bytes
length-words [] = omega arith
length-words (v ∷ vs) = omega (arith, length-words vs)

words-append : (xs ys : List ℕ) → words (xs ++ ys) ≡ words xs ++ words ys
unfolding table_bytes
words-append [] ys = refl
words-append (x ∷ xs) ys = rw (words-append xs ys)

crc_at-words :
    (done : List ℕ) (v : ℕ) (rest : List ℕ)
    → v < 2 ^ 32
    → crc_at (words (done ++ v ∷ rest)) (length done) ≡ ok v
unfolding crc_at table_bytes read_32
crc_at-words done v rest small =
    let room : leb (4 * length done + 4) (length (words (done ++ v ∷ rest))) ≡ true =
      ground (arith, length-words (done ++ v ∷ rest), length-append done (v ∷ rest)) in
    rw (room, words-append done (v ∷ rest), drop-words done (words (v ∷ rest))) (ground arith)

-- A section that holds no checksums.
abbrev pub IsPlain : Section → Type 0
IsPlain s = s.header.type ≢ Constants.sht_rpl_crcs

written-append :
    (xs ys : List Section)
    → written_sections (xs ++ ys) ≡ written_sections xs ++ written_sections ys
unfolding written_sections
written-append [] ys = refl
written-append (x ∷ xs) ys = elim (Bool-cases (x.index == uint32_max)) [
  | inl discarded ↦ rw discarded (written-append xs ys)
  | inr kept ↦ rw (kept, written-append xs ys)
]

written-IsPlain : (ss : List Section) → All IsPlain ss → All IsPlain (written_sections ss)
unfolding written_sections
written-IsPlain [] h = tt
written-IsPlain (s ∷ ss) h = elim (Bool-cases (s.index == uint32_max)) [
  | inl discarded ↦ rw discarded (written-IsPlain ss h.1)
  | inr kept ↦ rw kept (h.0, written-IsPlain ss h.1)
]

last_kept : (s : Section) → (s.index == uint32_max) ≡ false → written_sections (s ∷ []) ≡ s ∷ []
unfolding written_sections
last_kept s e = rw e

map-append-last :
    (f : Section → ℕ) (xs : List Section) (y : Section)
    → map f (xs ++ y ∷ []) ≡ map f xs ++ f y ∷ []
map-append-last f [] y = refl
map-append-last f (x ∷ xs) y = ap (λ zs. f x ∷ zs) (map-append-last f xs y)

module _ (zlib : Crc32) where
  abbrev crcs_of : List Section → List ℕ
  crcs_of = map (λ (s : Section). crc_of zlib s.bytes)

  abbrev expected : List Rpl.Section → List ℕ
  expected = map (expected_crc zlib)

  crc_of-lt : (bytes : List ℕ) → crc_of zlib bytes < 2 ^ 32
  unfolding crc_of
  crc_of-lt [] = omega arith
  crc_of-lt (b ∷ bs) = omega arith

  expected_crc-lt : (s : Rpl.Section) → expected_crc zlib s < 2 ^ 32
  unfolding expected_crc
  expected_crc-lt s = ground (arith, crc_of-lt s.bytes)

  -- The loop succeeds on a table of the expected values.
  check_crcs-expected :
      (done : List ℕ) (ss : List Rpl.Section)
      → check_crcs zlib (words (done ++ expected ss)) (length done) true ss ≡ ok true
  unfolding check_crcs
  check_crcs-expected done [] = refl
  check_crcs-expected done (s ∷ ss) =
      let v = expected_crc zlib s in
      let e1 : length done + 1 ≡ length (done ++ v ∷ []) =
        omega (arith, length-append done (v ∷ [])) in
      let e2 : (v != v) ≡ false = ground arith in
      let e3 : (done ++ v ∷ []) ++ expected ss ≡ done ++ v ∷ expected ss =
        append_assoc done (v ∷ []) (expected ss) in
      let rest : check_crcs zlib (words (done ++ v ∷ expected ss)) (length done + 1) true ss
          ≡ ok true =
        subst₂ (λ (i : ℕ) (vs : List ℕ). check_crcs zlib (words vs) i true ss ≡ ok true) (sym e1) e3
          (check_crcs-expected (done ++ v ∷ []) ss) in
      rw (crc_at-words done v (expected ss) (expected_crc-lt s), e2) rest

  expected-plain : (ss : List Section) → All IsPlain ss → expected (map loaded ss) ≡ crcs_of ss
  unfolding expected_crc
  expected-plain [] h = refl
  expected-plain (s ∷ ss) h =
      ap₂ ◌∷◌ (let e : (s.header.type != Constants.sht_rpl_crcs) ≡ true = ground arith in rw e)
        (expected-plain ss h.1)

  find_crcs-behind :
      (front : List Section) (s : Rpl.Section) (back : List Rpl.Section)
      → All IsPlain front
      → s.header.type ≡ Constants.sht_rpl_crcs
      → is_empty s.bytes ≡ false
      → find_crcs (map loaded front ++ s ∷ back) ≡ some s.bytes
  unfolding find_crcs
  find_crcs-behind [] s back h e some_ = rw (e, some_) refl
  find_crcs-behind (x ∷ front) s back h e some_ =
      let e' : (x.header.type == Constants.sht_rpl_crcs) ≡ false = ground arith in
      rw e' (find_crcs-behind front s back h.1 e some_)

  abbrev crc_section : List ℕ → Section
  crc_section bytes = record { header = crc_header; name = []; bytes = bytes; index = 0 }

  -- The table that is generated, of one section behind others.
  generated :
      (file file' : ElfFile) (front : List Section) (last : Section)
      → file.sections ≡ front ++ last ∷ []
      → last.index ≢ uint32_max
      → generate_crc_section zlib file ≡ ok file'
      → let vs = crcs_of (written_sections front) ++ 0 ∷ crc_of zlib last.bytes ∷ [] in
        file'.sections ≡ front ++ crc_section (words vs) ∷ last ∷ []
  unfolding generate_crc_section
  generated file file' front last shape kept run =
      let e1 : (last.index == uint32_max) ≡ false = ground arith in
      let e2 : written_sections (last ∷ []) ≡ last ∷ [] = last_kept last e1 in
      let e3 : crcs_of (written_sections file.sections)
          ≡ crcs_of (written_sections front) ++ crc_of zlib last.bytes ∷ [] =
        rw (shape, written-append front (last ∷ []), e2)
          (map-append-last _ (written_sections front) last) in
      let run1 = run in
      let vs = crcs_of (written_sections front) ++ 0 ∷ crc_of zlib last.bytes ∷ [] in
      let e4 : before_last 0 (crcs_of (written_sections file.sections)) ≡ some vs =
        rw e3 (before_last-append 0 (crc_of zlib last.bytes) (crcs_of (written_sections front))) in
      let e5 : before_last (crc_section (words vs)) file.sections
          ≡ some (front ++ crc_section (words vs) ∷ last ∷ []) =
        rw shape (before_last-append (crc_section (words vs)) last front) in
      ap (λ (f : ElfFile). f.sections) (sym (ok-injective (rw (e4, e5) at run)))

  expected-append :
      (front back : List Section)
      → All IsPlain front
      → expected (map loaded (front ++ back)) ≡ crcs_of front ++ expected (map loaded back)
  unfolding expected_crc
  expected-append [] back h = refl
  expected-append (s ∷ front) back h =
      ap₂ ◌∷◌ (let e : (s.header.type != Constants.sht_rpl_crcs) ≡ true = ground arith in rw e)
        (expected-append front back h.1)

  map-loaded-append :
      (front back : List Section) → map loaded (front ++ back) ≡ map loaded front ++ map loaded back
  map-loaded-append [] back = refl
  map-loaded-append (s ∷ front) back = ap (λ ss. loaded s ∷ ss) (map-loaded-append front back)

  verify_found :
      (rpl : Rpl) (crcs : List ℕ)
      → find_crcs rpl.sections ≡ some crcs
      → check_crcs zlib crcs 0 true rpl.sections ≡ ok true
      → verify_crcs zlib rpl ≡ ok true
  unfolding verify_crcs
  verify_found rpl crcs found checked = rw (verify_crcs, found) checked

  -- The check of the sections that are written, with the generated one before the last.
  verify_crcs-generated :
      (rpl : Rpl) (front : List Section) (last : Section)
      → All IsPlain front
      → IsPlain last
      → let vs = crcs_of front ++ 0 ∷ crc_of zlib last.bytes ∷ [] in
        rpl.sections ≡ map loaded (front ++ crc_section (words vs) ∷ last ∷ [])
        → verify_crcs zlib rpl ≡ ok true
  unfolding verify_crcs expected_crc
  verify_crcs-generated rpl front last plain plain_last same =
      let vs = crcs_of front ++ 0 ∷ crc_of zlib last.bytes ∷ [] in
      let back = crc_section (words vs) ∷ last ∷ [] in
      let e1 : find_crcs (map loaded (front ++ back)) ≡ some (words vs) =
        rw (map-loaded-append front back) (
          find_crcs-behind front (loaded (crc_section (words vs))) (loaded last ∷ []) plain refl
            (words-some (crcs_of front) 0 (crc_of zlib last.bytes ∷ []))) in
      let e2 : (last.header.type != Constants.sht_rpl_crcs) ≡ true = ground arith in
      let e3 : expected (map loaded back) ≡ 0 ∷ crc_of zlib last.bytes ∷ [] = rw e2 in
      let e4 : expected (map loaded (front ++ back)) ≡ vs =
        expected-append front back plain ∙ ap (λ ws. crcs_of front ++ ws) e3 in
      let e5 : check_crcs zlib (words vs) 0 true (map loaded (front ++ back)) ≡ ok true =
        subst (λ ws. check_crcs zlib (words ws) 0 true (map loaded (front ++ back)) ≡ ok true) e4
          (check_crcs-expected [] (map loaded (front ++ back))) in
      let e6 : find_crcs rpl.sections ≡ some (words vs) = ap find_crcs same ∙ e1 in
      let e7 : check_crcs zlib (words vs) 0 true rpl.sections ≡ ok true =
        ap (λ ss. check_crcs zlib (words vs) 0 true ss) same ∙ e5 in
      verify_found rpl (words vs) e6 e7

  -- If `generateCrcSection` succeeds on a file whose last section is kept, none of whose sections
  -- holds checksums, then the sections that are written pass readrpl's check of the checksums,
  -- whatever the checksum function.
  pub verify_crcs-generate_crc_section :
      (file file' : ElfFile) (rpl : Rpl) (front : List Section) (last : Section)
      → file.sections ≡ front ++ last ∷ []
      → last.index ≢ uint32_max
      → All IsPlain front
      → IsPlain last
      → generate_crc_section zlib file ≡ ok file'
      → rpl.sections ≡ map loaded (written_sections file'.sections)
      → verify_crcs zlib rpl ≡ ok true
  unfolding written_sections
  verify_crcs-generate_crc_section file file' rpl front last shape kept plain plain_last run same =
      let vs = crcs_of (written_sections front) ++ 0 ∷ crc_of zlib last.bytes ∷ [] in
      let back = crc_section (words vs) ∷ last ∷ [] in
      let e1 : (last.index == uint32_max) ≡ false = ground arith in
      let e2 : written_sections back ≡ back = rw e1 in
      let e3 : written_sections file'.sections ≡ written_sections front ++ back =
        rw (generated file file' front last shape kept run, written-append front back, e2) in
      verify_crcs-generated rpl (written_sections front) last (written-IsPlain front plain)
        plain_last (same ∙ ap (λ (ss : List Section). map loaded ss) e3)
