-- ===== src/Elf2rpl/Loader/Verified.antt =====
-- Where `fixLoaderVirtualAddresses` puts the symbol and string tables.

use wut_tools.Common.{
  ℕ, zero, suc, ◌+◌, ◌*◌, ◌/◌, ◌-◌, ◌^◌, ◌≤◌, ◌<◌, ◌≡◌, refl, ap, ap₂, sym, append_assoc, subst,
  ◌∙◌, arith, u32, bit_or, Bool, true, inl, inr, Bool-cases, ◌||◌, ◌==◌, ◌&&◌, if◌then◌else◌, List,
  [], ◌∷◌, ◌++◌, map, length, length-append, length-drop, length-map, get_elem?, drop, All, some,
}
use wut_tools.Elf.Bytes.{
  symbol_of, symbol_bytes, rela_of, rela_bytes, table, sizeof_symbol, sizeof_rela,
}
use wut_tools.Elf.Codec.{Codec, rela_codec, symbol_codec, length-table_bytes, length-table}
use wut_tools.Elf.Constants
use wut_tools.Elf.{SectionHeader}
use wut_tools.Elf2rpl.File.{Section, ElfFile, load_base_address}
use wut_tools.Elf2rpl.Loader.{
  Move, move_symbol, move_rela, change_table, move_entries, change_at, move_of, relocate_section,
  load_max, is_loader_table, set_alloc, move_tables, fix_loader_virtual_addresses,
}
use wut_tools.Utils.Align.{Aligns, align_up-Aligns, pow_mono}
use wut_tools.Utils.{align_up, align_check}

-- A section's header, and the size of its contents.
abbrev pub info : Section → SectionHeader × ℕ
info s = (s.header, length s.bytes)

abbrev pub is_table : SectionHeader × ℕ → Bool
is_table p = p.0.type == Constants.sht_symtab || p.0.type == Constants.sht_strtab

length-change_table :
    {A : Type 0} (codec : Codec A) (change : A → A) (bytes : List ℕ)
    → length (change_table codec.size codec.reader codec.writer change bytes)
      ≡ codec.size * (length bytes / codec.size)
        + (length bytes - codec.size * (length bytes / codec.size))
unfolding change_table
length-change_table codec change bytes =
    let n = length bytes / codec.size in
    let rows = map change (table codec.size codec.reader n bytes) in
    rw
      (
        length-append _ (drop (codec.size * n) bytes),
        length-table_bytes codec rows,
        length-map change (table codec.size codec.reader n bytes),
        length-table codec n bytes,
        length-drop (codec.size * n) bytes,
      )
      refl

move_entries-info : (m : Move) (i : ℕ) (s : Section) → info (move_entries m i s) ≡ info s
unfolding move_entries
move_entries-info m i s =
    let e1 : length (change_table sizeof_symbol symbol_of symbol_bytes (move_symbol m) s.bytes)
        ≡ length s.bytes =
      length-change_table symbol_codec (move_symbol m) s.bytes ∙ omega arith in
    let e2 : length (change_table sizeof_rela rela_of rela_bytes (move_rela m) s.bytes)
        ≡ length s.bytes =
      length-change_table rela_codec (move_rela m) s.bytes ∙ omega arith in
    elim (Bool-cases (s.header.type == Constants.sht_symtab)) [
      | inl symtab ↦ rw symtab (ap (λ n. (s.header, n)) e1)
      | inr other ↦
          elim (Bool-cases (s.header.type == Constants.sht_rela && (s.header.info == i))) [
            | inl rela ↦ rw (other, rela) (ap (λ n. (s.header, n)) e2)
            | inr neither ↦ rw (other, neither) refl
          ]
    ]

map-move_entries :
    (m : Move) (i : ℕ) (ss : List Section) → map info (map (move_entries m i) ss) ≡ map info ss
map-move_entries m i [] = refl
map-move_entries m i (s ∷ ss) = ap₂ ◌∷◌ (move_entries-info m i s) (map-move_entries m i ss)

-- A change of one section, among the others.
map-change_at :
    (change : Section → Section) (change' : SectionHeader × ℕ → SectionHeader × ℕ)
    → ((s : Section) → info (change s) ≡ change' (info s))
    → (ss : List Section) (front : List (SectionHeader × ℕ)) (p : SectionHeader × ℕ)
      (back : List (SectionHeader × ℕ))
    → map info ss ≡ front ++ p ∷ back
    → map info (change_at (length front) change ss) ≡ front ++ change' p ∷ back
unfolding change_at
map-change_at change change' agrees [] [] p back e = absurd (cc)
map-change_at change change' agrees [] (q ∷ front) p back e = absurd (cc)
map-change_at change change' agrees (s ∷ ss) [] p back e =
    let e1 : info s ≡ p = cc in
    let e2 : map info ss ≡ back = cc in ap₂ ◌∷◌ (agrees s ∙ ap change' e1) e2
map-change_at change change' agrees (s ∷ ss) (q ∷ front) p back e =
    let e1 : info s ≡ q = cc in
    let e2 : map info ss ≡ front ++ p ∷ back = cc in
    ap₂ ◌∷◌ e1 (map-change_at change change' agrees ss front p back e2)

get_elem?-info :
    (ss : List Section) (front : List (SectionHeader × ℕ)) (p : SectionHeader × ℕ)
    (back : List (SectionHeader × ℕ))
    → map info ss ≡ front ++ p ∷ back
    → (s : Section) × (get_elem? ss (length front) ≡ some s) × (info s ≡ p)
get_elem?-info [] [] p back e = absurd (cc)
get_elem?-info [] (q ∷ front) p back e = absurd (cc)
get_elem?-info (s ∷ ss) [] p back e = (s, refl, cc)
get_elem?-info (s ∷ ss) (q ∷ front) p back e = get_elem?-info ss front p back (cc)

-- A table at its new address.
abbrev placed : ℕ → SectionHeader × ℕ → SectionHeader × ℕ
placed target p =
    (record (p.0) { addr = target; flags = bit_or p.0.flags Constants.shf_alloc }, p.1)

-- The loop, as it acts on the headers.
unfoldable stack : ℕ → List (SectionHeader × ℕ) → List (SectionHeader × ℕ)
stack max [] = []
stack max (p ∷ ps) =
    let target = align_up 32 max p.0.addralign in
    if is_table p then placed target p ∷ stack (u32 (target + p.1)) ps else p ∷ stack max ps

relocated-info :
    (ss : List Section) (s : Section) (front back : List (SectionHeader × ℕ)) (i target : ℕ)
    → i ≡ length front
    → map info ss ≡ front ++ info s ∷ back
    → map info (change_at i set_alloc (relocate_section ss s i target))
      ≡ front ++ placed target (info s) ∷ back
unfolding relocate_section
relocated-info ss s front back i target at_front e = rw at_front (
    map-change_at set_alloc
      (λ p. (record (p.0) { flags = bit_or p.0.flags Constants.shf_alloc }, p.1)) (λ t. refl) _
      front _ back
      (map-change_at (λ (t : Section). record t { header = record (t.header) { addr = target } })
        (λ p. (record (p.0) { addr = target }, p.1)) (λ t. refl) _ front _ back
        (map-move_entries (move_of s target) (length front) ss ∙ e)))

move_tables-stack :
    (n i max : ℕ) (ss : List Section) (front back : List (SectionHeader × ℕ))
    → i ≡ length front
    → n ≡ length back
    → map info ss ≡ front ++ back
    → map info (move_tables n i max ss) ≡ front ++ stack max back
unfolding move_tables stack
move_tables-stack zero i max ss front [] at_front count e = e
move_tables-stack zero i max ss front (p ∷ back) at_front count e = absurd (omega arith)
move_tables-stack (suc n) i max ss front [] at_front count e = absurd (omega arith)
move_tables-stack (suc n) i max ss front (p ∷ back) at_front count e =
    let (s, found, same) = get_elem?-info ss front p back e in
    let found' : get_elem? ss i ≡ some s = ap (λ j. get_elem? ss j) at_front ∙ found in
    let e' : map info ss ≡ front ++ info s ∷ back = e ∙ ap (λ q. front ++ q ∷ back) (sym same) in
    let target = align_up 32 max s.header.addralign in
    let next : (q : SectionHeader × ℕ) → i + 1 ≡ length (front ++ q ∷ []) =
      λ q. omega (arith, at_front, length-append front (q ∷ [])) in
    subst (λ q. map info (move_tables (suc n) i max ss) ≡ front ++ stack max (q ∷ back)) same
      (elim (Bool-cases (is_loader_table s)) [
        | inl moves ↦
            rw (move_tables, found', moves)
              (move_tables-stack n (i + 1) (u32 (target + length s.bytes))
                  (change_at i set_alloc (relocate_section ss s i target))
                  (front ++ placed target (info s) ∷ []) back (next _) (omega arith)
                  (relocated-info ss s front back i target at_front e'
                    ∙ sym (append_assoc front _ back))
                ∙ append_assoc front _ _)
        | inr stays ↦
            rw (move_tables, found', stays)
              (move_tables-stack n (i + 1) max ss (front ++ info s ∷ []) back (next _) (omega arith)
                  (e' ∙ sym (append_assoc front _ back))
                ∙ append_assoc front _ _)
      ])

-- Each table starts, aligned, behind `low` and behind the table before it.
abbrev pub IsStacked : ℕ → List (SectionHeader × ℕ) → Type 0
IsStacked low [] = Unit {0}
IsStacked low (p ∷ ps) =
    (is_table p ≡ true → (low ≤ p.0.addr) × (align_check p.0.addr p.0.addralign ≡ true))
    × IsStacked (if is_table p then p.0.addr + p.1 else low) ps

-- A table's alignment is a power of two, of a page at most.
abbrev pub HasAlignment : SectionHeader × ℕ → Type 0
HasAlignment p = is_table p ≡ true → (k : ℕ) × (p.0.addralign ≡ 2 ^ k) × (k ≤ 12)

-- The space that the sections could take, with a page for each alignment.
abbrev pub space : List (SectionHeader × ℕ) → ℕ
space [] = 0
space (p ∷ ps) = p.1 + 4096 + space ps

target_bounds :
    (max : ℕ) (p : SectionHeader × ℕ)
    → (k : ℕ) × (p.0.addralign ≡ 2 ^ k) × (k ≤ 12)
    → max + 4096 < 2 ^ 32
    → let target = align_up 32 max p.0.addralign in
      (max ≤ target) × (target < max + 4096) × (align_check target p.0.addralign ≡ true)
target_bounds max p (k, power, page) small =
    let le : 2 ^ k ≤ 4096 = ground (arith, pow_mono k (12 - k)) in
    let a : Aligns max (2 ^ k) (align_up 32 max (2 ^ k)) =
      align_up-Aligns 32 k max (omega arith) (omega arith) (omega arith) in
    rw power (a.0, omega (arith, a.1), a.2)

stack-IsStacked :
    (max : ℕ) (ps : List (SectionHeader × ℕ))
    → All HasAlignment ps
    → max + space ps < 2 ^ 32
    → IsStacked max (stack max ps)
unfolding stack
stack-IsStacked max [] h small = tt
stack-IsStacked max (p ∷ ps) h small = elim (Bool-cases (is_table p)) [
  | inl one ↦
      let target = align_up 32 max p.0.addralign in
      let b = target_bounds max p (h.0 one) (omega arith) in
      let fits : u32 (target + p.1) ≡ target + p.1 = omega (arith, b.1) in
      let rest : IsStacked (target + p.1) (stack (target + p.1) ps) =
        stack-IsStacked (target + p.1) ps h.1 (omega (arith, b.1)) in
      let rest' : IsStacked (if is_table p then target + p.1 else max) (stack (target + p.1) ps) =
        rw one rest in
      rw (one, fits) ((λ t. (b.0, b.2)), rest')
  | inr other ↦
      let rest : IsStacked (if is_table p then p.0.addr + p.1 else max) (stack max ps) =
        rw other (stack-IsStacked max ps h.1 (omega arith)) in
      rw other ((λ t. absurd (cc)), rest)
]

-- If the alignment of each symbol and string table is a power of two, of a page at most, and the
-- address space has room for all sections behind `loadMax`, then `fixLoaderVirtualAddresses` puts
-- these tables, in their order, aligned and one behind the other, from `loadMax` on.
pub fix_loader_virtual_addresses-IsStacked :
    (file : ElfFile)
    → All HasAlignment (map info file.sections)
    → load_max load_base_address file.sections + space (map info file.sections) < 2 ^ 32
    → IsStacked
        (load_max load_base_address file.sections)
        (map info (fix_loader_virtual_addresses file).sections)
unfolding fix_loader_virtual_addresses
fix_loader_virtual_addresses-IsStacked file aligned room =
    let e : map info (fix_loader_virtual_addresses file).sections
        ≡ stack (load_max load_base_address file.sections) (map info file.sections) =
      move_tables-stack (length file.sections) 0 _ file.sections [] (map info file.sections) refl
        (sym (length-map info file.sections)) refl in
    subst (IsStacked (load_max load_base_address file.sections)) (sym e)
      (stack-IsStacked _ (map info file.sections) aligned room)
