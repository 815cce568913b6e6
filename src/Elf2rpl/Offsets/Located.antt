-- ===== src/Elf2rpl/Offsets/Located.antt =====
-- Where the loops put the sections of each group: one range behind the other.
use wut_tools.Common.{
  ℕ, ◌+◌, ◌*◌, ◌^◌, ◌≤◌, ◌<◌, ◌≡◌, ◌≢◌, refl, sym, ◌∙◌, arith, Bool, true, false, ◌⊎◌, inl, inr,
  List, [], ◌∷◌, map, All,
}
use wut_tools.Elf.Constants
use wut_tools.Elf.{SectionHeader}
use wut_tools.Elf2rpl.File.{Section}
use wut_tools.Elf2rpl.Offsets.Groups.{
  Group, ignored, data_group, read_group, text_group, temp_group, group_of, IsRegularHeader,
  is_data-group, is_read-group, is_text-group, is_temp-group,
}
use wut_tools.Elf2rpl.Offsets.Place.{total, total-place, place-end, place-All}
use wut_tools.Elf2rpl.Offsets.{
  place, place_groups, place_at, place_all, reset_offset, clear_empty, has_type, is_data, is_read,
  is_text, is_temp,
}

-- The sections of a group that are not empty lie in a range.
abbrev pub Within : Group → ℕ → ℕ → SectionHeader → Type 0
Within g lo hi h = h.size ≢ 0 → group_of h ≡ g → (lo ≤ h.offset) × (h.offset + h.size ≤ hi)

abbrev Survives : Group → (SectionHeader → Type 0) → Type 0
Survives g P =
    (s : Section) (o : ℕ)
    → (group_of s.header ≡ g) ⊎ (group_of s.header ≡ ignored)
    → P s.header
    → P (place_at o s).header

-- A placed section keeps its group.
group_of-place_at : (s : Section) (o : ℕ) → group_of (place_at o s).header ≡ group_of s.header
unfolding place_at group_of
group_of-place_at s o = refl

Within-Survives : (g g' : Group) (lo hi : ℕ) → g ≢ g' → ignored ≢ g' → Survives g (Within g' lo hi)
Within-Survives g g' lo hi ne ni s o (inl e) w nonempty same =
    absurd (ne (sym e ∙ (sym (group_of-place_at s o) ∙ same)))
Within-Survives g g' lo hi ne ni s o (inr e) w nonempty same =
    absurd (ni (sym e ∙ (sym (group_of-place_at s o) ∙ same)))

abbrev Regular : List Section → Type 0
Regular = All (λ s. IsRegularHeader s.header)

-- `All` of a part, and under an implication.
pub All-weaken :
    {P Q : Section → Type 0} (ss : List Section) → ((s : Section) → P s → Q s) → All P ss → All Q ss
All-weaken [] f h = tt
All-weaken (s ∷ ss) f h = (f s h.0, All-weaken ss f h.1)

×-Survives :
    (g : Group) (P Q : SectionHeader → Type 0)
    → Survives g P
    → Survives g Q
    → Survives g (λ h. P h × Q h)
×-Survives g P Q p q s o e h = (p s o e h.0, q s o e h.1)

-- What one loop leaves: its end, and the sections with one more fact of each.
record Stage (g : Group) (P : SectionHeader → Type 0) (o n : ℕ) (r : List Section × ℕ)
    : Type 0 where
  size : total r.0 ≤ n
  start : o ≤ r.1
  stop : r.1 ≤ o + n
  facts : All (λ s. IsRegularHeader s.header × (P s.header × Within g o r.1 s.header)) r.0

module _ (selects : Section → Bool) (g : Group)
    (group : (s : Section)
      → IsRegularHeader s.header
      → (selects s ≡ true → (group_of s.header ≡ g) ⊎ (group_of s.header ≡ ignored))
        × (selects s ≡ false → s.header.size ≢ 0 → group_of s.header ≢ g))
    (P : SectionHeader → Type 0) (survives : Survives g P) where
  place-Stage :
      (ss : List Section) (o n : ℕ)
      → total ss ≤ n
      → o + n < 2 ^ 32
      → All (λ s. IsRegularHeader s.header × P s.header) ss
      → Stage g P o n (place selects ss o)
  place-Stage ss o n small fits all =
      let hi = (place selects ss o).1 in
      let fits' : o + total ss < 2 ^ 32 = omega arith in
      let ends = place-end selects ss o fits' in
      record {
        size = omega (arith, total-place selects ss o);
        start = ends.0;
        stop = omega arith;
        facts =
            place-All selects (λ s. IsRegularHeader s.header × P s.header)
              (λ s. IsRegularHeader s.header × (P s.header × Within g o hi s.header)) o hi
              (λ s p unselected.
                (p.0, (p.1, λ nonempty same. absurd ((group s p.0).1 unselected nonempty same))))
              (λ s o' p selected lo hi' small. (
                unfold place_at in p.0,
                (
                  survives s o' ((group s p.0).0 selected) p.1,
                  λ _ _. unfold place_at in (lo, omega arith),
                ),
              ))
              ss o (omega arith) fits' (omega arith) all;
      }

-- The ranges that the four loops fill, one behind the other, of at most `n` bytes each.
pub record Ranges (offset n : ℕ) (sections : List Section) : Type 0 where
  pub read_start : ℕ
  pub text_start : ℕ
  pub temp_start : ℕ
  pub end : ℕ
  pub ordered :
      (offset ≤ read_start)
      × (read_start ≤ text_start)
      × (text_start ≤ temp_start)
      × (temp_start ≤ end)
      × (end ≤ offset + 4 * n)
  pub located :
      All
        (λ s.
          Within data_group offset read_start s.header
          × Within read_group read_start text_start s.header
          × Within text_group text_start temp_start s.header
          × Within temp_group temp_start end s.header)
        sections

one_group : {A : Type 0} {x y : Group} → (A → x ≡ y) → A → (x ≡ y) ⊎ (x ≡ ignored)
one_group f a = inl (f a)

pub place_groups-Ranges :
    (ss : List Section) (o n : ℕ)
    → total ss ≤ n
    → o + 4 * n < 2 ^ 32
    → Regular ss
    → Ranges o n (place_groups ss o)
unfolding place_groups
place_groups-Ranges ss o n small fits regular =
    let r1 = place is_data ss o in
    let r2 = place is_read r1.0 r1.1 in
    let r3 = place is_text r2.0 r2.1 in
    let D = Within data_group o r1.1 in
    let R = Within read_group r1.1 r2.1 in
    let X = Within text_group r2.1 r3.1 in
    let P0 : SectionHeader → Type 0 = λ _. Unit {0} in
    let P1 : SectionHeader → Type 0 = λ h. P0 h × D h in
    let P2 : SectionHeader → Type 0 = λ h. P1 h × R h in
    let P3 : SectionHeader → Type 0 = λ h. P2 h × X h in
    let s1 =
      place-Stage is_data data_group
        (λ s r. (one_group (is_data-group s r).0, (is_data-group s r).1)) P0 (λ s o e h. h) ss o n
        small (omega arith) (All-weaken ss (λ s h. (h, tt)) regular) in
    let s2 =
      place-Stage is_read read_group is_read-group P1
        (×-Survives read_group P0 D (λ s o e h. h)
          (Within-Survives read_group data_group o r1.1 (cc) (cc)))
        r1.0 r1.1 n s1.size (omega arith) s1.facts in
    let s3 =
      place-Stage is_text text_group
        (λ s r. (one_group (is_text-group s r).0, (is_text-group s r).1)) P2
        (×-Survives text_group P1 R
          (×-Survives text_group P0 D (λ s o e h. h)
            (Within-Survives text_group data_group o r1.1 (cc) (cc)))
          (Within-Survives text_group read_group r1.1 r2.1 (cc) (cc)))
        r2.0 r2.1 n s2.size (omega arith) s2.facts in
    let s4 =
      place-Stage is_temp temp_group
        (λ s r. (one_group (is_temp-group s r).0, (is_temp-group s r).1)) P3
        (×-Survives temp_group P2 X
          (×-Survives temp_group P1 R
            (×-Survives temp_group P0 D (λ s o e h. h)
              (Within-Survives temp_group data_group o r1.1 (cc) (cc)))
            (Within-Survives temp_group read_group r1.1 r2.1 (cc) (cc)))
          (Within-Survives temp_group text_group r2.1 r3.1 (cc) (cc)))
        r3.0 r3.1 n s3.size (omega arith) s3.facts in
    record {
      read_start = r1.1;
      text_start = r2.1;
      temp_start = r3.1;
      end = (place is_temp r3.0 r3.1).1;
      ordered = (s1.start, s2.start, s3.start, s4.start, omega arith);
      located =
          All-weaken (place is_temp r3.0 r3.1).0 (λ s f. (f.1.0.0.0.1, f.1.0.0.1, f.1.0.1, f.1.1))
            s4.facts;
    }

clear_empty-Regular :
    (ss : List Section) → Regular ss → Regular (map clear_empty (map reset_offset ss))
clear_empty-Regular [] h = tt
clear_empty-Regular (s ∷ ss) h =
    ((unfold clear_empty reset_offset in ground arith), clear_empty-Regular ss h.1)

pub clear_empty-total :
    (ss : List Section) → total (map clear_empty (map reset_offset ss)) ≤ total ss
unfolding total clear_empty reset_offset
clear_empty-total [] = omega arith
clear_empty-total (s ∷ ss) = ground (arith, clear_empty-total ss)

-- A loop keeps the sections regular.
place-Regular :
    (selects : Section → Bool) (ss : List Section) (o : ℕ)
    → o + total ss < 2 ^ 32
    → Regular ss
    → Regular (place selects ss o).0
place-Regular selects ss o fits regular =
    place-All selects (λ s. IsRegularHeader s.header) (λ s. IsRegularHeader s.header) o
      (place selects ss o).1 (λ s h _. h) (λ s o' h _ _ _ _. unfold place_at in h) ss o
      (omega arith) fits (omega arith) regular

-- The loops before the groups move the start on by at most the bytes that there are, each.
pub place_all-Ranges :
    (ss : List Section) (o : ℕ)
    → o + 6 * total ss < 2 ^ 32
    → Regular ss
    → (start : ℕ) × (o ≤ start)
      × (start ≤ o + 2 * total ss)
      × Ranges start (total ss) (place_all ss o)
unfolding place_all
place_all-Ranges ss o fits regular =
    let n = total ss in
    let cleared = map clear_empty (map reset_offset ss) in
    let smaller = clear_empty-total ss in
    let crcs = place (has_type Constants.sht_rpl_crcs) cleared o in
    let e1 = place-end (has_type Constants.sht_rpl_crcs) cleared o (omega arith) in
    let t1 = total-place (has_type Constants.sht_rpl_crcs) cleared o in
    let g1 =
      place-Regular (has_type Constants.sht_rpl_crcs) cleared o (omega arith)
        (clear_empty-Regular ss regular) in
    let infos = place (has_type Constants.sht_rpl_fileinfo) crcs.0 crcs.1 in
    let e2 = place-end (has_type Constants.sht_rpl_fileinfo) crcs.0 crcs.1 (omega arith) in
    let t2 = total-place (has_type Constants.sht_rpl_fileinfo) crcs.0 crcs.1 in
    let g2 = place-Regular (has_type Constants.sht_rpl_fileinfo) crcs.0 crcs.1 (omega arith) g1 in
    (
      infos.1,
      omega arith,
      omega arith,
      place_groups-Ranges infos.0 infos.1 n (omega arith) (omega arith) g2,
    )
