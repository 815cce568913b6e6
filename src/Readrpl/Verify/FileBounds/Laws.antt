-- ===== src/Readrpl/Verify/FileBounds/Laws.antt =====
-- The loop of `verifyFileBounds` over headers that lie in four ranges, one behind the other.
use wut_tools.Common.{
  ℕ, ◌+◌, ◌*◌, ◌≤◌, ◌<◌, ◌≡◌, ◌≢◌, refl, arith, true, List, [], ◌∷◌, All, Bool-cases, inl, inr, ◌⊎◌,
  u32, has, ◌!=◌, ◌&&◌, leb,
}
use wut_tools.Elf.Constants
use wut_tools.Elf.{Header, SectionHeader}
use wut_tools.Elf2rpl.Offsets.Groups.{data_group, read_group, text_group, temp_group, group_of}
use wut_tools.Elf2rpl.Offsets.Located.{Within}
use wut_tools.Readrpl.Verify.FileBounds.{
  Span, Bounds, no_offset, widen, is_ignored, bound_section, bound_sections, completed, or_at,
  in_order,
}

-- An untouched span, or one that lies in a range.
abbrev Lies : ℕ → ℕ → Span → Type 0
Lies lo hi p =
    ((p.lowest ≡ no_offset) × (p.highest ≡ 0))
    ⊎ ((lo ≤ p.lowest) × (p.lowest ≤ p.highest) × (p.highest ≤ hi))

module _ (a b c d e : ℕ) where
  abbrev pub InRanges : SectionHeader → Type 0
  InRanges h =
      Within data_group a b h
      × Within read_group b c h
      × Within text_group c d h
      × Within temp_group d e h

  abbrev pub AllLie : Bounds → Type 0
  AllLie s =
      Lies a b s.data_span × Lies b c s.read_span × Lies c d s.text_span × Lies d e s.temp_span

widen-Lies :
    (lo hi : ℕ) (p : Span) (h : SectionHeader)
    → hi < no_offset
    → (lo ≤ h.offset) × (h.offset + h.size ≤ hi)
    → Lies lo hi p
    → Lies lo hi (widen p h)
unfolding widen
widen-Lies lo hi p h small inside (inl untouched) = inr (omega arith)
widen-Lies lo hi p h small inside (inr lies) = inr (omega arith)

-- A span completed at the end of the range before it.
or_at_bounds :
    (place lo hi : ℕ) (p : Span)
    → place ≤ lo
    → lo ≤ hi
    → hi < no_offset
    → Lies lo hi p
    → (place ≤ (or_at place p).lowest)
      × ((or_at place p).lowest ≤ (or_at place p).highest)
      × ((or_at place p).highest ≤ hi)
unfolding or_at
or_at_bounds place lo hi p before range small (inl untouched) = ground arith
or_at_bounds place lo hi p before range small (inr lies) = ground arith

leb-true : (x y : ℕ) → x ≤ y → leb x y ≡ true
leb-true x y h = ground arith

-- What one round does, by the group of the section.
data Round (s : Bounds) (h : SectionHeader) (r : Bounds) : Type 0 where
  skipped : r ≡ s → Round s h r
  in_data :
      h.size ≢ 0
      → group_of h ≡ data_group
      → r ≡ record s { data_span = widen s.data_span h }
      → Round s h r
  in_read :
      h.size ≢ 0
      → group_of h ≡ read_group
      → r ≡ record s { read_span = widen s.read_span h }
      → Round s h r
  in_text :
      h.size ≢ 0
      → group_of h ≡ text_group
      → r ≡ record s { text_span = widen s.text_span h }
      → Round s h r
  in_temp :
      h.size ≢ 0
      → group_of h ≡ temp_group
      → r ≡ record s { temp_span = widen s.temp_span h }
      → Round s h r

bound_section-Round : (s : Bounds) (h : SectionHeader) → Round s h (bound_section s h)
unfolding bound_section group_of
bound_section-Round s h = elim (Bool-cases (is_ignored h)) [
  | inl yes' ↦ skipped (rw yes')
  | inr no' ↦
      elim (Bool-cases
        (has h.flags Constants.shf_execinstr && (h.type != Constants.sht_rpl_exports))) [
          | inl text ↦ in_text (ground arith) (ground arith) (rw (no', text))
          | inr other ↦ elim (Bool-cases (has h.flags Constants.shf_alloc)) [
            | inl alloc ↦ elim (Bool-cases (has h.flags Constants.shf_write)) [
              | inl write ↦ in_data (ground arith) (ground arith) (rw (no', other, alloc, write))
              | inr read ↦ in_read (ground arith) (ground arith) (rw (no', other, alloc, read))
            ]
            | inr temp ↦ in_temp (ground arith) (ground arith) (rw (no', other, temp))
          ]
        ]
]

module _ (a b c d e : ℕ) (small : e < no_offset)
    (ordered : (a ≤ b) × (b ≤ c) × (c ≤ d) × (d ≤ e)) where
  Round-AllLie :
      (s : Bounds) (h : SectionHeader) (r : Bounds)
      → Round s h r
      → InRanges a b c d e h
      → AllLie a b c d e s
      → AllLie a b c d e r
  Round-AllLie s h r (skipped eq) inside lies = rw eq lies
  Round-AllLie s h r (in_data n g eq) inside lies =
      rw eq
        (widen-Lies a b s.data_span h (omega arith) (inside.0 n g) lies.0, lies.1, lies.2, lies.3)
  Round-AllLie s h r (in_read n g eq) inside lies =
      rw eq
        (lies.0, widen-Lies b c s.read_span h (omega arith) (inside.1 n g) lies.1, lies.2, lies.3)
  Round-AllLie s h r (in_text n g eq) inside lies =
      rw eq
        (lies.0, lies.1, widen-Lies c d s.text_span h (omega arith) (inside.2 n g) lies.2, lies.3)
  Round-AllLie s h r (in_temp n g eq) inside lies =
      rw eq
        (lies.0, lies.1, lies.2, widen-Lies d e s.temp_span h (omega arith) (inside.3 n g) lies.3)

  pub bound_sections-AllLie :
      (s : Bounds) (hs : List SectionHeader)
      → All (InRanges a b c d e) hs
      → AllLie a b c d e s
      → AllLie a b c d e (bound_sections s hs)
  unfolding bound_sections
  bound_sections-AllLie s [] inside lies = lies
  bound_sections-AllLie s (h ∷ hs) inside lies =
      bound_sections-AllLie (bound_section s h) hs inside.1
        (Round-AllLie s h (bound_section s h) (bound_section-Round s h) inside.0 lies)

  -- The completed spans are in order.
  pub completed-in_order :
      (header : Header) (s : Bounds)
      → header.shoff + header.shnum * header.shentsize ≤ a
      → AllLie a b c d e s
      → in_order header (completed header s) ≡ true
  unfolding completed in_order
  completed-in_order header s room lies =
      let start = u32 (header.shnum * header.shentsize + header.shoff) in
      let q1 = or_at start s.data_span in
      let q2 = or_at q1.highest s.read_span in
      let q3 = or_at q2.highest s.text_span in
      let q4 = or_at q3.highest s.temp_span in
      let first : start ≡ header.shnum * header.shentsize + header.shoff = omega arith in
      let b1 =
        or_at_bounds start a b s.data_span (omega arith) (omega arith) (omega arith) lies.0 in
      let b2 =
        or_at_bounds q1.highest b c s.read_span (omega arith) (omega arith) (omega arith) lies.1 in
      let b3 =
        or_at_bounds q2.highest c d s.text_span (omega arith) (omega arith) (omega arith) lies.2 in
      let b4 =
        or_at_bounds q3.highest d e s.temp_span (omega arith) (omega arith) (omega arith) lies.3 in
      rw
        (
          leb-true header.shoff q1.lowest (omega arith),
          leb-true q1.lowest q1.highest (omega arith),
          leb-true q1.lowest q2.lowest (omega arith),
          leb-true q1.highest q2.lowest (omega arith),
          leb-true q2.lowest q2.highest (omega arith),
          leb-true q2.lowest q3.lowest (omega arith),
          leb-true q2.highest q3.lowest (omega arith),
          leb-true q3.lowest q3.highest (omega arith),
          leb-true q3.lowest q4.lowest (omega arith),
          leb-true q3.highest q4.lowest (omega arith),
          leb-true q4.lowest q4.highest (omega arith),
        )
        refl
