-- ===== src/Readrpl/Verify/FileBounds.antt =====
-- `verifyFileBounds`: where the groups of sections lie in the file.
pub mod Laws
use wut_tools.Common.{
  ℕ, ◌+◌, ◌*◌, min, max, u32, has, Bool, true, ◌&&◌, ◌||◌, ◌==◌, ◌!=◌, leb, if◌then◌else◌, List, [],
  ◌∷◌, map,
}
use wut_tools.Elf.Constants
use wut_tools.Elf.{Header, SectionHeader}
use wut_tools.Readrpl.Rpl.{Section, Rpl}

-- `dataMin` and `dataMax`, and so on
pub record Span : Type 0 where
  pub lowest : ℕ
  pub highest : ℕ

pub record Bounds : Type 0 where
  pub data_span : Span
  pub read_span : Span
  pub text_span : Span
  pub temp_span : Span

abbrev pub no_offset : ℕ
no_offset = 0xffffffff

abbrev pub no_span : Span
no_span = record { lowest = no_offset; highest = 0 }

unfoldable pub widen : Span → SectionHeader → Span
widen p h = record {
  lowest = min p.lowest h.offset;
  highest = max p.highest (u32 (h.offset + h.size));
}

abbrev pub is_ignored : SectionHeader → Bool
is_ignored h =
    h.size == 0
    || h.type == Constants.sht_rpl_fileinfo
    || h.type == Constants.sht_rpl_crcs
    || h.type == Constants.sht_nobits
    || h.type == Constants.sht_rpl_imports

-- The body of the loop over the sections.
unfoldable pub bound_section : Bounds → SectionHeader → Bounds
unfolding widen
bound_section b h =
    if is_ignored h
    then b
    else if has h.flags Constants.shf_execinstr && (h.type != Constants.sht_rpl_exports)
    then record b { text_span = widen b.text_span h }
    else if has h.flags Constants.shf_alloc
    then (if has h.flags Constants.shf_write
        then record b { data_span = widen b.data_span h }
        else record b { read_span = widen b.read_span h })
    else record b { temp_span = widen b.temp_span h }

unfoldable pub bound_sections : Bounds → List SectionHeader → Bounds
unfolding bound_section
bound_sections b [] = b
bound_sections b (h ∷ hs) = bound_sections (bound_section b h) hs

-- An empty group stands where the group before it ends.
unfoldable pub or_at : ℕ → Span → Span
or_at place p = if p.lowest == no_offset then record { lowest = place; highest = place } else p

unfoldable pub completed : Header → Bounds → Bounds
unfolding or_at
completed header b =
    let data_span = or_at (u32 (header.shnum * header.shentsize + header.shoff)) b.data_span in
    let read_span = or_at data_span.highest b.read_span in
    let text_span = or_at read_span.highest b.text_span in
    let temp_span = or_at text_span.highest b.temp_span in
    record {
      data_span = data_span;
      read_span = read_span;
      text_span = text_span;
      temp_span = temp_span;
    }

-- The comparisons at the end; each one that fails clears the result.
unfoldable pub in_order : Header → Bounds → Bool
in_order header b =
    leb header.shoff b.data_span.lowest
    && leb b.data_span.lowest b.data_span.highest
    && leb b.data_span.lowest b.read_span.lowest
    && leb b.data_span.highest b.read_span.lowest
    && leb b.read_span.lowest b.read_span.highest
    && leb b.read_span.lowest b.text_span.lowest
    && leb b.read_span.highest b.text_span.lowest
    && leb b.text_span.lowest b.text_span.highest
    && leb b.text_span.lowest b.temp_span.lowest
    && leb b.text_span.highest b.temp_span.lowest
    && leb b.temp_span.lowest b.temp_span.highest

abbrev pub no_bounds : Bounds
no_bounds = record {
  data_span = no_span;
  read_span = no_span;
  text_span = no_span;
  temp_span = no_span;
}

unfoldable pub verify_file_bounds : Rpl → Bool
unfolding bound_sections completed in_order
verify_file_bounds rpl =
    in_order rpl.header (
      completed rpl.header
        (bound_sections no_bounds (map (λ (s : Section). s.header) rpl.sections)))
