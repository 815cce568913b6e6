-- ===== src/Elf2rpl/Offsets/Renumbered.antt =====
-- The last loop of `calculateSectionOffsets`: it changes `link` and `info` only.
use wut_tools.Common.{
  ℕ, ◌≡◌, sym, subst, ap, ap₂, ◌∙◌, map, false, List, [], ◌∷◌, All, Bool-cases, inl, inr, ok,
  failed, >>=-eq-ok, ok-injective, ◌==◌,
}
use wut_tools.Elf2rpl.File.{Section, uint32_max}
use wut_tools.Elf2rpl.Offsets.{is_lost, new_link, new_info, renumber, renumber_all}
use wut_tools.Elf2rpl.Write.{written_sections}

abbrev pub relinked : Section → (link info : ℕ) → Section
relinked s link info = record s { header = record (s.header) { link = link; info = info } }

-- What the loop leaves of a section.
abbrev pub Relinked : Section → Section → Type 0
Relinked s s' = (link : ℕ) × (info : ℕ) × (is_lost s ≡ false) × (relinked s link info ≡ s')

renumber-Relinked : (all : List Section) (s s' : Section) → renumber all s ≡ ok s' → Relinked s s'
unfolding renumber
renumber-Relinked all s s' run = elim (Bool-cases (is_lost s)) [
  | inl lost ↦ absurd (let e : failed ≡ ok s' = rw lost at run in cc)
  | inr found ↦ elim (Bool-cases (s.index == uint32_max)) [
    | inl discarded ↦
        (s.header.link, s.header.info, found, ok-injective (rw (found, discarded) at run))
    | inr kept ↦
        let (link, r1, run1) = >>=-eq-ok (new_link all s) _ (rw (found, kept) at run) in
        let (info, r2, run2) = >>=-eq-ok (new_info all s) _ run1 in
        (link, info, found, ok-injective run2)
  ]
]

pub renumber_all-All :
    (P Q : Section → Type 0)
    → ((s : Section) (link info : ℕ) → is_lost s ≡ false → P s → Q (relinked s link info))
    → (all ss ss' : List Section) → renumber_all all ss ≡ ok ss'
    → All P ss
    → All Q ss'
unfolding renumber_all
renumber_all-All P Q keep all [] ss' run h = subst (All Q) (ok-injective run) tt
renumber_all-All P Q keep all (s ∷ ss) ss' run h =
    let (s1, r1, run1) = >>=-eq-ok (renumber all s) _ run in
    let (ss1, r2, run2) = >>=-eq-ok (renumber_all all ss) _ run1 in
    let (link, info, found, e) = renumber-Relinked all s s1 r1 in
    subst (All Q) (ok-injective run2)
      (subst Q e (keep s link info found h.0), renumber_all-All P Q keep all ss ss1 r2 h.1)

-- A relation of each section to the ones behind it.
abbrev pub AllPairs : (Section → Section → Type 0) → List Section → Type 0
AllPairs R [] = Unit {0}
AllPairs R (s ∷ ss) = All (R s) ss × AllPairs R ss

pub renumber_all-AllPairs :
    (R : Section → Section → Type 0)
    → ((s t : Section) (link info link' info' : ℕ)
        → R s t
        → R (relinked s link info) (relinked t link' info'))
    → (all ss ss' : List Section) → renumber_all all ss ≡ ok ss'
    → AllPairs R ss
    → AllPairs R ss'
unfolding renumber_all
renumber_all-AllPairs R keep all [] ss' run h = subst (AllPairs R) (ok-injective run) tt
renumber_all-AllPairs R keep all (s ∷ ss) ss' run h =
    let (s1, r1, run1) = >>=-eq-ok (renumber all s) _ run in
    let (ss1, r2, run2) = >>=-eq-ok (renumber_all all ss) _ run1 in
    let (link, info, found, e) = renumber-Relinked all s s1 r1 in
    let front =
      renumber_all-All (R s) (R (relinked s link info)) (λ t l i _ r. keep s t link info l i r) all
        ss ss1 r2 h.0 in
    subst (AllPairs R) (ok-injective run2)
      (subst (λ t. All (R t) ss1) e front, renumber_all-AllPairs R keep all ss ss1 r2 h.1)

pub renumber_all-map :
    {A : Type 0} (f : Section → A)
    → ((s : Section) (link info : ℕ) → f (relinked s link info) ≡ f s)
    → (all ss ss' : List Section) → renumber_all all ss ≡ ok ss'
    → map f ss' ≡ map f ss
unfolding renumber_all
renumber_all-map f keep all [] ss' run = ap (map f) (sym (ok-injective run))
renumber_all-map f keep all (s ∷ ss) ss' run =
    let (s1, r1, run1) = >>=-eq-ok (renumber all s) _ run in
    let (ss1, r2, run2) = >>=-eq-ok (renumber_all all ss) _ run1 in
    let (link, info, found, e) = renumber-Relinked all s s1 r1 in
    ap (map f) (sym (ok-injective run2))
    ∙ ap₂ (◌∷◌) (ap f (sym e) ∙ keep s link info) (renumber_all-map f keep all ss ss1 r2)

-- The sections whose headers are written are among the sections.
pub written_sections-All :
    (P : Section → Type 0) (ss : List Section) → All P ss → All P (written_sections ss)
unfolding written_sections
written_sections-All P [] h = tt
written_sections-All P (s ∷ ss) h = elim (Bool-cases (s.index == uint32_max)) [
  | inl discarded ↦ rw discarded (written_sections-All P ss h.1)
  | inr kept ↦ rw kept (h.0, written_sections-All P ss h.1)
]
