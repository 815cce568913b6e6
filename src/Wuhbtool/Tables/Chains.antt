-- ===== src/Wuhbtool/Tables/Chains.antt =====
-- The chains of a hash table whose records hold the next entry of their bucket.
use wut_tools.Common.{
  ℕ, ◌%◌, ◌≡◌, ◌≢◌, refl, sym, ap, subst, ◌∙◌, arith, true, false, Bool-cases, inl, inr, ◌==◌, List,
  [], ◌∷◌, All, Option, none, some,
}
use wut_tools.Wuhbtool.Tables.{Table, write, put}

-- What `put` is given.
pub record Item (R : Type 0) : Type 0 where
  pub hash : ℕ
  pub offset : ℕ
  pub make : ℕ → R

write_same : {A : Type 0} (f : ℕ → A) (i : ℕ) (x : A) → write f i x i ≡ x
unfolding write
write_same f i x = let e : (i == i) ≡ true = ground arith in rw e refl

write_other : {A : Type 0} (f : ℕ → A) (i j : ℕ) (x : A) → i ≢ j → write f i x j ≡ f j
unfolding write
write_other f i j x other = let e : (j == i) ≡ false = ground arith in rw e refl

module _ {R : Type 0} where
  unfoldable pub put_all : List (Item R) → Table R → Table R
  unfolding put
  put_all [] t = t
  put_all (i ∷ items) t = put_all items (put i.hash i.offset i.make t)

  -- No two of the items have the same offset.
  abbrev pub Distinct : List (Item R) → Type 0
  Distinct [] = Unit {0}
  Distinct (i ∷ items) = All (λ (j : Item R). i.offset ≢ j.offset) items × Distinct items

  abbrev pub Fresh : Table R → Item R → Type 0
  Fresh t i = t.records i.offset ≡ none

  module _ (next : R → ℕ) where
    -- The walk from an entry along the field that holds the next one.
    pub data Reaches (records : ℕ → Option R) : (start target : ℕ) → Type 0 where
      here : {a : ℕ} → Reaches records a a
      step :
          {a b : ℕ} {r : R} → records a ≡ some r → Reaches records (next r) b → Reaches records a b

    -- An item is found from its bucket, and its record is in the table.
    abbrev pub Stored : Table R → Item R → Type 0
    Stored t i =
        Reaches t.records (t.buckets (i.hash % t.count)) i.offset
        × ((n : ℕ) × (t.records i.offset ≡ some (i.make n)))

    abbrev pub KeepsNext : Item R → Type 0
    KeepsNext i = (n : ℕ) → next (i.make n) ≡ n

    -- A walk does not meet a new record.
    Reaches-write :
        (records : ℕ → Option R) (o : ℕ) (r : Option R) {a b : ℕ}
        → records o ≡ none
        → Reaches records a b
        → Reaches (write records o r) a b
    Reaches-write records o r fresh here = here
    Reaches-write records o r fresh (step {a} {r = s} e rest) =
        let other : o ≢ a =
          λ same. absurd (let e' : none ≡ some s = sym fresh ∙ ap records same ∙ e in cc) in
        step (write_other records o a r other ∙ e) (Reaches-write records o r fresh rest)

    put-Stored : (t : Table R) (i : Item R) → Stored (put i.hash i.offset i.make t) i
    unfolding put
    put-Stored t i = (
      subst
          (λ a.
            Reaches (write t.records i.offset (some (i.make (t.buckets (i.hash % t.count))))) a
              i.offset)
          (sym (write_same t.buckets (i.hash % t.count) i.offset)) here,
      (t.buckets (i.hash % t.count), write_same t.records i.offset _),
    )

    put-Stored_other :
        (t : Table R) (i x : Item R)
        → Fresh t i
        → KeepsNext i
        → i.offset ≢ x.offset
        → Stored t x
        → Stored (put i.hash i.offset i.make t) x
    unfolding put
    put-Stored_other t i x fresh keeps other (walk, (n, e)) =
        let r = i.make (t.buckets (i.hash % t.count)) in
        let records = write t.records i.offset (some r) in
        let walk' = Reaches-write t.records i.offset (some r) fresh walk in
        let e' = write_other t.records i.offset x.offset (some r) other ∙ e in
        elim (Bool-cases ((i.hash % t.count) == (x.hash % t.count))) [
          | inl same ↦
              let b : i.hash % t.count ≡ x.hash % t.count = ground arith in
              let front : write t.buckets (i.hash % t.count) i.offset (x.hash % t.count)
                  ≡ i.offset =
                ap (write t.buckets (i.hash % t.count) i.offset) (sym b)
                ∙ write_same t.buckets _ i.offset in
              let tail : Reaches records (next r) x.offset =
                subst (λ a. Reaches records a x.offset) (ap t.buckets (sym b) ∙ sym (keeps _))
                  walk' in
              (
                subst (λ a. Reaches records a x.offset) (sym front)
                    (step (write_same t.records i.offset _) tail),
                (n, e'),
              )
          | inr apart ↦
              let b : i.hash % t.count ≢ x.hash % t.count = ground arith in
              (
                subst (λ a. Reaches records a x.offset) (sym (write_other t.buckets _ _ i.offset b))
                    walk',
                (n, e'),
              )
        ]

    Fresh-put :
        (t : Table R) (i : Item R) (items : List (Item R))
        → All (λ (j : Item R). i.offset ≢ j.offset) items
        → All (Fresh t) items
        → All (Fresh (put i.hash i.offset i.make t)) items
    unfolding put
    Fresh-put t i [] other fresh = tt
    Fresh-put t i (j ∷ items) other fresh = (
      write_other t.records i.offset j.offset _ other.0 ∙ fresh.0,
      Fresh-put t i items other.1 fresh.1,
    )

    put_all-Stored_other :
        (items : List (Item R)) (t : Table R) (x : Item R)
        → All (Fresh t) items
        → All KeepsNext items
        → Distinct items
        → All (λ (j : Item R). x.offset ≢ j.offset) items
        → Stored t x
        → Stored (put_all items t) x
    unfolding put_all
    put_all-Stored_other [] t x fresh keeps distinct other h = h
    put_all-Stored_other (i ∷ items) t x fresh keeps distinct other h =
        put_all-Stored_other items (put i.hash i.offset i.make t) x
          (Fresh-put t i items distinct.0 fresh.1) keeps.1 distinct.1 other.1
          (put-Stored_other t i x fresh.0 keeps.0 (λ e. other.0 (sym e)) h)

    -- All the items that are put, at distinct offsets, are found.
    pub put_all-Stored :
        (items : List (Item R)) (t : Table R)
        → All (Fresh t) items
        → All KeepsNext items
        → Distinct items
        → All (Stored (put_all items t)) items
    unfolding put_all
    put_all-Stored [] t fresh keeps distinct = tt
    put_all-Stored (i ∷ items) t fresh keeps distinct =
        let t1 = put i.hash i.offset i.make t in
        let fresh1 = Fresh-put t i items distinct.0 fresh.1 in
        (
          put_all-Stored_other items t1 i fresh1 keeps.1 distinct.1 distinct.0 (put-Stored t i),
          put_all-Stored items t1 fresh1 keeps.1 distinct.1,
        )
