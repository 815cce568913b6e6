-- ===== src/Elf/Codec.antt =====
-- A struct's reader and writer, and those of a table of structs.
use wut_tools.Common.{
  ℕ, zero, suc, ◌*◌, ◌^◌, sym, IsBytes, length-append, ◌<◌, ◌≡◌, refl, ap, List, [], ◌∷◌, ◌++◌,
  drop, length, All, arith, append_assoc,
}
use wut_tools.Elf.Structs.{Symbol, Rela}
use wut_tools.Elf.Bytes.{
  read_32, symbol_of, symbol_bytes, rela_of, rela_bytes, table, table_bytes, sizeof_rela,
  sizeof_symbol,
}

-- What a struct's layout promises: values that fit are read back, and the reader of the next
-- struct starts behind.
pub record Codec (A : Type 0) : Type 1 where
  pub size : ℕ
  pub reader : List ℕ → A
  pub writer : A → List ℕ
  pub Fits : A → Type 0
  pub reads : (x : A) (rest : List ℕ) → Fits x → reader (writer x ++ rest) ≡ x
  pub skips : (x : A) (rest : List ℕ) → drop size (writer x ++ rest) ≡ rest
  pub measures : (x : A) → length (writer x) ≡ size

abbrev pub FitsRela : Rela → Type 0
FitsRela r = (r.offset < 2 ^ 32) × (r.info < 2 ^ 32) × (r.addend < 2 ^ 32)

abbrev pub FitsSymbol : Symbol → Type 0
FitsSymbol s =
    (s.name < 2 ^ 32)
    × (s.value < 2 ^ 32)
    × (s.size < 2 ^ 32)
    × (s.info < 2 ^ 8)
    × (s.other < 2 ^ 8)
    × (s.shndx < 2 ^ 16)

pub reads_rela : (r : Rela) (rest : List ℕ) → FitsRela r → rela_of (rela_bytes r ++ rest) ≡ r
unfolding rela_of rela_bytes
reads_rela r rest h = ground arith

pub reads_symbol :
    (s : Symbol) (rest : List ℕ) → FitsSymbol s → symbol_of (symbol_bytes s ++ rest) ≡ s
unfolding symbol_of symbol_bytes
reads_symbol s rest h = ground arith

pub skips_rela : (r : Rela) (rest : List ℕ) → drop sizeof_rela (rela_bytes r ++ rest) ≡ rest
unfolding rela_bytes
skips_rela r rest = refl

pub skips_symbol : (r : Symbol) (rest : List ℕ) → drop sizeof_symbol (symbol_bytes r ++ rest) ≡ rest
unfolding symbol_bytes
skips_symbol r rest = refl

pub measures_rela : (r : Rela) → length (rela_bytes r) ≡ sizeof_rela
unfolding rela_bytes
measures_rela r = refl

abbrev pub rela_codec : Codec Rela
rela_codec = record {
  size = sizeof_rela;
  reader = rela_of;
  writer = rela_bytes;
  Fits = FitsRela;
  reads = reads_rela;
  skips = skips_rela;
  measures = measures_rela;
}

pub measures_symbol : (r : Symbol) → length (symbol_bytes r) ≡ sizeof_symbol
unfolding symbol_bytes
measures_symbol r = refl

abbrev pub symbol_codec : Codec Symbol
symbol_codec = record {
  size = sizeof_symbol;
  reader = symbol_of;
  writer = symbol_bytes;
  Fits = FitsSymbol;
  reads = reads_symbol;
  skips = skips_symbol;
  measures = measures_symbol;
}

pub drop-IsBytes : (n : ℕ) (b : List ℕ) → IsBytes b → IsBytes (drop n b)
drop-IsBytes zero b h = h
drop-IsBytes (suc n) [] h = tt
drop-IsBytes (suc n) (x ∷ b) h = drop-IsBytes n b h.1

pub read_32-lt : (b : List ℕ) → IsBytes b → read_32 b < 2 ^ 32
unfolding read_32
read_32-lt (x ∷ y ∷ z ∷ w ∷ b) h = omega arith
read_32-lt _ h = omega arith

pub rela_of-FitsRela : (b : List ℕ) → IsBytes b → FitsRela (rela_of b)
unfolding rela_of
rela_of-FitsRela b h =
    (read_32-lt b h, read_32-lt _ (drop-IsBytes 4 b h), read_32-lt _ (drop-IsBytes 8 b h))

module _ {A : Type 0} (codec : Codec A) where
  open codec use {size, reader, writer, Fits, reads, skips}

  pub length-table_bytes : (xs : List A) → length (table_bytes writer xs) ≡ size * length xs
  unfolding table_bytes
  length-table_bytes [] = omega arith
  length-table_bytes (x ∷ xs) =
      rw (length-append (writer x) (table_bytes writer xs), codec.measures x)
        (omega (arith, length-table_bytes xs))

  pub table_bytes-append :
      (xs ys : List A)
      → table_bytes writer (xs ++ ys) ≡ table_bytes writer xs ++ table_bytes writer ys
  unfolding table_bytes
  table_bytes-append [] ys = refl
  table_bytes-append (x ∷ xs) ys = rw (table_bytes-append xs ys) (sym (append_assoc (writer x) _ _))

  pub length-table : (n : ℕ) (b : List ℕ) → length (table size reader n b) ≡ n
  unfolding table
  length-table zero b = refl
  length-table (suc n) b = ap suc (length-table n (drop size b))

  pub table-All :
      (P : A → Type 0) (n : ℕ) (b : List ℕ)
      → ((c : List ℕ) → IsBytes c → P (reader c))
      → IsBytes b
      → All P (table size reader n b)
  unfolding table
  table-All P zero b f h = tt
  table-All P (suc n) b f h = (f b h, table-All P n (drop size b) f (drop-IsBytes size b h))

  -- Reading a table gives back the structs that were written.
  pub table-table_bytes :
      (xs : List A) (rest : List ℕ)
      → All Fits xs
      → table size reader (length xs) (table_bytes writer xs ++ rest) ≡ xs
  unfolding table table_bytes
  table-table_bytes [] rest h = refl
  table-table_bytes (x ∷ xs) rest h =
      rw (append_assoc (writer x) (table_bytes writer xs) rest, reads x _ h.0, skips x)
        (ap (◌∷◌ x) (table-table_bytes xs rest h.1))
