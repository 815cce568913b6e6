-- ===== src/Wuhbtool/Images.antt =====
-- src/wuhbtool/services/TgaGzService.cpp: an image as a compressed TGA file. FreeImage and the
-- deflate stream of zlib are parameters; what FreeImage does to the file that it saves to is a tree of
-- its calls, each of which may depend on what the calls before gave.
pub mod Saved
use wut_tools.Common.{
  ℕ, ◌+◌, ◌*◌, u32, u64, Bool, true, false, ◌&&◌, ◌||◌, not, ◌==◌, ◌!=◌, ltb, leb, if◌then◌else◌,
  List, [], ◌++◌, take, drop, length, padded, Option, none, some, Run, ok, failed, fault, ◌>>=◌,
  and_then,
}
use wut_tools.Elf2rpl.Deflate.{Deflate, deflate_chunks}

-- `FiMemoryFile`
pub record MemoryFile : Type 0 where
  pub bytes : List ℕ
  pub pos : ℕ

unfoldable pub get_size : MemoryFile → ℕ
get_size f = if ltb (length f.bytes) f.pos then f.pos else length f.bytes

unfoldable pub ensure_size : MemoryFile → MemoryFile
unfolding padded
ensure_size f =
    if ltb (length f.bytes) f.pos then record f { bytes = padded f.pos 0 f.bytes } else f

-- `size * count` is a product of 32-bit numbers.
abbrev pub write_size : (size count : ℕ) → ℕ
write_size size count = u32 (size * count)

-- `memcpy`, which must stay within both buffers
abbrev pub copy_into : (at n : ℕ) → List ℕ → MemoryFile → Run MemoryFile
copy_into at n buffer f =
    if leb n (length buffer) && leb (at + n) (length f.bytes)
    then ok (record f { bytes = take at f.bytes ++ (take n buffer ++ drop (at + n) f.bytes) })
    else fault

unfoldable pub write : (buffer : List ℕ) (size count : ℕ) → MemoryFile → Run MemoryFile
unfolding ensure_size
write buffer size count f =
    copy_into f.pos (write_size size count) buffer
      (ensure_size (record f { pos = u64 (f.pos + write_size size count) }))

pub data Origin : Type 0 where
  seek_set seek_cur seek_end other_origin : Origin

-- The offset is the 64 bits of a long; a position below 0 is a large one.
unfoldable pub seek : (offset : ℕ) → Origin → MemoryFile → MemoryFile
unfolding get_size
seek offset seek_set f = record f { pos = u64 offset }
seek offset seek_cur f = record f { pos = u64 (f.pos + offset) }
seek offset seek_end f = record f { pos = u64 (get_size f + offset) }
seek offset other_origin f = f

-- The calls of FreeImage on the file that it saves to. `write` gives the count back, `seek` 0.
pub data Saving : Type 0 where
  finished : Saving
  write_call : (buffer : List ℕ) (size count : ℕ) → (ℕ → Saving) → Saving
  seek_call : (offset : ℕ) → Origin → (ℕ → Saving) → Saving
  tell_call : (ℕ → Saving) → Saving

unfoldable pub save_to : Saving → MemoryFile → Run MemoryFile
unfolding write seek
save_to finished f = ok f
save_to (write_call buffer size count next) f =
    write buffer size count f >>= (λ f'. save_to (next count) f')
save_to (seek_call offset origin next) f = save_to (next 0) (seek offset origin f)
save_to (tell_call next) f = save_to (next f.pos) f

-- What the code uses of FreeImage. A conversion or a rescaling may fail.
pub record FreeImage (Bitmap : Type 0) : Type 0 where
  pub supports : List ℕ → Bool
  pub load : List ℕ → Option Bitmap
  pub is_bitmap : Bitmap → Bool
  pub bpp : Bitmap → ℕ
  pub width : Bitmap → ℕ
  pub height : Bitmap → ℕ
  pub convert_24 : Bitmap → Option Bitmap
  pub convert_32 : Bitmap → Option Bitmap
  pub rescale : (width height : ℕ) → Bitmap → Option Bitmap
  pub save : Bitmap → Saving

module _ {Bitmap Stream : Type 0} (image : FreeImage Bitmap) (zlib : Deflate Stream) where
  unfoldable pub converted : ℕ → Option Bitmap → Option Bitmap
  converted bpp none = none
  converted bpp (some b) =
      if not (image.is_bitmap b) || (image.bpp b != bpp)
      then (if bpp == 24 then image.convert_24 b else image.convert_32 b)
      else some b

  unfoldable pub rescaled : (width height : ℕ) → Option Bitmap → Option Bitmap
  rescaled width height none = none
  rescaled width height (some b) =
      if image.width b != width || (image.height b != height)
      then image.rescale width height b
      else some b

  unfoldable pub load_image : List ℕ → (width height bpp : ℕ) → Option Bitmap
  unfolding converted rescaled
  load_image path width height bpp =
      if image.supports path then rescaled width height (converted bpp (image.load path)) else none

  -- `gzCompress`; the size is put into a 32-bit field of the stream. An error ends the tool.
  unfoldable pub gz_compress : ℕ → List ℕ → Option (Run (List ℕ))
  unfolding deflate_chunks
  gz_compress fuel bytes =
      deflate_chunks zlib fuel (zlib.start (take (u32 (length bytes)) bytes)) []

  -- The contents of the entry, or none where there is no image; the fuel bounds the calls of deflate.
  unfoldable pub create_tga_gz_file_entry :
      ℕ → List ℕ → (width height bpp : ℕ) → Option (Run (Option (List ℕ)))
  unfolding load_image save_to ensure_size gz_compress
  create_tga_gz_file_entry fuel path width height bpp = elim (load_image path width height bpp) [
    | none ↦ some (ok none)
    | some b ↦ and_then (some (save_to (image.save b) (record { bytes = []; pos = 0 }))) (λ tga.
        and_then (gz_compress fuel (ensure_size tga).bytes) (λ packed. some (ok (some packed))))
  ]
