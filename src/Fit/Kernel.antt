-- ===== src/Fit/Kernel.antt =====
-- The kernel of a FIT: the LZMA stream and the ARM64 image header.
pub mod Window
use edgepi_e87n.Base.{
  ℕ, ◌+◌, ◌-◌, ◌*◌, ◌%◌, Bool, true, false, not, ◌&&◌, List, [], ◌∷◌, ltb, leb, ◌==◌, length, take,
  Bytes, ◌=ᵇ◌, slice, le_at, Result, ok, err, ◌>>=◌, ◌>>◌, require, or_raise,
}
use edgepi_e87n.Fit.{
  FitError, lzma_properties, kernel_overlap, decoder_error, bad_lzma, not_arm64, bad_offset,
  bad_memory_size, Codecs, Decoded, kernel_load,
}

-- 0x41e00000 - LOADS["kernel"]: up to the text of the loader
abbrev pub maximum : ℕ
maximum = 0x41e00000 - kernel_load

-- The size that the LZMA header announces.
abbrev pub announced : Bytes → ℕ
announced packed = le_at 8 packed 5

-- The image that the stream holds; `decompress` is asked for one byte beyond the limit.
unfoldable pub unpack_kernel : Codecs → Bytes → Result FitError Bytes
unpack_kernel c packed = do
  require (leb 13 (length packed) && take 5 packed =ᵇ (0x6d ∷ 0 ∷ 0 ∷ 0x80 ∷ 0 ∷ []))
      lzma_properties
  require (leb (announced packed) maximum) kernel_overlap
  d ← or_raise (c.decompress packed (maximum + 1)) decoder_error
  require
      (d.eof && d.unused =ᵇ [] && leb (length d.raw) maximum && length d.raw == announced packed)
      bad_lzma
  ok d.raw

abbrev pub text_offset : Bytes → ℕ
text_offset raw = le_at 8 raw 8

-- The memory that the running kernel takes, with its bss.
abbrev pub memory_size : Bytes → ℕ
memory_size raw = le_at 8 raw 16

abbrev pub flags : Bytes → ℕ
flags raw = le_at 8 raw 24

unfoldable pub check_header : Bytes → Result FitError (Unit {0})
check_header raw = do
  require (leb 64 (length raw) && slice 56 60 raw =ᵇ (b'A' ∷ b'R' ∷ b'M' ∷ 0x64 ∷ [])) not_arm64
  require (text_offset raw == 0 && (kernel_load - text_offset raw) % (2 * 1024 * 1024) == 0)
      bad_offset
  require
      (flags raw % 2 == 0 && leb (length raw) (memory_size raw) && leb (memory_size raw) maximum)
      bad_memory_size

unfoldable pub check_kernel : Codecs → Bytes → Result FitError Bytes
check_kernel c packed = do raw ← unpack_kernel c packed; check_header raw; ok raw
