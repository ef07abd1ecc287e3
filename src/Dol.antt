-- ===== src/Dol.antt =====
-- source/dol.c: copying the sections of a DOL executable to where it wants them, and starting it.
pub mod Sections
pub mod Memory
use ftpii.Base.{
  ℕ, zero, suc, ◌+◌, ◌*◌, ◌%◌, Bool, ◌||◌, [], ◌∷◌, Option, none, some, Bytes, ltb, ◌==◌,
  if◌then◌else◌,
}
use ftpii.Os.{Call, Os}
use ftpii.World.{M, pure, call, ◌>>=◌, ◌>>◌}

-- What stands at each address; the processor is big-endian.
abbrev pub Memory : Type 0
Memory = ℕ → ℕ

-- Pointers have 32 bits.
abbrev pub pointer : ℕ → ℕ
pointer address = address % 0x100000000

-- The word `i` of the `dolheader` at `dol`.
unfoldable pub header_word : Memory → ℕ → ℕ → ℕ
header_word m dol i =
    m (dol + 4 * i) * 16777216
    + m (dol + (4 * i + 1)) * 65536
    + m (dol + (4 * i + 2)) * 256
    + m (dol + (4 * i + 3))

-- The fields of `dolheader`, as they are in memory.
abbrev pub text_pos : Memory → ℕ → ℕ → ℕ
text_pos m dol i = header_word m dol i

abbrev pub data_pos : Memory → ℕ → ℕ → ℕ
data_pos m dol i = header_word m dol (7 + i)

abbrev pub text_start : Memory → ℕ → ℕ → ℕ
text_start m dol i = header_word m dol (18 + i)

abbrev pub data_start : Memory → ℕ → ℕ → ℕ
data_start m dol i = header_word m dol (25 + i)

abbrev pub text_size : Memory → ℕ → ℕ → ℕ
text_size m dol i = header_word m dol (36 + i)

abbrev pub data_size : Memory → ℕ → ℕ → ℕ
data_size m dol i = header_word m dol (43 + i)

abbrev pub entry_point : Memory → ℕ → ℕ
entry_point m dol = header_word m dol 56

-- `n` bytes from an address on
unfoldable pub bytes_at : Memory → ℕ → ℕ → Bytes
bytes_at m at zero = []
bytes_at m at (suc n) = m at ∷ bytes_at m (at + 1) n

-- Memory with bytes written to it from an address on.
abbrev pub store_bytes : ℕ → Bytes → Memory → Memory
store_bytes at [] m i = m i
store_bytes at (b ∷ bs) m i = if at == i then b else store_bytes (at + 1) bs m i

-- `!size || start < 0x100`
abbrev pub skipped : ℕ → ℕ → Bool
skipped size start = size == 0 || ltb start 0x100

module _ ⦃os : Os⦄ where
  -- All bytes are read before one is written, as `memmove` does.
  unfoldable pub memmove : Memory → ℕ → ℕ → ℕ → M Memory
  unfolding call
  memmove m to from n = do
    call (Call.copy_to to (bytes_at m from n))
    pure (store_bytes to (bytes_at m from n) m)

  -- The bodies of the two loops. The header and the image are read from memory as it is then, and
  -- what comes back is memory afterwards.
  unfoldable pub copy_text : Memory → ℕ → ℕ → M Memory
  unfolding call memmove
  copy_text m dol i = if skipped (text_size m dol i) (text_start m dol i) then pure m else (do
    call (Call.invalidate (text_start m dol i) (text_size m dol i))
    memmove m (text_start m dol i) (pointer (dol + text_pos m dol i)) (text_size m dol i))

  unfoldable pub copy_data : Memory → ℕ → ℕ → M Memory
  unfolding call memmove
  copy_data m dol i = if skipped (data_size m dol i) (data_start m dol i) then pure m else (do
    after ← memmove m (data_start m dol i) (pointer (dol + data_pos m dol i)) (data_size m dol i)
    call (Call.flush (data_start after dol i) (data_size after dol i))
    pure after)

  -- the two loops, from section `i` on, over `n` sections
  unfoldable pub load_text : Memory → ℕ → ℕ → ℕ → M Memory
  load_text m dol i zero w = pure m w
  load_text m dol i (suc n) w = (do after ← copy_text m dol i; load_text after dol (i + 1) n) w

  unfoldable pub load_data : Memory → ℕ → ℕ → ℕ → M Memory
  load_data m dol i zero w = pure m w
  load_data m dol i (suc n) w = (do after ← copy_data m dol i; load_data after dol (i + 1) n) w

  -- `argv && argv->argvMagic == ARGV_MAGIC`, and the copy behind the entry point
  unfoldable pub copy_argv : Memory → ℕ → Option ℕ → M Memory
  unfolding call memmove
  copy_argv m dol none = pure m
  copy_argv m dol (some argv) =
      let new_argv : ℕ = pointer (entry_point m dol + 8) in
      if os.has_argv_magic (bytes_at m argv os.sizeof_argv)
      then (do
        after ← memmove m new_argv argv os.sizeof_argv
        call (Call.flush new_argv os.sizeof_argv)
        pure after)
      else pure m

  -- The entry point, and memory as it is then.
  unfoldable pub load_dol_image : Memory → ℕ → Option ℕ → M (ℕ × Memory)
  load_dol_image m dol argv = do
    texts ← load_text m dol 0 7
    all ← load_data texts dol 0 11
    after ← copy_argv all dol argv
    pure (entry_point after dol, after)

  -- The program that is entered runs in place of this one; what it answers is that it came back.
  unfoldable pub run_dol : Memory → ℕ → Option ℕ → M (Unit {0})
  unfolding call
  run_dol m dol argv = do
    (ep, after) ← load_dol_image m dol argv
    call Call.shutdown_subsystems
    call (Call.enter ep)
    pure tt
