-- ===== src/Loader.antt =====
-- source/loader.c: reading an executable into memory, and running it.
pub mod Frame
use ftpii.Base.{
  ℕ, zero, suc, ◌+◌, Bool, true, [], ◌∷◌, ◌++◌, some, Bytes, ltb, if◌then◌else◌, length,
}
use ftpii.Os.{val, err, Call, Os, truth}
use ftpii.World.{M, pure, stuck, call, posix, ◌>>=◌}
use ftpii.Dol.{Memory, store_bytes, run_dol}

-- where the executable is read to
abbrev pub load_address : ℕ
load_address = 0x92000000

-- What `load_from_file` has in memory, where an address is known: the command line with two zeros behind
-- it, at `command_line`, its argument block, and then the executable.
abbrev pub prepared : ⦃os : Os⦄ → ℕ → Bytes → Bytes → Memory
prepared ⦃os⦄ command_line arg contents = store_bytes load_address contents (
    store_bytes os.argv_at (os.argv_image command_line (length arg + 2))
      (store_bytes command_line (arg ++ 0 ∷ 0 ∷ []) os.ram))

module _ ⦃os : Os⦄ where
  -- `while (1)` with fuel: the file decides how long it is. `so_far` is what stands in `load_address`.
  unfoldable pub read_from_file : ℕ → Bytes → ℕ → M (Bytes × Bool)
  unfolding call
  read_from_file zero so_far f w = stuck
  read_from_file (suc fuel) so_far f w =
      (do
        a ← call (Call.fread f 0x8000)
        if ltb (length a.payload) 0x8000
            then (do eof ← call (Call.feof f); pure (so_far ++ a.payload, truth eof.code))
            else read_from_file fuel (so_far ++ a.payload) f)
        w

  -- The one argument is `arg`, copied to memory of its own.
  unfoldable pub load_from_file : ℕ → ℕ → Bytes → M (Unit {0})
  unfolding call
  load_from_file fuel f arg = do
    got ← call (Call.malloc (length arg + 2))
    elim got.code [
      | err _ ↦ pure tt
      | val command_line ↦ do
        st ← posix (Call.fstat f)
        elim st.code [
          | err _ ↦ pure tt
          | val _ ↦ do
            (contents, whole) ← read_from_file fuel [] f
            if whole
                then run_dol (prepared command_line arg contents) load_address (some os.argv_at)
                else pure tt
        ]
    ]
