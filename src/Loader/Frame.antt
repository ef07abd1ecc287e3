-- ===== src/Loader/Frame.antt =====
-- Loading an executable, source/loader.c and dol.c, leaves the statics of the server alone.
use ftpii.Base.{ℕ, zero, suc, ◌+◌, [], ◌++◌, Option, none, some, refl, ltb, Bytes, length}
use ftpii.Os.{Call, Os, truth}
use ftpii.World.{M}
use ftpii.World.Keeps.{ended, waits, Keeps, Keeps-bind, Keeps-then, Keeps-pure, Keeps-if, Keeps-S32}
use ftpii.World.Apart.{Always, Apart, Apart-frame, call-Apart, posix-Apart}
use ftpii.Dol.{
  Memory, pointer, store_bytes, skipped, text_start, text_size, text_pos, data_start, data_size,
  data_pos, bytes_at, entry_point, memmove, copy_text, copy_data, copy_argv, load_text, load_data,
  load_dol_image, run_dol,
}
use ftpii.Loader.{load_address, prepared, read_from_file, load_from_file}

abbrev Keeping : {A : Type 0} → M A → Type 0
Keeping m = Keeps Always Apart m

module _ ⦃os : Os⦄ where
  memmove-Apart : (m : Memory) (to from n : ℕ) → Keeping (memmove m to from n)
  unfolding memmove
  memmove-Apart m to from n =
      Keeps-then (call-Apart (Call.copy_to to (bytes_at m from n)))
        (Keeps-pure (store_bytes to (bytes_at m from n) m))

  copy_text-Apart : (m : Memory) (dol i : ℕ) → Keeping (copy_text m dol i)
  unfolding copy_text
  copy_text-Apart m dol i =
      let start = text_start m dol i in
      let size = text_size m dol i in
      Keeps-if (skipped size start) (Keeps-pure m) (
        Keeps-then (call-Apart (Call.invalidate start size))
          (memmove-Apart m start (pointer (dol + text_pos m dol i)) size))

  copy_data-Apart : (m : Memory) (dol i : ℕ) → Keeping (copy_data m dol i)
  unfolding copy_data
  copy_data-Apart m dol i =
      let start = data_start m dol i in
      let size = data_size m dol i in
      Keeps-if (skipped size start) (Keeps-pure m) (
        Keeps-bind (memmove-Apart m start (pointer (dol + data_pos m dol i)) size) λ after.
          Keeps-then (call-Apart (Call.flush (data_start after dol i) (data_size after dol i)))
            (Keeps-pure after))

  load_text-Apart : (m : Memory) (dol i n : ℕ) → Keeping (load_text m dol i n)
  unfolding load_text
  load_text-Apart m dol i zero = record { run = λ w i. ended (record { ftp = refl; same = refl }) }
  load_text-Apart m dol i (suc n) =
      let round =
        Keeps-bind (copy_text-Apart m dol i) λ after. load_text-Apart after dol (i + 1) n in
      record { run = λ w i. round.run w i }

  load_data-Apart : (m : Memory) (dol i n : ℕ) → Keeping (load_data m dol i n)
  unfolding load_data
  load_data-Apart m dol i zero = record { run = λ w i. ended (record { ftp = refl; same = refl }) }
  load_data-Apart m dol i (suc n) =
      let round =
        Keeps-bind (copy_data-Apart m dol i) λ after. load_data-Apart after dol (i + 1) n in
      record { run = λ w i. round.run w i }

  copy_argv-Apart : (m : Memory) (dol : ℕ) (argv : Option ℕ) → Keeping (copy_argv m dol argv)
  unfolding copy_argv
  copy_argv-Apart m dol none = Keeps-pure m
  copy_argv-Apart m dol (some argv) =
      Keeps-if (os.has_argv_magic (bytes_at m argv os.sizeof_argv))
        (Keeps-bind (memmove-Apart m (pointer (entry_point m dol + 8)) argv os.sizeof_argv) λ after.
          Keeps-then (call-Apart (Call.flush (pointer (entry_point m dol + 8)) os.sizeof_argv))
            (Keeps-pure after))
        (Keeps-pure m)

  load_dol_image-Apart :
      (m : Memory) (dol : ℕ) (argv : Option ℕ) → Keeping (load_dol_image m dol argv)
  unfolding load_dol_image
  load_dol_image-Apart m dol argv = Keeps-bind (load_text-Apart m dol 0 7) λ texts.
      Keeps-bind (load_data-Apart texts dol 0 11) λ all.
        Keeps-bind (copy_argv-Apart all dol argv) λ after. Keeps-pure (entry_point after dol, after)

  run_dol-Apart : (m : Memory) (dol : ℕ) (argv : Option ℕ) → Keeping (run_dol m dol argv)
  unfolding run_dol
  run_dol-Apart m dol argv = Keeps-bind (load_dol_image-Apart m dol argv) λ r.
      Keeps-then (call-Apart Call.shutdown_subsystems)
        (Keeps-then (call-Apart (Call.enter r.0)) (Keeps-pure tt))

  read_from_file-Apart :
      (fuel : ℕ) (so_far : Bytes) (f : ℕ) → Keeping (read_from_file fuel so_far f)
  unfolding read_from_file
  read_from_file-Apart zero so_far f = record { run = λ w i. waits }
  read_from_file-Apart (suc fuel) so_far f =
      let round = Keeps-bind (call-Apart (Call.fread f 0x8000)) λ a.
        Keeps-if (ltb (length a.payload) 0x8000)
          (Keeps-bind (call-Apart (Call.feof f))
            λ eof. Keeps-pure (so_far ++ a.payload, truth eof.code))
          (read_from_file-Apart fuel (so_far ++ a.payload) f) in
      record { run = λ w i. round.run w i }

  pub load_from_file-Apart : (fuel f : ℕ) (arg : Bytes) → Keeping (load_from_file fuel f arg)
  unfolding load_from_file
  load_from_file-Apart fuel f arg = Keeps-bind (call-Apart (Call.malloc (length arg + 2))) λ got.
      Keeps-S32 got.code
        (λ command_line. Keeps-bind (posix-Apart (Call.fstat f)) λ st.
          Keeps-S32 st.code
            (λ _. Keeps-bind (read_from_file-Apart fuel [] f) λ r.
              Keeps-if r.1
                (run_dol-Apart (prepared command_line arg r.0) load_address (some os.argv_at))
                (Keeps-pure tt))
            (λ e. Keeps-pure tt))
        (λ e. Keeps-pure tt)
