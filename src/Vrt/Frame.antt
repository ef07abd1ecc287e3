-- ===== src/Vrt/Frame.antt =====
-- The functions of source/vrt.c that open no directory leave the statics of the server alone.
use ftpii.Base.{
  ℕ, ◌+◌, true, false, not, [], ◌∷◌, ◌++◌, none, some, ltb, if◌then◌else◌, Bytes, contains, length,
  drop, equal,
}
use ftpii.Os.{Stat, Call, Os, enoent, enodev, enomem, enotdir, handle}
use ftpii.World.{M, pure, posix, ◌>>=◌}
use ftpii.World.Keeps.{
  Keeps, Keeps-bind, Keeps-then, Keeps-pure, Keeps-if, Keeps-S32, Keeps-Option, Keeps-path,
}
use ftpii.World.Apart.{Always, Apart, Apart-frame, call-Apart, posix-Apart, errno-Apart}
use ftpii.Fs.Table.{virtual_partitions, alias, prefix}
use ftpii.Path.{normalise}
use ftpii.Vrt.{
  begins, skip_slash, find_partition, malloc, virtual_abspath, real_path_of, to_real_path,
  with_virtual_path, returns, vrt_fopen, vrt_stat, as_cwd, vrt_chdir, vrt_unlink, vrt_mkdir,
  vrt_rename,
}

abbrev Keeping : {A : Type 0} → M A → Type 0
Keeping m = Keeps Always Apart m

module _ ⦃os : Os⦄ where
  pub malloc-Apart : (n : ℕ) → Keeping (malloc n)
  unfolding malloc
  malloc-Apart n =
      Keeps-bind (call-Apart (Call.malloc n))
        λ a. Keeps-S32 a.code (λ m. Keeps-pure true) (λ e. Keeps-pure false)

  virtual_abspath-Apart : (cwd path : Bytes) → Keeping (virtual_abspath cwd path)
  unfolding virtual_abspath
  virtual_abspath-Apart cwd path =
      let size = length cwd + length path + 1 in
      Keeps-if (begins b'/' path)
        (Keeps-bind (malloc-Apart (length path + 1))
          λ ok. Keeps-pure (if ok then some (normalise path) else none))
        (Keeps-if (ltb os.maxpathlen size) (Keeps-pure none) (
          Keeps-bind (malloc-Apart size) λ got.
            Keeps-if got
              (Keeps-bind (malloc-Apart size)
                λ ok. Keeps-pure (if ok then some (normalise (cwd ++ path)) else none))
              (Keeps-pure none)))

  real_path_of-Apart : (path : Bytes) → Keeping (real_path_of path)
  unfolding real_path_of
  real_path_of-Apart path = Keeps-if (equal (b'/' ∷ []) path) (Keeps-pure (some [])) (
      Keeps-Option (find_partition path virtual_partitions)
        (Keeps-then (errno-Apart enodev) (Keeps-pure none))
        (λ p.
          let rest = skip_slash (drop (length (alias p)) path) in
          let size = length (prefix p) + length rest + 1 in
          Keeps-if (ltb os.maxpathlen size) (Keeps-pure none) (
            Keeps-bind (malloc-Apart size)
              λ ok. Keeps-pure (if ok then some (prefix p ++ rest) else none))))

  pub to_real_path-Apart : (cwd path : Bytes) → Keeping (to_real_path cwd path)
  unfolding to_real_path
  to_real_path-Apart cwd path = Keeps-then (errno-Apart enoent) (
      Keeps-if (contains b':' path) (Keeps-pure none) (
        Keeps-bind (virtual_abspath-Apart cwd path)
          λ abspath. Keeps-Option abspath (Keeps-pure none) (λ s. real_path_of-Apart s)))

  with_virtual_path-Apart :
      {A : Type 0} (cwd : Bytes) (f : Bytes → M A) (path : Bytes) (failed : A)
      → ((real : Bytes) → Keeping (f real))
      → Keeping (with_virtual_path cwd f path failed)
  unfolding with_virtual_path
  with_virtual_path-Apart cwd f path failed h =
      Keeps-bind (to_real_path-Apart cwd path)
        λ real. Keeps-path real (Keeps-pure failed) (Keeps-pure failed) (λ c s. h (c ∷ s))

  pub vrt_fopen-Apart : (cwd path mode : Bytes) → Keeping (vrt_fopen cwd path mode)
  unfolding vrt_fopen
  vrt_fopen-Apart cwd path mode =
      with_virtual_path-Apart cwd
        (λ real. posix (Call.fopen real mode) >>= λ a. pure (handle a.code)) path none
        (λ real. Keeps-bind (posix-Apart (Call.fopen real mode)) λ a. Keeps-pure (handle a.code))

  pub vrt_stat-Apart : (cwd path : Bytes) (st : Stat) → Keeping (vrt_stat cwd path st)
  unfolding vrt_stat
  vrt_stat-Apart cwd path st = Keeps-bind (to_real_path-Apart cwd path) λ real.
      Keeps-path real (Keeps-pure none)
        (Keeps-pure (some (record st { is_dir = true; size = 31337 })))
        (λ c s.
          with_virtual_path-Apart cwd
            (λ real.
              posix (Call.stat real) >>= λ a. pure (if returns a.code then some a.info else none))
            path none
            (λ real.
              Keeps-bind (posix-Apart (Call.stat real))
                λ a. Keeps-pure (if returns a.code then some a.info else none)))

  pub vrt_chdir-Apart : (cwd path : Bytes) (st : Stat) → Keeping (vrt_chdir cwd path st)
  unfolding vrt_chdir
  vrt_chdir-Apart cwd path st = Keeps-bind (vrt_stat-Apart cwd path st) λ found.
      Keeps-Option found (Keeps-pure none) (λ d.
        Keeps-if (not d.is_dir) (Keeps-then (errno-Apart enotdir) (Keeps-pure none)) (
          Keeps-bind (virtual_abspath-Apart cwd path) λ abspath.
            Keeps-Option abspath (Keeps-then (errno-Apart enomem) (Keeps-pure none))
              (λ s. Keeps-pure (some (as_cwd s)))))

  pub vrt_unlink-Apart : (cwd path : Bytes) → Keeping (vrt_unlink cwd path)
  unfolding vrt_unlink
  vrt_unlink-Apart cwd path =
      with_virtual_path-Apart cwd (λ real. posix (Call.unlink real) >>= λ a. pure (returns a.code))
        path false
        (λ real. Keeps-bind (posix-Apart (Call.unlink real)) λ a. Keeps-pure (returns a.code))

  pub vrt_mkdir-Apart : (cwd path : Bytes) (mode : ℕ) → Keeping (vrt_mkdir cwd path mode)
  unfolding vrt_mkdir
  vrt_mkdir-Apart cwd path mode =
      with_virtual_path-Apart cwd
        (λ real. posix (Call.mkdir real mode) >>= λ a. pure (returns a.code)) path false
        (λ real. Keeps-bind (posix-Apart (Call.mkdir real mode)) λ a. Keeps-pure (returns a.code))

  pub vrt_rename-Apart :
      (cwd from_path to_path : Bytes) → Keeping (vrt_rename cwd from_path to_path)
  unfolding vrt_rename
  vrt_rename-Apart cwd from_path to_path = Keeps-bind (to_real_path-Apart cwd to_path) λ real.
      Keeps-path real (Keeps-pure false) (Keeps-pure false) (λ c s.
        with_virtual_path-Apart cwd
          (λ real. posix (Call.rename real (c ∷ s)) >>= λ a. pure (returns a.code)) from_path false
          (λ real.
            Keeps-bind (posix-Apart (Call.rename real (c ∷ s))) λ a. Keeps-pure (returns a.code)))
