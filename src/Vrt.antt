-- ===== src/Vrt.antt =====
-- source/vrt.c: the paths that clients see, and the file operations on them. (The normalising of
-- `virtual_abspath` is in Path.)
pub mod Dirs
pub mod Root
pub mod Opening
pub mod Memory
pub mod Alias
pub mod Resolve
pub mod Cwd
pub mod Verdict
pub mod Status
pub mod Chdir
pub mod Frame
use ftpii.Base.{
  ℕ, zero, suc, ◌+◌, ◌≡◌, Bool, true, false, not, ◌&&◌, ◌||◌, List, [], ◌∷◌, ◌++◌, Option, none,
  some, Bytes, ◌==◌, ltb, if◌then◌else◌, length, drop, codes, contains, equal, equal_nocase,
  starts_with_nocase,
}
use ftpii.Os.{
  S32, val, err, minus_one, enoent, enodev, enotdir, enomem, Partition, Call, Answer, Stat, Os,
  handle,
}
use ftpii.World.{
  World, Dir, virtual, device, M, Out, pure, done, fault, call, posix, set_errno, update, ◌>>=◌,
  ◌>>◌,
}
use ftpii.Fs.{mounted}
use ftpii.Fs.Table.{virtual_partitions, alias, prefix}
use ftpii.Path.{normalise}

-- `s[0] == c`
unfoldable pub begins : ℕ → Bytes → Bool
begins c [] = false
begins c (x ∷ _) = x == c

-- `s + 1` behind a test of the first byte
abbrev pub skip_slash : Bytes → Bytes
skip_slash [] = []
skip_slash (c ∷ s) = if c == b'/' then s else c ∷ s

-- the test of the loop in `to_real_path`
unfoldable pub matches_alias : Bytes → Partition → Bool
unfolding begins equal_nocase starts_with_nocase
matches_alias path p =
    equal_nocase (alias p) path
    || (starts_with_nocase (alias p) path && begins b'/' (drop (length (alias p)) path))

-- the loop over the table, up to its `break`
unfoldable pub find_partition : Bytes → List Partition → Option Partition
unfolding matches_alias
find_partition path [] = none
find_partition path (p ∷ ps) = if matches_alias path p then some p else find_partition path ps

module _ ⦃os : Os⦄ where
  -- whether `malloc(size)` yields memory
  unfoldable pub malloc : ℕ → M Bool
  unfolding call
  malloc size = do
    a ← call (Call.malloc size)
    elim a.code [ val _ ↦ pure true | err _ ↦ pure false ]

  unfoldable pub virtual_abspath : Bytes → Bytes → M (Option Bytes)
  unfolding begins
  virtual_abspath virtual_cwd virtual_path =
      if begins b'/' virtual_path
      then (do
        ok ← malloc (length virtual_path + 1)
        pure (if ok then some (normalise virtual_path) else none))
      else (let path_size = length virtual_cwd + length virtual_path + 1 in
          if ltb os.maxpathlen path_size then pure none else (do
            got ← malloc path_size
            if got
                then (do
                  ok ← malloc path_size
                  pure (if ok then some (normalise (virtual_cwd ++ virtual_path)) else none))
                else pure none))

  -- `to_real_path` behind its call of `virtual_abspath`
  unfoldable pub real_path_of : Bytes → M (Option Bytes)
  unfolding equal
  real_path_of virtual_path =
      if equal (b'/' ∷ []) virtual_path
      then pure (some [])
      else elim (find_partition virtual_path virtual_partitions) [
        | none ↦ do set_errno enodev; pure none
        | some partition ↦
            let rest = skip_slash (drop (length (alias partition)) virtual_path) in
            let real_path_size = length (prefix partition) + length rest + 1 in
            if ltb os.maxpathlen real_path_size then pure none else (do
              ok ← malloc real_path_size
              pure (if ok then some (prefix partition ++ rest) else none))
      ]

  unfoldable pub to_real_path : Bytes → Bytes → M (Option Bytes)
  to_real_path virtual_cwd virtual_path = do
    set_errno enoent
    if contains b':' virtual_path then pure none else (do
      abspath ← virtual_abspath virtual_cwd virtual_path
      elim abspath [ none ↦ pure none | some path ↦ real_path_of path ])

  -- `f` is the call with its further arguments.
  unfoldable pub with_virtual_path : {A : Type 0} → Bytes → (Bytes → M A) → Bytes → A → M A
  with_virtual_path virtual_cwd f virtual_path failed = do
    path ← to_real_path virtual_cwd virtual_path
    elim path [ none ↦ pure failed | some [] ↦ pure failed | some (c ∷ s) ↦ f (c ∷ s) ]

  -- an `int` result: 0, or -1 with errno set
  abbrev pub returns : S32 → Bool
  returns (val _) = true
  returns (err _) = false

  unfoldable pub vrt_fopen : Bytes → Bytes → Bytes → M (Option ℕ)
  unfolding posix
  vrt_fopen cwd path mode =
      with_virtual_path cwd (λ real. do a ← posix (Call.fopen real mode); pure (handle a.code)) path
        none

  -- `none` for -1; the `st` that is filled in is the result. In the root its `st_mtime` is not set.
  unfoldable pub vrt_stat : Bytes → Bytes → Stat → M (Option Stat)
  unfolding posix
  vrt_stat cwd path st = do
    real_path ← to_real_path cwd path
    elim real_path [
      | none ↦ pure none
      | some [] ↦ pure (some (record st { is_dir = true; size = 31337 }))
      | some (_ ∷ _) ↦
          with_virtual_path cwd
            (λ real. do
              a ← posix (Call.stat real)
              pure (if returns a.code then some a.info else none))
            path none
    ]

  -- `strcpy(cwd, abspath); if (cwd[1]) strcat(cwd, "/");`
  abbrev pub as_cwd : Bytes → Bytes
  as_cwd [] = []
  as_cwd (c ∷ []) = c ∷ []
  as_cwd (c ∷ d ∷ s) = (c ∷ d ∷ s) ++ b'/' ∷ []

  -- `some cwd'` for 0, with what is stored in `cwd`; `none` for -1, which stores nothing.
  unfoldable pub vrt_chdir : Bytes → Bytes → Stat → M (Option Bytes)
  vrt_chdir cwd path garbage = do
    st ← vrt_stat cwd path garbage
    elim st [
      | none ↦ pure none
      | some found ↦ if not found.is_dir then (do set_errno enotdir; pure none) else (do
        abspath ← virtual_abspath cwd path
        elim abspath [ none ↦ do set_errno enomem; pure none | some s ↦ pure (some (as_cwd s)) ])
    ]

  unfoldable pub vrt_unlink : Bytes → Bytes → M Bool
  unfolding posix
  vrt_unlink cwd path =
      with_virtual_path cwd (λ real. do a ← posix (Call.unlink real); pure (returns a.code)) path
        false

  unfoldable pub vrt_mkdir : Bytes → Bytes → ℕ → M Bool
  unfolding posix
  vrt_mkdir cwd path mode =
      with_virtual_path cwd (λ real. do a ← posix (Call.mkdir real mode); pure (returns a.code))
        path false

  unfoldable pub vrt_rename : Bytes → Bytes → Bytes → M Bool
  unfolding posix
  vrt_rename cwd from_path to_path = do
    real_to_path ← to_real_path cwd to_path
    elim real_to_path [
      | none ↦ pure false
      | some [] ↦ pure false
      | some (c ∷ s) ↦
          with_virtual_path cwd
            (λ real. do a ← posix (Call.rename real (c ∷ s)); pure (returns a.code)) from_path false
    ]

  -- A `DIR_ITER` of the program's own, its cursor at the first row of the table.
  new_dir : M Dir
  new_dir w =
      let a = w.ftp.next in
      done (virtual a)
        (record w { ftp = record w.ftp { dirs = update w.ftp.dirs a (some 0); next = a + 1 } })

  unfoldable pub vrt_diropen : Bytes → Bytes → M (Option Dir)
  unfolding posix new_dir
  vrt_diropen cwd path = do
    real_path ← to_real_path cwd path
    elim real_path [
      | none ↦ pure none
      | some [] ↦ do
        ok ← malloc os.sizeof_dir_iter
        if ok then (do d ← new_dir; pure (some d)) else pure none
      | some (_ ∷ _) ↦
          with_virtual_path cwd
            (λ real. do
              a ← posix (Call.diropen real)
              pure (elim (handle a.code) [ some h ↦ some (device h) | none ↦ none ]))
            path none
    ]

  -- The loop of `vrt_dirnext` from a row on: the mounted row that it stops at, and where the cursor
  -- then stands.
  unfoldable pub next_mounted : ℕ → List Partition → M (Option Partition × ℕ)
  next_mounted cursor [] w = done (none, cursor) w
  next_mounted cursor (p ∷ ps) w =
      (do
        yes_mounted ← mounted p
        if yes_mounted then pure (some p, cursor + 1) else next_mounted (cursor + 1) ps)
        w

  load_dir : ℕ → M ℕ
  load_dir a w = elim (w.ftp.dirs a) [ some cursor ↦ done cursor w | none ↦ fault ]

  store_dir : ℕ → Option ℕ → M (Unit {0})
  store_dir a v w = done tt (record w { ftp = record w.ftp { dirs = update w.ftp.dirs a v } })

  -- The entry's name and `st`, or `none` for -1. In the root `st_mtime` keeps what it held.
  unfoldable pub vrt_dirnext : Dir → Stat → M (Option (Bytes × Stat))
  unfolding load_dir store_dir call
  vrt_dirnext (virtual a) st = do
    cursor ← load_dir a
    (found, cursor') ← next_mounted cursor (drop cursor virtual_partitions)
    store_dir a (some cursor')
    pure (elim found [
      | some p ↦ some (drop 1 (alias p), record st { is_dir = true; size = 0 })
      | none ↦ none
    ])
  vrt_dirnext (device d) st = do
    a ← call (Call.dirnext d)
    pure (if returns a.code then some (a.payload, a.info) else none)

  unfoldable pub vrt_dirclose : Dir → M (Unit {0})
  unfolding load_dir store_dir call
  vrt_dirclose (virtual a) = do load_dir a; store_dir a none
  vrt_dirclose (device d) = do call (Call.dirclose d); pure tt
