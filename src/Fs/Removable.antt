-- ===== src/Fs/Removable.antt =====
-- Devices that come and go, source/fs.c: `check_removable_devices`, and the mounts at the start.
pub mod Frame
use ftpii.Base.{
  ℕ, zero, suc, ◌+◌, ◌/◌, ◌%◌, Bool, true, false, not, ◌&&◌, ◌||◌, List, [], ◌∷◌, Option, none,
  some, Bytes, ltb, leb, ◌==◌, if◌then◌else◌,
}
use ftpii.Os.{
  S32, val, err, Partition, gcsda, gcsdb, sd, usb, dvd, nand, isfs, otp, seeprom, Call, Os, truth,
  unsigned,
}
use ftpii.World.{World, FsState, M, pure, done, call, ◌>>=◌, ◌>>◌}
use ftpii.Fs.{mounted}
use ftpii.Fs.Table.{virtual_partitions, is_dvd, is_gecko, is_fat}
use ftpii.Fs.Mount.{row, set_geckofail, mount, unmount}
use ftpii.Dvd.{dvd_mount_wait, set_dvd_mount_wait}

-- `a == b` on pointers to rows
abbrev pub same_row : Partition → Partition → Bool
same_row p q = row p == row q

-- the rows with a `disc`
abbrev pub has_disc : Partition → Bool
has_disc p = is_fat p

abbrev pub get_fs : M FsState
get_fs w = done w.fs w

-- `partition->inserted = b`
abbrev pub set_inserted : Partition → Bool → M (Unit {0})
set_inserted p b w =
    done tt (record w {
      fs = record w.fs { inserted = λ q. if same_row p q then b else w.fs.inserted q };
    })

-- `device_check_timer = n`
abbrev pub set_device_check_timer : ℕ → M (Unit {0})
set_device_check_timer n w = done tt (record w { fs = record w.fs { device_check_timer = n } })

-- `a != b` on conditions
abbrev differ : Bool → Bool → Bool
differ a b = if a then not b else b

-- `(status & 2) == 2`, where the status is the first word that is stored
abbrev cover_closed : Bytes → Bool
cover_closed [] = false
cover_closed (status ∷ _) = (status / 2) % 2 == 1

module _ ⦃os : Os⦄ where
  -- `partition->inserted || mounted(partition)`
  unfoldable pub already_there : Partition → M Bool
  already_there partition = do
    s ← get_fs
    if s.inserted partition then pure true else mounted partition

  -- The branch of the drive itself.
  unfoldable pub look_at_cover : M (Unit {0})
  unfolding call
  look_at_cover = do
    waiting ← dvd_mount_wait
    if waiting then pure tt else (do
      call (Call.usleep 2000)
      cover ← call Call.di_cover
      if truth cover.code then pure tt else set_inserted dvd (cover_closed cover.payload))

  -- The assignments to `partition->inserted`.
  unfoldable pub refresh : Partition → Bool → M (Unit {0})
  unfolding call
  refresh partition already_inserted =
      if is_dvd partition
      then (if same_row partition dvd
          then look_at_cover
          else (do s ← get_fs; set_inserted partition (s.inserted dvd)))
      else (do
        (if not already_inserted && same_row partition sd
            then (do call (Call.disc_startup partition); pure tt)
            else pure tt)
        a ← call (Call.disc_is_inserted partition)
        set_inserted partition (truth a.code))

  unfoldable pub was_inserted_or_removed : Partition → M Bool
  was_inserted_or_removed partition = do
    s ← get_fs
    if (not (has_disc partition) || s.geckofail partition) && not (is_dvd partition)
        then pure false
        else (do
          already_inserted ← already_there partition
          refresh partition already_inserted
          t ← get_fs
          pure (differ already_inserted (t.inserted partition)))

  -- The branch of an inserted device.
  unfoldable pub device_inserted : ℕ → Partition → M (Unit {0})
  unfolding call
  device_inserted fuel partition =
      if same_row partition dvd
      then (do set_dvd_mount_wait true; call Call.di_mount; pure tt)
      else (do
        success ← mount fuel (some partition)
        if not success && is_gecko partition then set_geckofail partition true else pure tt)

  -- `partition == PA_DVD || (!is_dvd(partition) && !mounted(partition))`
  unfoldable pub wants_mount : Partition → M Bool
  wants_mount partition =
      if same_row partition dvd
      then pure true
      else if is_dvd partition
      then pure false
      else (do there ← mounted partition; pure (not there))

  unfoldable pub device_removed : Partition → M (Unit {0})
  device_removed partition = do
    s ← get_fs
    if s.inserted partition then pure tt else (do
      there ← mounted partition
      if there then (do unmount (some partition); pure tt) else pure tt)

  -- What the loop does where a device came or went.
  unfoldable pub device_changed : ℕ → Partition → M (Unit {0})
  device_changed fuel partition = do
    s ← get_fs
    mounting ← (if s.inserted partition then wants_mount partition else pure false)
    if mounting then device_inserted fuel partition else device_removed partition

  -- `mount_timer && partition == mount_partition`
  abbrev pub being_changed : FsState → Partition → Bool
  being_changed s partition = elim s.mount_partition [
    | some p ↦ not (s.mount_timer == 0) && same_row partition p
    | none ↦ false
  ]

  unfoldable pub check_device : ℕ → Partition → M (Unit {0})
  check_device fuel partition = do
    s ← get_fs
    if being_changed s partition then pure tt else (do
      changed ← was_inserted_or_removed partition
      if changed then device_changed fuel partition else pure tt)

  unfoldable pub check_devices : ℕ → List Partition → M (Unit {0})
  unfolding check_device
  check_devices fuel [] w = done tt w
  check_devices fuel (p ∷ ps) w = (do check_device fuel p; check_devices fuel ps) w

  unfoldable pub check_removable_devices : ℕ → ℕ → M (Unit {0})
  unfolding call
  check_removable_devices fuel now = do
    s ← get_fs
    if leb now s.device_check_timer then pure tt else (do
      check_devices fuel virtual_partitions
      later ← call Call.gettime
      set_device_check_timer (unsigned later.code + os.secs_to_ticks 2))

  unfoldable pub initialise_fs : M (Unit {0})
  unfolding call
  initialise_fs = do
    call (Call.driver_mount nand)
    call (Call.driver_mount otp)
    call (Call.driver_mount seeprom)
    call Call.isfs_su
    a ← call Call.isfs_initialize
    elim a.code [ val zero ↦ do call (Call.driver_mount isfs); pure tt | _ ↦ pure tt ]
