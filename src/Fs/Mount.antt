-- ===== src/Fs/Mount.antt =====
-- `mount` and `unmount` of source/fs.c, and their forms that take an alias.
use ftpii.Base.{
  ℕ, zero, suc, ◌+◌, Bool, true, false, not, ◌&&◌, ◌||◌, List, [], ◌∷◌, Option, none, some, Bytes,
  ltb, ◌==◌, if◌then◌else◌, equal_nocase,
}
use ftpii.Os.{
  Partition, gcsda, gcsdb, sd, usb, dvd, wod, fst, nand, isfs, otp, seeprom, Call, Os, truth,
  unsigned,
}
use ftpii.World.{M, pure, done, stuck, call, ◌>>=◌, ◌>>◌}
use ftpii.Fs.Table.{virtual_partitions, alias, is_gecko, is_fat, is_dvd}
use ftpii.Fs.{mounted}
use ftpii.Dvd.{dvd_mount_wait, set_dvd_mount_wait, dvd_last_access, dvd_stop}

-- the loop of `to_virtual_partition`
unfoldable pub find_alias : Bytes → List Partition → Option Partition
unfolding equal_nocase
find_alias virtual_prefix [] = none
find_alias virtual_prefix (p ∷ ps) =
    if equal_nocase (alias p) virtual_prefix then some p else find_alias virtual_prefix ps

unfoldable pub to_virtual_partition : Bytes → Option Partition
unfolding find_alias
to_virtual_partition virtual_prefix = find_alias virtual_prefix virtual_partitions

abbrev pub is_usb : Partition → Bool
is_usb usb = true
is_usb _ = false

-- Rows are told apart by their place in the table.
abbrev pub row : Partition → ℕ
row gcsda = 0
row gcsdb = 1
row sd = 2
row usb = 3
row dvd = 4
row wod = 5
row fst = 6
row nand = 7
row isfs = 8
row otp = 9
row seeprom = 10

abbrev pub set_geckofail : Partition → Bool → M (Unit {0})
set_geckofail p b w = done tt (record w {
  fs = record w.fs { geckofail = λ q. if row p == row q then b else w.fs.geckofail q };
})

module _ ⦃os : Os⦄ where
  -- `if (!dvd_mountWait() && !dvd_last_access()) dvd_stop();`
  unfoldable pub stop_unused : M (Unit {0})
  stop_unused = do
    waiting ← dvd_mount_wait
    if waiting
        then pure tt
        else (do access ← dvd_last_access; if ltb 0 access then pure tt else (do dvd_stop; pure tt))

  -- `while (!(DI_GetStatus() & DVD_READY) && gettime() < timeout) usleep(2000);` with fuel
  unfoldable pub await_drive : ℕ → ℕ → M (Unit {0})
  unfolding call
  await_drive zero timeout w = stuck
  await_drive (suc fuel) timeout w =
      (do
        ready ← call Call.di_ready
        if truth ready.code then pure tt else (do
          now ← call Call.gettime
          if ltb (unsigned now.code) timeout
              then (do call (Call.usleep 2000); await_drive fuel timeout)
              else pure tt))
        w

  unfoldable pub mount_dvd : ℕ → Partition → M Bool
  unfolding call
  mount_dvd fuel partition = do
    set_dvd_mount_wait true
    call Call.di_mount
    now ← call Call.gettime
    await_drive fuel (unsigned now.code + os.secs_to_ticks 10)
    ready ← call Call.di_ready
    success ←
        (if truth ready.code
          then (do
            set_dvd_mount_wait false
            a ← call (Call.driver_mount partition)
            pure (truth a.code))
          else pure false)
    stop_unused
    pure success

  -- `(partition == PA_USB || disc->shutdown()) & disc->startup()`: `&` runs both sides.
  unfoldable pub restart_disc : Partition → M Bool
  unfolding call
  restart_disc partition = do
    down ←
        (if is_usb partition
          then pure true
          else (do a ← call (Call.disc_shutdown partition); pure (truth a.code)))
    up ← call (Call.disc_startup partition)
    pure (down && truth up.code)

  -- FAT first, and then the first NTFS partition that is found; the answer's payload holds the
  -- sectors where these begin.
  unfoldable pub mount_volume : Partition → M Bool
  unfolding call
  mount_volume partition = do
    fat ← call (Call.fat_mount partition)
    if truth fat.code then pure true else (do
      found ← call (Call.ntfs_find_partitions partition)
      elim found.payload [
        | [] ↦ pure false
        | sector ∷ _ ↦ do a ← call (Call.ntfs_mount partition sector); pure (truth a.code)
      ])

  unfoldable pub mount_fat : Partition → M Bool
  unfolding call
  mount_fat partition = do
    started ← restart_disc partition
    if started
        then mount_volume partition
        else if is_gecko partition
        then (do
          call (Call.usleep 1000000)
          again ← restart_disc partition
          if again then mount_volume partition else pure false)
        else pure false

  -- the body of `mount` behind its guard
  unfoldable pub mount_partition : ℕ → Partition → M Bool
  unfolding call
  mount_partition fuel partition = do
    success ←
        (if is_dvd partition
          then mount_dvd fuel partition
          else if is_fat partition
          then mount_fat partition
          else (do a ← call (Call.driver_mount partition); pure (truth a.code)))
    (if success && is_gecko partition then set_geckofail partition false else pure tt)
    pure success

  -- `!partition || mounted(partition) || (is_dvd(partition) && dvd_mountWait())`, at a partition
  unfoldable pub mount : ℕ → Option Partition → M Bool
  mount fuel none = pure false
  mount fuel (some partition) = do
    already ← mounted partition
    waiting ← dvd_mount_wait
    if already || (is_dvd partition && waiting) then pure false else mount_partition fuel partition

  unfoldable pub mount_virtual : ℕ → Bytes → M Bool
  mount_virtual fuel dir = mount fuel (to_virtual_partition dir)

  unfoldable pub unmount_partition : Partition → M Bool
  unfolding call
  unmount_partition partition =
      if is_dvd partition
      then (do a ← call (Call.driver_unmount partition); stop_unused; pure (truth a.code))
      else if is_fat partition
      then (do call (Call.fat_unmount partition); call (Call.ntfs_unmount partition); pure true)
      else (do a ← call (Call.driver_unmount partition); pure (truth a.code))

  unfoldable pub unmount : Option Partition → M Bool
  unmount none = pure false
  unmount (some partition) = do
    is_mounted ← mounted partition
    waiting ← dvd_mount_wait
    if not is_mounted || (is_dvd partition && waiting)
        then pure false
        else unmount_partition partition

  unfoldable pub unmount_virtual : Bytes → M Bool
  unmount_virtual dir = unmount (to_virtual_partition dir)
