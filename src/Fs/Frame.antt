-- ===== src/Fs/Frame.antt =====
-- Mounting, unmounting and the drive, source/fs.c and dvd.c, leave the statics of the server and of the
-- remounting alone.
use ftpii.Base.{
  ℕ, zero, suc, ◌+◌, Bool, true, false, not, ◌&&◌, ◌||◌, Option, none, some, refl, ltb, Bytes,
}
use ftpii.Os.{Partition, dvd, wod, fst, Call, Os, truth, unsigned}
use ftpii.World.{M}
use ftpii.World.Keeps.{
  ended, waits, Keeps, Keeps-bind, Keeps-then, Keeps-pure, Keeps-if, Keeps-S32, Keeps-List,
}
use ftpii.World.Apart.{Always, Apart, Apart-frame, call-Apart, posix-Apart}
use ftpii.Dvd.{
  dvd_motor_timeout, dvd_mount_wait, set_dvd_mount_wait, set_last_stopped, maximum, last_access_of,
  dvd_last_access, dvd_stop,
}
use ftpii.Dvd.Media.{
  dvd_last_stopped, dvd_unmount, dvd_eject, check_dvd_motor_timeout, check_dvd_mount,
}
use ftpii.Fs.{mounted}
use ftpii.Fs.Table.{prefix, is_dvd, is_fat, is_gecko}
use ftpii.Fs.Mount.{
  is_usb, set_geckofail, stop_unused, await_drive, mount_dvd, restart_disc, mount_volume, mount_fat,
  mount_partition, mount, mount_virtual, unmount_partition, unmount, unmount_virtual,
  to_virtual_partition,
}

abbrev Keeping : {A : Type 0} → M A → Type 0
Keeping m = Keeps Always Apart m

wait-Apart : Keeping dvd_mount_wait
wait-Apart = record { run = λ w i. ended (record { ftp = refl; same = refl }) }

pub set_wait-Apart : (b : Bool) → Keeping (set_dvd_mount_wait b)
set_wait-Apart b = record { run = λ w i. ended (record { ftp = refl; same = refl }) }

stopped-Apart : Keeping dvd_last_stopped
stopped-Apart = record { run = λ w i. ended (record { ftp = refl; same = refl }) }

set_stopped-Apart : (n : ℕ) → Keeping (set_last_stopped n)
set_stopped-Apart n = record { run = λ w i. ended (record { ftp = refl; same = refl }) }

pub set_geckofail-Apart : (p : Partition) (b : Bool) → Keeping (set_geckofail p b)
set_geckofail-Apart p b = record { run = λ w i. ended (record { ftp = refl; same = refl }) }

module _ ⦃os : Os⦄ where
  pub mounted-Apart : (p : Partition) → Keeping (mounted p)
  unfolding mounted
  mounted-Apart p = Keeps-bind (posix-Apart (Call.diropen (prefix p))) λ dir.
      Keeps-S32 dir.code (λ d. Keeps-then (call-Apart (Call.dirclose d)) (Keeps-pure true))
        (λ e. Keeps-pure false)

  maximum-Apart :
      {first second : M ℕ} → Keeping first → Keeping second → Keeping (maximum first second)
  maximum-Apart k l = Keeps-bind k λ a. Keeps-bind l λ b. Keeps-if (ltb b a) k l

  last_access_of-Apart : (p : Partition) → Keeping (last_access_of p)
  last_access_of-Apart p =
      Keeps-bind (call-Apart (Call.last_access p)) λ a. Keeps-pure (unsigned a.code)

  dvd_last_access-Apart : Keeping dvd_last_access
  unfolding dvd_last_access
  dvd_last_access-Apart =
      maximum-Apart (maximum-Apart (last_access_of-Apart dvd) (last_access_of-Apart wod))
        (last_access_of-Apart fst)

  pub dvd_stop-Apart : Keeping dvd_stop
  unfolding dvd_stop
  dvd_stop-Apart = Keeps-bind (call-Apart Call.gettime) λ now.
      Keeps-then (set_stopped-Apart (unsigned now.code))
        (Keeps-bind (call-Apart Call.di_stop_motor) λ a. Keeps-pure a.code)

  stop_unused-Apart : Keeping stop_unused
  unfolding stop_unused
  stop_unused-Apart = Keeps-bind wait-Apart λ waiting. Keeps-if waiting (Keeps-pure tt) (
      Keeps-bind dvd_last_access-Apart λ access.
        Keeps-if (ltb 0 access) (Keeps-pure tt) (Keeps-then dvd_stop-Apart (Keeps-pure tt)))

  await_drive-Apart : (fuel timeout : ℕ) → Keeping (await_drive fuel timeout)
  unfolding await_drive
  await_drive-Apart zero timeout = record { run = λ w i. waits }
  await_drive-Apart (suc fuel) timeout =
      let round = Keeps-bind (call-Apart Call.di_ready) λ ready.
        Keeps-if (truth ready.code) (Keeps-pure tt) (
          Keeps-bind (call-Apart Call.gettime) λ now.
            Keeps-if (ltb (unsigned now.code) timeout)
              (Keeps-then (call-Apart (Call.usleep 2000)) (await_drive-Apart fuel timeout))
              (Keeps-pure tt)) in
      record { run = λ w i. round.run w i }

  mount_dvd-Apart : (fuel : ℕ) (p : Partition) → Keeping (mount_dvd fuel p)
  unfolding mount_dvd
  mount_dvd-Apart fuel p = Keeps-then (set_wait-Apart true) (
      Keeps-then (call-Apart Call.di_mount) (
        Keeps-bind (call-Apart Call.gettime) λ now.
          Keeps-then (await_drive-Apart fuel (unsigned now.code + os.secs_to_ticks 10)) (
            Keeps-bind (call-Apart Call.di_ready) λ ready.
              Keeps-bind
                (Keeps-if (truth ready.code)
                  (Keeps-then (set_wait-Apart false)
                    (Keeps-bind (call-Apart (Call.driver_mount p)) λ a. Keeps-pure (truth a.code)))
                  (Keeps-pure false))
                λ success. Keeps-then stop_unused-Apart (Keeps-pure success))))

  restart_disc-Apart : (p : Partition) → Keeping (restart_disc p)
  unfolding restart_disc
  restart_disc-Apart p =
      Keeps-bind
        (Keeps-if (is_usb p) (Keeps-pure true)
          (Keeps-bind (call-Apart (Call.disc_shutdown p)) λ a. Keeps-pure (truth a.code)))
        λ down.
          Keeps-bind (call-Apart (Call.disc_startup p)) λ up. Keeps-pure (down && truth up.code)

  mount_volume-Apart : (p : Partition) → Keeping (mount_volume p)
  unfolding mount_volume
  mount_volume-Apart p = Keeps-bind (call-Apart (Call.fat_mount p)) λ fat.
      Keeps-if (truth fat.code) (Keeps-pure true) (
        Keeps-bind (call-Apart (Call.ntfs_find_partitions p)) λ found.
          Keeps-List found.payload (Keeps-pure false) λ sector rest.
            Keeps-bind (call-Apart (Call.ntfs_mount p sector)) λ a. Keeps-pure (truth a.code))

  mount_fat-Apart : (p : Partition) → Keeping (mount_fat p)
  unfolding mount_fat
  mount_fat-Apart p = Keeps-bind (restart_disc-Apart p) λ started.
      Keeps-if started (mount_volume-Apart p) (
        Keeps-if (is_gecko p)
          (Keeps-then (call-Apart (Call.usleep 1000000)) (
            Keeps-bind (restart_disc-Apart p)
              λ again. Keeps-if again (mount_volume-Apart p) (Keeps-pure false)))
          (Keeps-pure false))

  mount_partition-Apart : (fuel : ℕ) (p : Partition) → Keeping (mount_partition fuel p)
  unfolding mount_partition
  mount_partition-Apart fuel p =
      Keeps-bind
        (Keeps-if (is_dvd p) (mount_dvd-Apart fuel p) (
          Keeps-if (is_fat p) (mount_fat-Apart p)
            (Keeps-bind (call-Apart (Call.driver_mount p)) λ a. Keeps-pure (truth a.code))))
        λ success.
          Keeps-then
            (Keeps-if (success && is_gecko p) (set_geckofail-Apart p false) (Keeps-pure tt))
            (Keeps-pure success)

  pub mount-Apart : (fuel : ℕ) (p : Option Partition) → Keeping (mount fuel p)
  unfolding mount
  mount-Apart fuel none = Keeps-pure false
  mount-Apart fuel (some p) = Keeps-bind (mounted-Apart p) λ already.
      Keeps-bind wait-Apart λ waiting.
        Keeps-if (already || (is_dvd p && waiting)) (Keeps-pure false)
          (mount_partition-Apart fuel p)

  pub mount_virtual-Apart : (fuel : ℕ) (s : Bytes) → Keeping (mount_virtual fuel s)
  unfolding mount_virtual
  mount_virtual-Apart fuel s = mount-Apart fuel (to_virtual_partition s)

  unmount_partition-Apart : (p : Partition) → Keeping (unmount_partition p)
  unfolding unmount_partition
  unmount_partition-Apart p =
      Keeps-if (is_dvd p)
        (Keeps-bind (call-Apart (Call.driver_unmount p))
          λ a. Keeps-then stop_unused-Apart (Keeps-pure (truth a.code)))
        (Keeps-if (is_fat p)
          (Keeps-then (call-Apart (Call.fat_unmount p))
            (Keeps-then (call-Apart (Call.ntfs_unmount p)) (Keeps-pure true)))
          (Keeps-bind (call-Apart (Call.driver_unmount p)) λ a. Keeps-pure (truth a.code)))

  pub unmount-Apart : (p : Option Partition) → Keeping (unmount p)
  unfolding unmount
  unmount-Apart none = Keeps-pure false
  unmount-Apart (some p) = Keeps-bind (mounted-Apart p) λ there. Keeps-bind wait-Apart λ waiting.
      Keeps-if (not there || (is_dvd p && waiting)) (Keeps-pure false) (unmount_partition-Apart p)

  pub unmount_virtual-Apart : (s : Bytes) → Keeping (unmount_virtual s)
  unfolding unmount_virtual
  unmount_virtual-Apart s = unmount-Apart (to_virtual_partition s)

  pub dvd_unmount-Apart : Keeping dvd_unmount
  unfolding dvd_unmount
  dvd_unmount-Apart = Keeps-then (unmount-Apart (some wod)) (
      Keeps-then (unmount-Apart (some fst))
        (Keeps-then (unmount-Apart (some dvd)) (Keeps-then dvd_stop-Apart (Keeps-pure tt))))

  pub dvd_eject-Apart : Keeping dvd_eject
  unfolding dvd_eject
  dvd_eject-Apart =
      Keeps-then dvd_unmount-Apart (Keeps-bind (call-Apart Call.di_eject) λ a. Keeps-pure a.code)

  pub check_dvd_motor_timeout-Apart : (now : ℕ) → Keeping (check_dvd_motor_timeout now)
  unfolding check_dvd_motor_timeout
  check_dvd_motor_timeout-Apart now = Keeps-bind dvd_last_access-Apart λ access.
      Keeps-bind stopped-Apart λ stopped. Keeps-bind wait-Apart λ waiting.
        Keeps-if
          (ltb stopped access
            && ltb (access + os.secs_to_ticks dvd_motor_timeout) now
            && not waiting)
          dvd_unmount-Apart (Keeps-pure tt)

  pub check_dvd_mount-Apart : Keeping check_dvd_mount
  unfolding check_dvd_mount
  check_dvd_mount-Apart = Keeps-bind wait-Apart λ waiting. Keeps-if (not waiting) (Keeps-pure tt) (
      Keeps-bind (call-Apart Call.di_ready) λ ready.
        Keeps-if (not (truth ready.code)) (Keeps-pure tt) (
          Keeps-then (set_wait-Apart false) (
            Keeps-bind (call-Apart (Call.driver_mount wod)) λ disc.
              Keeps-bind (call-Apart (Call.driver_mount fst)) λ files.
                Keeps-bind (call-Apart (Call.driver_mount dvd)) λ iso.
                  Keeps-if (truth disc.code || truth files.code || truth iso.code) (Keeps-pure tt)
                    (Keeps-then dvd_stop-Apart (Keeps-pure tt)))))
