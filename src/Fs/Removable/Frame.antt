-- ===== src/Fs/Removable/Frame.antt =====
-- The look at the removable devices, source/fs.c, leaves the statics of the server and of the
-- remounting alone.
use ftpii.Base.{ℕ, ◌+◌, Bool, true, false, not, ◌&&◌, ◌||◌, List, [], ◌∷◌, some, refl, leb}
use ftpii.Os.{Partition, sd, dvd, Call, Os, truth, unsigned}
use ftpii.World.{M}
use ftpii.World.Keeps.{ended, Keeps, Keeps-bind, Keeps-then, Keeps-pure, Keeps-if}
use ftpii.World.Apart.{Always, Apart, Apart-frame, call-Apart}
use ftpii.Fs.Table.{virtual_partitions, is_dvd, is_gecko}
use ftpii.Fs.Frame.{mounted-Apart, set_wait-Apart, set_geckofail-Apart, mount-Apart, unmount-Apart}
use ftpii.Dvd.{dvd_mount_wait}
use ftpii.Fs.Removable.{
  same_row, has_disc, get_fs, set_inserted, set_device_check_timer, cover_closed, differ,
  already_there, look_at_cover, refresh, was_inserted_or_removed, device_inserted, wants_mount,
  device_removed, device_changed, being_changed, check_device, check_devices,
  check_removable_devices,
}

abbrev Keeping : {A : Type 0} → M A → Type 0
Keeping m = Keeps Always Apart m

pub get_fs-Apart : Keeping get_fs
get_fs-Apart = record { run = λ w i. ended (record { ftp = refl; same = refl }) }

set_inserted-Apart : (p : Partition) (b : Bool) → Keeping (set_inserted p b)
set_inserted-Apart p b = record { run = λ w i. ended (record { ftp = refl; same = refl }) }

check_timer-Apart : (n : ℕ) → Keeping (set_device_check_timer n)
check_timer-Apart n = record { run = λ w i. ended (record { ftp = refl; same = refl }) }

wait-Apart : Keeping dvd_mount_wait
wait-Apart = record { run = λ w i. ended (record { ftp = refl; same = refl }) }

module _ ⦃os : Os⦄ where
  already_there-Apart : (p : Partition) → Keeping (already_there p)
  unfolding already_there
  already_there-Apart p =
      Keeps-bind get_fs-Apart λ s. Keeps-if (s.inserted p) (Keeps-pure true) (mounted-Apart p)

  look_at_cover-Apart : Keeping look_at_cover
  unfolding look_at_cover
  look_at_cover-Apart = Keeps-bind wait-Apart λ waiting. Keeps-if waiting (Keeps-pure tt) (
      Keeps-then (call-Apart (Call.usleep 2000)) (
        Keeps-bind (call-Apart Call.di_cover) λ cover.
          Keeps-if (truth cover.code) (Keeps-pure tt)
            (set_inserted-Apart dvd (cover_closed cover.payload))))

  refresh-Apart : (p : Partition) (b : Bool) → Keeping (refresh p b)
  unfolding refresh
  refresh-Apart p b =
      Keeps-if (is_dvd p)
        (Keeps-if (same_row p dvd) look_at_cover-Apart
          (Keeps-bind get_fs-Apart λ s. set_inserted-Apart p (s.inserted dvd)))
        (Keeps-then
          (Keeps-if (not b && same_row p sd)
            (Keeps-then (call-Apart (Call.disc_startup p)) (Keeps-pure tt)) (Keeps-pure tt))
          (Keeps-bind (call-Apart (Call.disc_is_inserted p))
            λ a. set_inserted-Apart p (truth a.code)))

  was_inserted_or_removed-Apart : (p : Partition) → Keeping (was_inserted_or_removed p)
  unfolding was_inserted_or_removed
  was_inserted_or_removed-Apart p = Keeps-bind get_fs-Apart λ s.
      Keeps-if ((not (has_disc p) || s.geckofail p) && not (is_dvd p)) (Keeps-pure false) (
        Keeps-bind (already_there-Apart p) λ already_inserted.
          Keeps-then (refresh-Apart p already_inserted)
            (Keeps-bind get_fs-Apart λ t. Keeps-pure (differ already_inserted (t.inserted p))))

  device_inserted-Apart : (fuel : ℕ) (p : Partition) → Keeping (device_inserted fuel p)
  unfolding device_inserted
  device_inserted-Apart fuel p =
      Keeps-if (same_row p dvd)
        (Keeps-then (set_wait-Apart true) (Keeps-then (call-Apart Call.di_mount) (Keeps-pure tt)))
        (Keeps-bind (mount-Apart fuel (some p)) λ success.
          Keeps-if (not success && is_gecko p) (set_geckofail-Apart p true) (Keeps-pure tt))

  wants_mount-Apart : (p : Partition) → Keeping (wants_mount p)
  unfolding wants_mount
  wants_mount-Apart p = Keeps-if (same_row p dvd) (Keeps-pure true) (
      Keeps-if (is_dvd p) (Keeps-pure false)
        (Keeps-bind (mounted-Apart p) λ there. Keeps-pure (not there)))

  device_removed-Apart : (p : Partition) → Keeping (device_removed p)
  unfolding device_removed
  device_removed-Apart p = Keeps-bind get_fs-Apart λ s. Keeps-if (s.inserted p) (Keeps-pure tt) (
      Keeps-bind (mounted-Apart p) λ there.
        Keeps-if there (Keeps-then (unmount-Apart (some p)) (Keeps-pure tt)) (Keeps-pure tt))

  device_changed-Apart : (fuel : ℕ) (p : Partition) → Keeping (device_changed fuel p)
  unfolding device_changed
  device_changed-Apart fuel p = Keeps-bind get_fs-Apart λ s.
      Keeps-bind (Keeps-if (s.inserted p) (wants_mount-Apart p) (Keeps-pure false))
        λ mounting. Keeps-if mounting (device_inserted-Apart fuel p) (device_removed-Apart p)

  check_device-Apart : (fuel : ℕ) (p : Partition) → Keeping (check_device fuel p)
  unfolding check_device
  check_device-Apart fuel p = Keeps-bind get_fs-Apart λ s.
      Keeps-if (being_changed s p) (Keeps-pure tt) (
        Keeps-bind (was_inserted_or_removed-Apart p)
          λ changed. Keeps-if changed (device_changed-Apart fuel p) (Keeps-pure tt))

  check_devices-Apart : (fuel : ℕ) (ps : List Partition) → Keeping (check_devices fuel ps)
  unfolding check_devices
  check_devices-Apart fuel [] = record { run = λ w i. ended (record { ftp = refl; same = refl }) }
  check_devices-Apart fuel (p ∷ ps) =
      let round = Keeps-then (check_device-Apart fuel p) (check_devices-Apart fuel ps) in
      record { run = λ w i. round.run w i }

  pub check_removable_devices-Apart : (fuel now : ℕ) → Keeping (check_removable_devices fuel now)
  unfolding check_removable_devices
  check_removable_devices-Apart fuel now = Keeps-bind get_fs-Apart λ s.
      Keeps-if (leb now s.device_check_timer) (Keeps-pure tt) (
        Keeps-then (check_devices-Apart fuel virtual_partitions) (
          Keeps-bind (call-Apart Call.gettime)
            λ later. check_timer-Apart (unsigned later.code + os.secs_to_ticks 2)))
