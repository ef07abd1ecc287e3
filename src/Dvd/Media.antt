-- ===== src/Dvd/Media.antt =====
-- Unmounting, ejecting and mounting discs, source/dvd.c.
use ftpii.Base.{ℕ, ◌+◌, false, not, ◌&&◌, ◌||◌, some, ltb, if◌then◌else◌}
use ftpii.Os.{S32, dvd, wod, fst, Call, Os, truth}
use ftpii.World.{M, pure, done, call, ◌>>=◌, ◌>>◌}
use ftpii.Dvd.{dvd_motor_timeout, dvd_mount_wait, set_dvd_mount_wait, dvd_last_access, dvd_stop}
use ftpii.Fs.Mount.{unmount}

abbrev pub dvd_last_stopped : M ℕ
dvd_last_stopped w = done w.dvd.last_stopped w

module _ ⦃os : Os⦄ where
  unfoldable pub dvd_unmount : M (Unit {0})
  dvd_unmount = do unmount (some wod); unmount (some fst); unmount (some dvd); dvd_stop; pure tt

  unfoldable pub dvd_eject : M S32
  unfolding call
  dvd_eject = do dvd_unmount; a ← call Call.di_eject; pure a.code

  unfoldable pub check_dvd_motor_timeout : ℕ → M (Unit {0})
  check_dvd_motor_timeout now = do
    access ← dvd_last_access
    stopped ← dvd_last_stopped
    waiting ← dvd_mount_wait
    if ltb stopped access && ltb (access + os.secs_to_ticks dvd_motor_timeout) now && not waiting
        then dvd_unmount
        else pure tt

  unfoldable pub check_dvd_mount : M (Unit {0})
  unfolding call
  check_dvd_mount = do
    waiting ← dvd_mount_wait
    if not waiting then pure tt else (do
      ready ← call Call.di_ready
      if not (truth ready.code) then pure tt else (do
        set_dvd_mount_wait false
        disc ← call (Call.driver_mount wod)
        files ← call (Call.driver_mount fst)
        iso ← call (Call.driver_mount dvd)
        if truth disc.code || truth files.code || truth iso.code
            then pure tt
            else (do dvd_stop; pure tt)))
