-- ===== src/Dvd.antt =====
-- source/dvd.c: the drive. Mounting and unmounting its file systems is in Dvd.Media.
pub mod Media
use ftpii.Base.{ℕ, Bool, true, false, ◌<◌, ltb, if◌then◌else◌}
use ftpii.Os.{S32, Partition, dvd, wod, fst, Call, Os, truth, unsigned}
use ftpii.World.{World, M, pure, done, call, ◌>>=◌, ◌>>◌}

abbrev pub dvd_motor_timeout : ℕ
dvd_motor_timeout = 300

abbrev pub dvd_mount_wait : M Bool
dvd_mount_wait w = done w.dvd.mount_wait w

abbrev pub set_dvd_mount_wait : Bool → M (Unit {0})
set_dvd_mount_wait state w = done tt (record w { dvd = record w.dvd { mount_wait = state } })

abbrev pub set_last_stopped : ℕ → M (Unit {0})
set_last_stopped n w = done tt (record w { dvd = record w.dvd { last_stopped = n } })

-- The macro MAX, which evaluates the argument that it chooses again.
abbrev pub maximum : M ℕ → M ℕ → M ℕ
maximum first second = do a ← first; b ← second; if ltb b a then first else second

module _ ⦃os : Os⦄ where
  -- `ISO9660_LastAccess()` and so on, by the row
  abbrev pub last_access_of : Partition → M ℕ
  last_access_of p = do a ← call (Call.last_access p); pure (unsigned a.code)

  unfoldable pub dvd_last_access : M ℕ
  unfolding call
  dvd_last_access = maximum (maximum (last_access_of dvd) (last_access_of wod)) (last_access_of fst)

  unfoldable pub dvd_stop : M S32
  unfolding call
  dvd_stop = do
    now ← call Call.gettime
    set_last_stopped (unsigned now.code)
    a ← call Call.di_stop_motor
    pure a.code
