-- ===== src/Tests/Devices.antt =====
-- The theorems on devices, paths of devices and lines at concrete inputs.
use ftpii.Base.{
  Bytes, List, ◌+◌, ℕ, drop, starts_with_nocase, equal, ◌≡◌, refl, arith, true, false, not, ◌&&◌,
  [], ◌∷◌, ◌++◌, some, none, codes, ltb, ◌==◌, if◌then◌else◌, Bool,
}
use ftpii.Os.{
  Button, S32, val, err, number, Call, diropen, usleep, gettime, Event, Partition, gcsda, gcsdb, sd,
  usb, dvd, wod, fst, nand, isfs, otp, seeprom, Os,
}
use ftpii.World.Triple.{Ensures}
use ftpii.Fs.Table.{virtual_partitions}
use ftpii.Fs.Mount.{mount, unmount}
use ftpii.Fs.Ends.{Clock, mount-Ends}
use ftpii.Main.{app_dir_prefix, set_password_from_executable}
use ftpii.Main.Password.{SetsPassword, set_password_from_executable-directory}
use ftpii.Vrt.{vrt_dirnext}
use ftpii.Vrt.Root.{Stable, Yields, present, vrt_dirnext-Yields}
use ftpii.World.{
  done, World, update, virtual, mountstate_start, mountstate_selectdevice, mountstate_waitfordevice,
}
use ftpii.World.Keeps.{After}
use ftpii.World.Apart.{remount}
use ftpii.Fs.Names.{dirname, basename}
use ftpii.Fs.Names.Parts.{dirname-basename}
use ftpii.Fs.Remount.{check_mount_timer}
use ftpii.Fs.Remount.Moves.{remount_event, device_select_event, removable_devices, mount_timer}
use ftpii.Fs.Remount.Machine.{Moved, handle_happening, handle_happenings, handle_happening-Moved}
use ftpii.Fs.Remount.Machine.Invariant.{
  Consistent, handle_happenings-Consistent, check_mount_timer-Finishes,
}
use ftpii.Ftp.Events.Control.Found.{Finds, find_crlf-Finds}
use ftpii.Ftp.Events.Control.Lines.{find_crlf}
use ftpii.Tests.{answer_code, no_stat, law_net_write-le, law_net_read-le, sample_os, sample_world}

abbrev right : Button → Bool
right Button.button_right = true
right _ = false

-- The user is to put a USB device in by second 30.
abbrev changing_world : World
changing_world = record sample_world {
  fs = record sample_world.fs {
    mountstate = mountstate_waitfordevice;
    mount_partition = some usb;
    mount_timer = 30;
  };
}

abbrev choosing_world : World
choosing_world = record sample_world {
  fs = record sample_world.fs { mountstate = mountstate_selectdevice };
}

start-Consistent : Consistent (remount sample_world.fs)
start-Consistent = record { timer = λ _. refl; choosing = λ e. refl; chosen = λ e. absurd (cc) }

changing-Consistent : Consistent (remount changing_world.fs)
changing-Consistent = record {
  timer = λ n. absurd (n refl);
  choosing = λ e. absurd (cc);
  chosen = λ e. (usb, refl, refl);
}

handle_happening-Moved_example :
    After
      (λ _ w'. Moved ⦃os = sample_os⦄ (device_select_event right) choosing_world w')
      (handle_happening ⦃os = sample_os⦄ (device_select_event right) choosing_world)
handle_happening-Moved_example =
    handle_happening-Moved ⦃os = sample_os⦄ (device_select_event right) choosing_world

handle_happenings-Consistent_example :
    After
      (λ _ w'. Consistent (remount w'.fs) × (w'.ftp ≡ sample_world.ftp))
      (handle_happenings ⦃os = sample_os⦄
        (remount_event 10
          ∷ device_select_event right
          ∷ removable_devices 10 5
          ∷ mount_timer 10 40
          ∷ [])
        sample_world)
handle_happenings-Consistent_example =
    handle_happenings-Consistent ⦃os = sample_os⦄
      (remount_event 10
        ∷ device_select_event right
        ∷ removable_devices 10 5
        ∷ mount_timer 10 40
        ∷ [])
      sample_world start-Consistent

check_mount_timer-Finishes_example :
    After
      (λ _ w'. remount w'.fs ≡ (
        if not (changing_world.fs.mount_timer == 0) && ltb changing_world.fs.mount_timer 31
        then record { state = mountstate_start; partition = none; timer = 0 }
        else remount changing_world.fs))
      (check_mount_timer ⦃os = sample_os⦄ 10 31 changing_world)
check_mount_timer-Finishes_example =
    check_mount_timer-Finishes ⦃os = sample_os⦄ 10 31 changing_world changing-Consistent

dirname-basename_example :
    (dirname ⦃os = sample_os⦄ (codes "sd:/apps" ++ b'/' ∷ codes "boot.dol") ≡ codes "sd:/apps")
    × (basename (codes "sd:/apps" ++ b'/' ∷ codes "boot.dol") ≡ codes "boot.dol")
dirname-basename_example =
    dirname-basename ⦃os = sample_os⦄ (codes "sd:/apps") (codes "boot.dol") (ground arith)
      (ground arith)

find_crlf-Finds_example : Finds (codes "NOOP\r\nQUIT\r\n") (find_crlf (codes "NOOP\r\nQUIT\r\n"))
find_crlf-Finds_example = find_crlf-Finds (codes "NOOP\r\nQUIT\r\n")

-- Only the SD card is mounted.
abbrev sd_code : Call → S32
sd_code (diropen path) = if equal path (codes "sd:/") then val 9 else err (number 5)
sd_code c = answer_code c

abbrev sd_os : Os
sd_os = record sample_os {
  respond = λ past c. record { code = sd_code c; payload = []; info = no_stat };
  net_write-le = λ past s b n e. law_net_write-le s b n e;
  net_read-le = λ past s len n e. law_net_read-le s len n e;
  fread-le = λ past f len. omega arith;
}

abbrev is_sd : Partition → Bool
is_sd sd = true
is_sd _ = false

sd-Stable : Stable ⦃os = sd_os⦄ is_sd
unfolding equal
sd-Stable past gcsda = refl
sd-Stable past gcsdb = refl
sd-Stable past sd = refl
sd-Stable past usb = refl
sd-Stable past dvd = refl
sd-Stable past wod = refl
sd-Stable past fst = refl
sd-Stable past nand = refl
sd-Stable past isfs = refl
sd-Stable past otp = refl
sd-Stable past seeprom = refl

abbrev root_world : World
root_world = record sample_world {
  ftp = record sample_world.ftp { dirs = update (λ d. none) 5 (some 0) };
}

vrt_dirnext-Yields_example :
    Ensures (vrt_dirnext ⦃os = sd_os⦄ (virtual 5) no_stat root_world) (λ r w'.
      Yields ⦃os = sd_os⦄ is_sd 5 no_stat (present is_sd (drop 0 virtual_partitions)) r w'
      × ((to : ℕ) × (w'.ftp
            ≡ record root_world.ftp { dirs = update root_world.ftp.dirs 5 (some to) })))
vrt_dirnext-Yields_example =
    vrt_dirnext-Yields ⦃os = sd_os⦄ is_sd 5 0 no_stat root_world sd-Stable refl

-- A clock that ticks once while the program sleeps.
abbrev slept : Call → ℕ
slept (usleep n) = 1
slept c = 0

abbrev naps : List Event → ℕ
naps [] = 0
naps (e ∷ past) = slept e.call + naps past

abbrev clock_code : List Event → Call → S32
clock_code past gettime = val (naps past)
clock_code past c = answer_code c

abbrev clock_os : Os
clock_os = record sample_os {
  respond = λ past c. record { code = clock_code past c; payload = []; info = no_stat };
  net_write-le = λ past s b n e. law_net_write-le s b n e;
  net_read-le = λ past s len n e. law_net_read-le s len n e;
  fread-le = λ past f len. omega arith;
}

abbrev sample_clock : Clock ⦃os = clock_os⦄
sample_clock = record { steady = λ past e. omega arith; ticks = λ past a. omega arith }

mount-Ends_example :
    Ensures (mount ⦃os = clock_os⦄ 20 (some dvd) sample_world) (λ _ w'. w'.ftp ≡ sample_world.ftp)
    × Ensures (unmount ⦃os = clock_os⦄ (some dvd) sample_world) (λ _ w'. w'.ftp ≡ sample_world.ftp)
mount-Ends_example =
    mount-Ends ⦃os = clock_os⦄ 20 (some dvd) sample_world sample_clock (omega arith)

-- Where the password comes from.
abbrev started_from : Bytes
started_from = (codes "sd:/apps" ++ b'/' ∷ codes "FTPii_wii") ++ b'/' ∷ codes "boot.dol"

set_password_from_executable-directory_example :
    (starts_with_nocase app_dir_prefix (codes "FTPii_wii") ≡ true
      → SetsPassword ⦃os = sample_os⦄
          (drop 6 (codes "FTPii_wii"))
          sample_world
          (set_password_from_executable ⦃os = sample_os⦄ 10 started_from sample_world))
    × (starts_with_nocase app_dir_prefix (codes "FTPii_wii") ≡ false
        → set_password_from_executable ⦃os = sample_os⦄ 10 started_from sample_world
          ≡ done tt sample_world)
set_password_from_executable-directory_example =
    set_password_from_executable-directory ⦃os = sample_os⦄ 10 (codes "sd:/apps")
      (codes "FTPii_wii") (codes "boot.dol") sample_world (ground arith) (ground arith)
      (omega arith)
