-- ===== src/Main.antt =====
-- source/ftpii.c: the program's start, its loop and its end. (`initialise_video` is in Video.) The fuel
-- is for the loops that wait.
pub mod Sound
pub mod Shutdown
pub mod Password
use ftpii.Base.{
  ℕ, zero, suc, Bool, true, List, [], ◌∷◌, some, Bytes, codes, starts_with_nocase, drop, length,
  if◌then◌else◌,
}
use ftpii.Os.{S32, val, err, minus_one, Partition, Button, Call, Os, unsigned}
use ftpii.World.{M, pure, done, stuck, call, ◌>>=◌, ◌>>◌}
use ftpii.Video.{initialise_video}
use ftpii.Pad.{Buttons, any_of, check_wiimote, check_gamecube}
use ftpii.Reset.{initialise_reset_buttons, set_reset_flag, reset, maybe_poweroff}
use ftpii.Net.Start.{initialise_network, create_server}
use ftpii.Fs.Table.{virtual_partitions}
use ftpii.Fs.Mount.{unmount}
use ftpii.Fs.Removable.{check_removable_devices, initialise_fs}
use ftpii.Fs.Remount.{process_remount_event, process_device_select_event, check_mount_timer}
use ftpii.Fs.Names.{dirname, basename}
use ftpii.Dvd.{dvd_stop}
use ftpii.Dvd.Media.{check_dvd_motor_timeout, check_dvd_mount}
use ftpii.Ftp.Account.{set_ftp_password}
use ftpii.Ftp.Cleanup.{cleanup_ftp}
use ftpii.Ftp.Server.{process_ftp_events}

abbrev pub port : ℕ
port = 21

abbrev pub app_dir_prefix : Bytes
app_dir_prefix = codes "ftpii_"

abbrev pub direction_buttons : List Button
direction_buttons =
    Button.button_left ∷ Button.button_right ∷ Button.button_up ∷ Button.button_down
    ∷ Button.button_1 ∷ []

abbrev pub all_buttons : List Button
all_buttons = Button.button_a ∷ Button.button_b ∷ direction_buttons

module _ ⦃os : Os⦄ where
  unfoldable pub initialise_ftpii : ℕ → M (Unit {0})
  unfolding call
  initialise_ftpii fuel = do
    initialise_video
    call Call.di_init
    initialise_video
    call Call.pad_init
    call Call.wpad_init
    initialise_reset_buttons
    initialise_network fuel
    initialise_fs

  unfoldable pub set_password_from_executable : ℕ → Bytes → M (Unit {0})
  unfolding set_ftp_password starts_with_nocase dirname basename
  set_password_from_executable fuel executable =
      let dir : Bytes = basename (dirname executable) in
      if starts_with_nocase app_dir_prefix dir
      then set_ftp_password fuel (some (drop (length app_dir_prefix) dir))
      else pure tt

  -- What both controllers' buttons do. (Of a GameCube controller only the buttons for a direction and
  -- X are passed on, and `process_device_select_event` asks for no others.)
  unfoldable pub process_buttons : ℕ → Buttons → M (Unit {0})
  process_buttons fuel pressed =
      if pressed Button.button_a
      then set_reset_flag
      else if pressed Button.button_b
      then process_remount_event fuel
      else if any_of pressed direction_buttons
      then process_device_select_event pressed
      else pure tt

  unfoldable pub process_wiimote_events : ℕ → M (Unit {0})
  process_wiimote_events fuel = do pressed ← check_wiimote all_buttons; process_buttons fuel pressed

  unfoldable pub process_gamecube_events : ℕ → M (Unit {0})
  process_gamecube_events fuel = do
    pressed ← check_gamecube all_buttons
    process_buttons fuel pressed

  unfoldable pub process_timer_events : ℕ → M (Unit {0})
  unfolding call
  process_timer_events fuel = do
    now ← call Call.gettime
    check_dvd_motor_timeout (unsigned now.code)
    check_mount_timer fuel (unsigned now.code)
    check_removable_devices fuel (unsigned now.code)

  -- The loop's body with a server: whether the network is down after it.
  unfoldable pub process_events : ℕ → S32 → M Bool
  process_events fuel server = do
    check_dvd_mount
    network_down ← process_ftp_events fuel server
    process_wiimote_events fuel
    process_gamecube_events fuel
    process_timer_events fuel
    pure network_down

  -- `while (!reset())` from the values of its two locals; the result is `server`.
  unfoldable pub main_loop : ℕ → Bool → S32 → M S32
  unfolding call
  main_loop zero network_down server w = stuck
  main_loop (suc fuel) network_down server w =
      (do
        over ← reset
        if over
            then pure server
            else if network_down
            then (do
              call (Call.net_close server)
              initialise_network fuel
              made ← create_server fuel port
              elim made [
                | err e ↦ main_loop fuel true (err e)
                | val s ↦ do down ← process_events fuel (val s); main_loop fuel down (val s)
              ])
            else (do down ← process_events fuel server; main_loop fuel down server))
        w

  unfoldable pub unmount_all : List Partition → M (Unit {0})
  unmount_all [] w = done tt w
  unmount_all (p ∷ ps) w = (do unmount (some p); unmount_all ps) w

  -- the password, from the second argument or the executable's path
  unfoldable pub take_arguments : ℕ → List Bytes → M (Unit {0})
  unfolding set_ftp_password
  take_arguments fuel [] = pure tt
  take_arguments fuel (executable ∷ []) = set_password_from_executable fuel executable
  take_arguments fuel (executable ∷ password ∷ rest) = set_ftp_password fuel (some password)

  -- `main` behind its loop, whose server it closes
  unfoldable pub shut_down : S32 → M ℕ
  shut_down server = do
    cleanup_ftp
    call (Call.net_close server)
    unmount_all virtual_partitions
    dvd_stop
    call Call.di_close
    call Call.isfs_deinitialize
    maybe_poweroff
    pure 0

  unfoldable pub main : ℕ → List Bytes → M ℕ
  main fuel argv = do
    initialise_ftpii fuel
    take_arguments fuel argv
    server ← main_loop fuel true minus_one
    shut_down server
