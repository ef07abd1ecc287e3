-- ===== src/Main/Sound.antt =====
-- The whole program, source/ftpii.c, from a sound state of the server.
use ftpii.Base.{
  ◌+◌, ℕ, zero, suc, ◌≡◌, refl, sym, subst, Bool, true, List, [], ◌∷◌, Option, none, some, Bytes,
  starts_with_nocase, drop, length,
}
use ftpii.Os.{
  S32, val, err, minus_one, Partition, nand, otp, seeprom, isfs, Button, Call, Os, unsigned,
}
use ftpii.World.{World, Ftp, M}
use ftpii.World.Keeps.{
  After, ended, waits, After-then, After-mono, After-Ensures, Frame, Keeps, Keeps-bind, Keeps-then,
  Keeps-pure, Keeps-if, Keeps-S32, Keeps-S32_3,
}
use ftpii.World.Apart.{Always, Apart, Apart-frame, call-Apart}
use ftpii.Video.Frame.{initialise_video-Apart}
use ftpii.Pad.{Buttons, any_of}
use ftpii.Reset.Frame.{
  die-Apart, initialise_reset_buttons-Apart, set_reset_flag-Apart, reset-Apart, check_wiimote-Apart,
  check_gamecube-Apart, maybe_poweroff-Apart,
}
use ftpii.Net.Start.Frame.{initialise_network-Apart, create_server-Apart}
use ftpii.Fs.Table.{virtual_partitions}
use ftpii.Fs.Frame.{
  unmount-Apart, dvd_stop-Apart, check_dvd_motor_timeout-Apart, check_dvd_mount-Apart,
}
use ftpii.Fs.Names.{dirname, basename}
use ftpii.Fs.Removable.{initialise_fs}
use ftpii.Fs.Remount.Moves.{
  Happening, remount_event, device_select_event, mount_timer, removable_devices,
}
use ftpii.Fs.Remount.Machine.{handle_happening, handle_happening-Moved}
use ftpii.Ftp.Account.{set_ftp_password, assign_password}
use ftpii.Ftp.Sound.{Sound}
use ftpii.Ftp.Sound.Live.{Sound-statics}
use ftpii.Ftp.Sound.Ending.{cleanup_ftp-Empties}
use ftpii.Ftp.Server.Sound.{process_ftp_events-Sound}
use ftpii.Main.{
  port, app_dir_prefix, direction_buttons, all_buttons, initialise_ftpii,
  set_password_from_executable, process_buttons, process_wiimote_events, process_gamecube_events,
  process_timer_events, process_events, main_loop, unmount_all, take_arguments, shut_down, main,
}

abbrev Well : World → Type 0
Well w = Sound w.ftp

abbrev Wells : World → World → Type 0
Wells v w = Well v → Well w

instance Wells-frame : Frame Well Wells
Wells-frame = record { here = λ w s. s; onward = λ u v w r t s. t (r s); keep = λ v w r s. r s }

abbrev Safe : {A : Type 0} → M A → Type 0
Safe m = Keeps Well Wells m

Safe-Apart : {A : Type 0} {m : M A} → Keeps Always Apart m → Safe m
Safe-Apart k = record { run = λ w s. After-mono (k.run w tt) λ _ w' a t. subst Sound (sym a.ftp) t }

assign_password-Safe : (o : Option Bytes) → Safe (assign_password o)
unfolding assign_password
assign_password-Safe o = record {
  run = λ w s. ended (λ t. Sound-statics w.ftp w.ftp.passive_port o t);
}

module _ ⦃os : Os⦄ where
  password-Safe : (fuel : ℕ) (o : Option Bytes) → Safe (set_ftp_password fuel o)
  unfolding set_ftp_password
  password-Safe fuel none = record { run = λ w s. (assign_password-Safe none).run w s }
  password-Safe fuel (some new_password) =
      let steps =
        Keeps-bind (Safe-Apart (call-Apart (Call.malloc (length new_password + 1)))) λ got.
          Keeps-S32 got.code (λ n. assign_password-Safe (some new_password))
            (λ e. Keeps-then (assign_password-Safe none) (Safe-Apart (die-Apart fuel))) in
      record { run = λ w s. steps.run w s }

  happening-Safe : (h : Happening) → Safe (handle_happening h)
  happening-Safe h = record {
    run = λ w s. After-mono (handle_happening-Moved h w) λ _ w' m t. subst Sound (sym m.ftp) t;
  }

  initialise_fs-Apart : Keeps Always Apart initialise_fs
  unfolding initialise_fs
  initialise_fs-Apart = Keeps-then (call-Apart (Call.driver_mount nand)) (
      Keeps-then (call-Apart (Call.driver_mount otp)) (
        Keeps-then (call-Apart (Call.driver_mount seeprom)) (
          Keeps-then (call-Apart Call.isfs_su) (
            Keeps-bind (call-Apart Call.isfs_initialize) λ a.
              Keeps-S32_3 a.code (Keeps-then (call-Apart (Call.driver_mount isfs)) (Keeps-pure tt))
                (λ n. Keeps-pure tt) (λ e. Keeps-pure tt)))))

  initialise_ftpii-Apart : (fuel : ℕ) → Keeps Always Apart (initialise_ftpii fuel)
  unfolding initialise_ftpii
  initialise_ftpii-Apart fuel = Keeps-then initialise_video-Apart (
      Keeps-then (call-Apart Call.di_init) (
        Keeps-then initialise_video-Apart (
          Keeps-then (call-Apart Call.pad_init) (
            Keeps-then (call-Apart Call.wpad_init) (
              Keeps-then initialise_reset_buttons-Apart
                (Keeps-then (initialise_network-Apart fuel) initialise_fs-Apart))))))

  from_executable-Safe :
      (fuel : ℕ) (executable : Bytes) → Safe (set_password_from_executable fuel executable)
  unfolding set_password_from_executable
  from_executable-Safe fuel executable =
      let dir : Bytes = basename (dirname executable) in
      Keeps-if (starts_with_nocase app_dir_prefix dir)
        (password-Safe fuel (some (drop (length app_dir_prefix) dir))) (Keeps-pure tt)

  take_arguments-Safe : (fuel : ℕ) (argv : List Bytes) → Safe (take_arguments fuel argv)
  unfolding take_arguments
  take_arguments-Safe fuel [] = Keeps-pure tt
  take_arguments-Safe fuel (executable ∷ []) = from_executable-Safe fuel executable
  take_arguments-Safe fuel (executable ∷ password ∷ rest) = password-Safe fuel (some password)

  process_buttons-Safe : (fuel : ℕ) (pressed : Buttons) → Safe (process_buttons fuel pressed)
  unfolding process_buttons handle_happening
  process_buttons-Safe fuel pressed =
      Keeps-if (pressed Button.button_a) (Safe-Apart set_reset_flag-Apart) (
        Keeps-if (pressed Button.button_b) (happening-Safe (remount_event fuel)) (
          Keeps-if (any_of pressed direction_buttons) (happening-Safe (device_select_event pressed))
            (Keeps-pure tt)))

  wiimote-Safe : (fuel : ℕ) → Safe (process_wiimote_events fuel)
  unfolding process_wiimote_events
  wiimote-Safe fuel =
      Keeps-bind (Safe-Apart (check_wiimote-Apart all_buttons))
        λ pressed. process_buttons-Safe fuel pressed

  gamecube-Safe : (fuel : ℕ) → Safe (process_gamecube_events fuel)
  unfolding process_gamecube_events
  gamecube-Safe fuel =
      Keeps-bind (Safe-Apart (check_gamecube-Apart all_buttons))
        λ pressed. process_buttons-Safe fuel pressed

  timer-Safe : (fuel : ℕ) → Safe (process_timer_events fuel)
  unfolding process_timer_events handle_happening
  timer-Safe fuel = Keeps-bind (Safe-Apart (call-Apart Call.gettime)) λ now.
      Keeps-then (Safe-Apart (check_dvd_motor_timeout-Apart (unsigned now.code))) (
        Keeps-then (happening-Safe (mount_timer fuel (unsigned now.code)))
          (happening-Safe (removable_devices fuel (unsigned now.code))))

  process_events-Safe : (fuel : ℕ) (server : S32) → Safe (process_events fuel server)
  unfolding process_events
  process_events-Safe fuel server = Keeps-then (Safe-Apart check_dvd_mount-Apart) (
      Keeps-bind
        (record {
          run = λ w s. After-mono (process_ftp_events-Sound fuel server w s) λ _ w' t u. t;
        })
        λ down.
          Keeps-then (wiimote-Safe fuel)
            (Keeps-then (gamecube-Safe fuel) (Keeps-then (timer-Safe fuel) (Keeps-pure down))))

  main_loop-Safe :
      (fuel : ℕ) (network_down : Bool) (server : S32) → Safe (main_loop fuel network_down server)
  unfolding main_loop
  main_loop-Safe zero network_down server = record { run = λ w s. waits }
  main_loop-Safe (suc fuel) network_down server =
      let round = Keeps-bind (Safe-Apart reset-Apart) λ over. Keeps-if over (Keeps-pure server) (
        Keeps-if network_down
          (Keeps-then (Safe-Apart (call-Apart (Call.net_close server))) (
            Keeps-then (Safe-Apart (initialise_network-Apart fuel)) (
              Keeps-bind (Safe-Apart (create_server-Apart fuel port)) λ made.
                Keeps-S32 made
                  (λ s.
                    Keeps-bind (process_events-Safe fuel (val s))
                      λ down. main_loop-Safe fuel down (val s))
                  (λ e. main_loop-Safe fuel true (err e)))))
          (Keeps-bind (process_events-Safe fuel server) λ down. main_loop-Safe fuel down server)) in
      record { run = λ w s. round.run w s }

  unmount_all-Apart : (ps : List Partition) → Keeps Always Apart (unmount_all ps)
  unfolding unmount_all
  unmount_all-Apart [] = record { run = λ w i. ended (record { ftp = refl; same = refl }) }
  unmount_all-Apart (p ∷ ps) =
      let round = Keeps-then (unmount-Apart (some p)) (unmount_all-Apart ps) in
      record { run = λ w i. round.run w i }

  pub shut_down-Sound :
      (server : S32) (w : World)
      → Sound w.ftp
      → After (λ _ w'. Sound w'.ftp × ((q : ℕ) → w'.ftp.heap q ≡ none)) (shut_down server w)
  unfolding shut_down
  shut_down-Sound server w s = After-then (After-Ensures (cleanup_ftp-Empties w s)) λ _ w4 t.
      let ending = Keeps-then (call-Apart (Call.net_close server)) (
        Keeps-then (unmount_all-Apart virtual_partitions) (
          Keeps-then dvd_stop-Apart (
            Keeps-then (call-Apart Call.di_close) (
              Keeps-then (call-Apart Call.isfs_deinitialize)
                (Keeps-then maybe_poweroff-Apart (Keeps-pure 0)))))) in
      After-mono (ending.run w4 tt)
        λ _ w5 e. subst (λ (f : Ftp). Sound f × ((q : ℕ) → f.heap q ≡ none)) (sym e.ftp) (t.0, t.1)

  -- From a sound state of the server, `main` uses no dead client, no closed directory iterator
  -- of the program's own and no slot outside a table, whatever its arguments, the network, the devices,
  -- the clients and the buttons do; and where it returns, the state is sound and there is no client left.
  pub main-Sound :
      (fuel : ℕ) (argv : List Bytes) (w : World)
      → Sound w.ftp
      → After (λ _ w'. Sound w'.ftp × ((q : ℕ) → w'.ftp.heap q ≡ none)) (main fuel argv w)
  unfolding main
  main-Sound fuel argv w s = After-then ((initialise_ftpii-Apart fuel).run w tt) λ _ w1 a.
      let s1 = subst Sound (sym a.ftp) s in
      After-then ((take_arguments-Safe fuel argv).run w1 s1) λ _ w2 r2.
        After-then ((main_loop-Safe fuel true minus_one).run w2 (r2 s1))
          λ server w3 r3. shut_down-Sound server w3 (r3 (r2 s1))
