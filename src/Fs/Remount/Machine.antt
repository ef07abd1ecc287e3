-- ===== src/Fs/Remount/Machine.antt =====
-- The remounting of source/fs.c as a machine of its own: which states follow each other, whatever the
-- devices answer.
pub mod Invariant
use ftpii.Base.{
  ◌⊎◌, inl, inr, ◌<◌, ◌≤◌, Bool-cases, ◌≡◌, refl, arith, ap, sym, ◌∙◌, subst, ◌+◌, ◌≢◌, ℕ, zero,
  suc, Bool, true, false, not, ◌&&◌, ◌||◌, List, [], ◌∷◌, Option, none, some, ltb, ◌==◌,
  if◌then◌else◌,
}
use ftpii.Os.{
  Partition, gcsda, gcsdb, sd, usb, dvd, Button, Call, gettime, Answer, Event, Os, unsigned,
}
use ftpii.World.{
  World, FsState, MountState, mountstate_start, mountstate_selectdevice, mountstate_waitfordevice,
  M, pure, call, done, ◌>>=◌, ◌>>◌,
}
use ftpii.World.Keeps.{
  After, ended, After-then, After-mono, After-if, After-Option, Keeps, Keeps-bind, Keeps-then,
  Keeps-pure, Keeps-if,
}
use ftpii.World.Apart.{Remount, remount, Always, Apart, Apart-frame, call-Apart}
use ftpii.Pad.{Buttons}
use ftpii.Fs.Table.{is_dvd, is_fat}
use ftpii.Fs.Mount.{mount, unmount}
use ftpii.Fs.Frame.{set_wait-Apart, mount-Apart, unmount-Apart, dvd_unmount-Apart}
use ftpii.Fs.Removable.{check_removable_devices}
use ftpii.Fs.Removable.Frame.{check_removable_devices-Apart}
use ftpii.Dvd.{dvd_mount_wait, set_dvd_mount_wait}
use ftpii.Dvd.Media.{dvd_unmount}
use ftpii.Fs.Remount.Moves.{
  by_state, and_left, and_right, select-keeps, Happening, remount_event, device_select_event,
  mount_timer, removable_devices, Chooses, Asks, Rests, Move, rest, begin, finish, refuse, await,
  deadline_after, select-Chooses, time_up, time_left,
}
use ftpii.Fs.Remount.{
  modify_fs, select, is_dvd?, remount_device, process_remount_event, start_timer, release_device,
  process_device_select_event, check_mount_timer,
}

-- A step of the machine that leaves the server alone.
pub record Moved ⦃os : Os⦄ (h : Happening) (w w' : World) : Type 0 where
  pub ftp : w'.ftp ≡ w.ftp
  pub move : Move h w.dvd.mount_wait (deadline_after w'.trace) (remount w.fs) (remount w'.fs)

Apart-Moved :
    ⦃os : Os⦄ → (h : Happening) (w w' : World) → Rests h (remount w.fs) → Apart w w' → Moved h w w'
Apart-Moved h w w' k a = record {
  ftp = a.ftp;
  move =
      subst (Move h w.dvd.mount_wait (deadline_after w'.trace) (remount w.fs)) (sym a.same)
        (rest k);
}

module _ ⦃os : Os⦄ where
  -- The mount that `remount_device` makes.
  remounting-Apart :
      (fuel : ℕ) (p : Option Partition)
      → Keeps Always Apart (
          if is_dvd? p
          then (do set_dvd_mount_wait true; call Call.di_mount; pure tt)
          else (do mount fuel p; pure tt))
  remounting-Apart fuel p =
      Keeps-if (is_dvd? p)
        (Keeps-then (set_wait-Apart true) (Keeps-then (call-Apart Call.di_mount) (Keeps-pure tt)))
        (Keeps-then (mount-Apart fuel p) (Keeps-pure tt))

  pub remount_device-Finishes :
      (fuel : ℕ) (w : World)
      → After
          (λ _ w'.
            (w'.ftp ≡ w.ftp)
            × (remount w'.fs ≡ record { state = mountstate_start; partition = none; timer = 0 }))
          (remount_device fuel w)
  unfolding remount_device modify_fs
  remount_device-Finishes fuel w =
      let u = record w { fs = record w.fs { mount_timer = 0; mountstate = mountstate_start } } in
      After-then ((remounting-Apart fuel w.fs.mount_partition).run u tt) λ _ v a.
        ended
          (a.ftp, ap (λ r. record { state = r.state; partition = none; timer = r.timer }) a.same)

  remount_device-Moved :
      (fuel : ℕ) (h : Happening) (w : World)
      → Asks h (remount w.fs)
      → w.fs.mountstate ≡ mountstate_waitfordevice
      → After (λ _ w'. Moved h w w') (remount_device fuel w)
  remount_device-Moved fuel h w k l = After-mono (remount_device-Finishes fuel w) λ _ v (a, e).
      record {
        ftp = a;
        move =
            subst (Move h w.dvd.mount_wait (deadline_after v.trace) (remount w.fs)) (sym e)
              (finish k l);
      }

  process_remount_event-Moved :
      (fuel : ℕ) (h : Happening) (w : World)
      → Asks h (remount w.fs)
      → After (λ _ w'. Moved h w w') (process_remount_event fuel w)
  unfolding process_remount_event modify_fs
  process_remount_event-Moved fuel h w k =
      let other =
        modify_fs
          (λ t. record t { mountstate = mountstate_selectdevice; mount_partition = none }) in
      by_state w.fs.mountstate other other (remount_device fuel)
        (λ e. ended (record { ftp = refl; move = begin k (λ h. absurd (cc)) }))
        (λ e. ended (record { ftp = refl; move = begin k (λ h. absurd (cc)) }))
        (remount_device-Moved fuel h w k)

  -- The release of the device that is chosen.
  releasing-Apart :
      (p : Partition)
      → Keeps Always Apart (
          if is_dvd p
          then dvd_unmount
          else if is_fat p
          then (do unmount (some p); pure tt)
          else pure tt)
  releasing-Apart p =
      Keeps-if (is_dvd p) dvd_unmount-Apart
        (Keeps-if (is_fat p) (Keeps-then (unmount-Apart (some p)) (Keeps-pure tt)) (Keeps-pure tt))

  chose :
      (w : World) (pressed : Buttons) (p : Partition)
      → select pressed w.fs.mount_partition ≡ some p
      → Chooses pressed w.fs.mount_partition (some p)
  chose w pressed p e =
      subst (Chooses pressed w.fs.mount_partition) e (select-Chooses pressed w.fs.mount_partition)

  -- The branch where a partition is chosen: the drive is still at a disc, or the time starts.
  release_device-Moved :
      (w : World) (pressed : Buttons) (p : Partition)
      → w.fs.mountstate ≡ mountstate_selectdevice
      → select pressed w.fs.mount_partition ≡ some p
      → After
          (λ _ w'. Moved (device_select_event pressed) w w')
          (release_device p (record w { fs = record w.fs { mount_partition = some p } }))
  unfolding release_device modify_fs start_timer
  release_device-Moved w pressed p h e =
      After-if (is_dvd p && w.dvd.mount_wait)
        (modify_fs (λ s. record s { mountstate = mountstate_start }))
        (do
          (if is_dvd p
              then dvd_unmount
              else if is_fat p
              then (do unmount (some p); pure tt)
              else pure tt)
          start_timer)
        (λ b. ended (record {
          ftp = refl;
          move =
              refuse pressed p refl h (chose w pressed p e) (and_left (is_dvd p) w.dvd.mount_wait b)
                (and_right (is_dvd p) w.dvd.mount_wait b);
        }))
        (λ b.
          let u = record w {
            fs = record w.fs { mountstate = mountstate_waitfordevice; mount_partition = some p };
          } in
          After-then ((releasing-Apart p).run u tt) λ _ v a.
            let time = unsigned (os.respond v.trace Call.gettime).code + os.secs_to_ticks 30 in
            ended (record {
              ftp = a.ftp;
              move =
                  subst (Move (device_select_event pressed) w.dvd.mount_wait time (remount w.fs))
                    (sym (
                      ap (λ r. record { state = r.state; partition = r.partition; timer = time })
                        a.same))
                    (await pressed p refl h (chose w pressed p e) b);
            }))

  process_device_select_event-Moved :
      (pressed : Buttons) (w : World)
      → After
          (λ _ w'. Moved (device_select_event pressed) w w')
          (process_device_select_event pressed w)
  unfolding process_device_select_event modify_fs
  process_device_select_event-Moved pressed w =
      let chosen : Option Partition = select pressed w.fs.mount_partition in
      by_state w.fs.mountstate (pure tt)
        (do
          modify_fs (λ t. record t { mount_partition = chosen })
          elim chosen [ none ↦ pure tt | some p ↦ release_device p ])
        (pure tt) (λ e. ended (record { ftp = refl; move = rest (inl (λ h. absurd (cc))) }))
        (λ h.
          After-Option chosen (pure tt) release_device
            (λ e. ended (record {
              ftp = refl;
              move =
                  subst
                    (λ q.
                      Move (device_select_event pressed) w.dvd.mount_wait (deadline_after w.trace)
                        (remount w.fs)
                        (record {
                          state = w.fs.mountstate;
                          partition = q;
                          timer = w.fs.mount_timer;
                        }))
                    (select-keeps pressed w.fs.mount_partition e ∙ sym e)
                    (rest (
                      inr (
                        subst (Chooses pressed w.fs.mount_partition) e
                          (select-Chooses pressed w.fs.mount_partition))));
            }))
            (λ p e.
              subst
                (λ q.
                  After (λ _ w'. Moved (device_select_event pressed) w w')
                    (release_device p (record w { fs = record w.fs { mount_partition = q } })))
                (sym e) (release_device-Moved w pressed p h e)))
        (λ e. ended (record { ftp = refl; move = rest (inl (λ h. absurd (cc))) }))

  check_mount_timer-Moved :
      (fuel now : ℕ) (w : World)
      → After (λ _ w'. Moved (mount_timer fuel now) w w') (check_mount_timer fuel now w)
  unfolding check_mount_timer
  check_mount_timer-Moved fuel now w =
      After-if (not (w.fs.mount_timer == 0) && ltb w.fs.mount_timer now)
        (process_remount_event fuel) (pure tt)
        (λ b.
          process_remount_event-Moved fuel (mount_timer fuel now) w
            (time_up w.fs.mount_timer now b))
        (λ b. ended (
          Apart-Moved (mount_timer fuel now) w w (time_left w.fs.mount_timer now b)
            (Apart-frame.here w)))

  unfoldable pub handle_happening : Happening → M (Unit {0})
  handle_happening (remount_event fuel) = process_remount_event fuel
  handle_happening (device_select_event pressed) = process_device_select_event pressed
  handle_happening (mount_timer fuel now) = check_mount_timer fuel now
  handle_happening (removable_devices fuel now) = check_removable_devices fuel now

  unfoldable pub handle_happenings : List Happening → M (Unit {0})
  handle_happenings [] = pure tt
  handle_happenings (h ∷ hs) = do handle_happening h; handle_happenings hs

  -- Whatever the devices and the drive answer, a button press, timer check or device check uses no dead
  -- pointer and leaves the statics of the server as they are, and where it comes back, the machine has
  -- made the step that belongs to it. The button for a remount, and a timer that was set and has passed,
  -- begin the choice of a device, or finish a remount where the device is awaited: no device is chosen
  -- then, and no timer set. Buttons for a device count only in the choice: the first that is down chooses
  -- its device (left the SD slot, right USB, up and down the SD Geckos, 1 or X the DVD drive), which is
  -- then awaited, with the timer thirty seconds after the time that was asked for last; but the drive
  -- is refused while it is at a disc. All else leaves the machine as it is.
  pub handle_happening-Moved :
      (h : Happening) (w : World) → After (λ _ w'. Moved h w w') (handle_happening h w)
  unfolding handle_happening
  handle_happening-Moved (remount_event fuel) w =
      process_remount_event-Moved fuel (remount_event fuel) w tt
  handle_happening-Moved (device_select_event pressed) w =
      process_device_select_event-Moved pressed w
  handle_happening-Moved (mount_timer fuel now) w = check_mount_timer-Moved fuel now w
  handle_happening-Moved (removable_devices fuel now) w =
      After-mono ((check_removable_devices-Apart fuel now).run w tt)
        λ _ v a. Apart-Moved (removable_devices fuel now) w v tt a
