-- ===== src/Fs/Remount/Machine/Invariant.antt =====
-- What the steps of the remounting, source/fs.c, keep true.
use ftpii.Base.{
  ◌≡◌, refl, arith, ◌∙◌, ◌≢◌, ℕ, Bool, true, not, ◌&&◌, ◌||◌, List, [], ◌∷◌, Option, none, some,
  ltb, ◌==◌, if◌then◌else◌,
}
use ftpii.Os.{Partition, gcsda, gcsdb, sd, usb, dvd, Os}
use ftpii.World.{World, mountstate_start, mountstate_selectdevice, mountstate_waitfordevice, pure}
use ftpii.World.Keeps.{After, ended, After-then, After-mono, After-if}
use ftpii.World.Apart.{Remount, remount, Apart-frame}
use ftpii.Pad.{Buttons}
use ftpii.Fs.Table.{is_dvd, is_fat}
use ftpii.Fs.Remount.{modify_fs, remount_device, process_remount_event, check_mount_timer}
use ftpii.Fs.Remount.Moves.{
  by_state, Happening, Move, Chooses, left, right, up, down, one, no_button, rest, begin, finish,
  refuse, await,
}
use ftpii.Fs.Remount.Machine.{handle_happenings, handle_happening-Moved, remount_device-Finishes}

running : (timer now : ℕ) → not (timer == 0) && ltb timer now ≡ true → timer ≢ 0
running timer now h e = ground arith

-- A timer runs only while the user is to change the device, the device to be changed is one that can
-- be, and nothing is chosen before the buttons choose.
pub record Consistent (r : Remount) : Type 0 where
  pub timer : r.state ≢ mountstate_waitfordevice → r.timer ≡ 0
  pub choosing : r.state ≡ mountstate_selectdevice → r.partition ≡ none
  pub chosen :
      r.state ≡ mountstate_waitfordevice
      → (p : Partition) × (r.partition ≡ some p) × ((is_dvd p || is_fat p) ≡ true)

removable-Chooses :
    (pressed : Buttons) (before : Option Partition) (p : Partition)
    → before ≡ none
    → Chooses pressed before (some p)
    → (is_dvd p || is_fat p) ≡ true
removable-Chooses pressed before p n c = removable c
  where
    as_chosen :
        (q : Partition)
        → some p ≡ some q
        → (is_dvd q || is_fat q) ≡ true
        → (is_dvd p || is_fat p) ≡ true
    as_chosen q e h = let same : p ≡ q = cc in rw same h

    removable : Chooses pressed before (some p) → (is_dvd p || is_fat p) ≡ true
    removable (left a e) = as_chosen sd e refl
    removable (right a b e) = as_chosen usb e refl
    removable (up a b d e) = as_chosen gcsda e refl
    removable (down a b d f e) = as_chosen gcsdb e refl
    removable (one a b d f g e) = as_chosen dvd e refl
    removable (no_button a b d f g e) = absurd (cc)

Move-Consistent :
    {h : Happening} {waiting : Bool} {deadline : ℕ} {r s : Remount}
    → Move h waiting deadline r s
    → Consistent r
    → Consistent s
Move-Consistent (rest k) c = c
Move-Consistent (begin k h) c = record {
  timer = λ _. c.timer h;
  choosing = λ _. refl;
  chosen = λ e. absurd (cc);
}
Move-Consistent (finish k h) c = record {
  timer = λ _. refl;
  choosing = λ _. refl;
  chosen = λ e. absurd (cc);
}
Move-Consistent (refuse pressed p k h e d l) c = record {
  timer = λ _. c.timer (λ e. absurd (cc));
  choosing = λ e. absurd (cc);
  chosen = λ e. absurd (cc);
}
Move-Consistent (await pressed p k h e d) c = record {
  timer = λ n. absurd (n refl);
  choosing = λ e. absurd (cc);
  chosen = λ _. (p, refl, removable-Chooses pressed _ p (c.choosing h) e);
}

module _ ⦃os : Os⦄ where
  -- From a consistent state of the remounting, any sequence of button presses, timer checks and device
  -- checks uses no dead pointer, and where it comes back, the state is consistent again and the statics
  -- of the server are as before.
  pub handle_happenings-Consistent :
      (hs : List Happening) (w : World)
      → Consistent (remount w.fs)
      → After (λ _ w'. Consistent (remount w'.fs) × (w'.ftp ≡ w.ftp)) (handle_happenings hs w)
  unfolding handle_happenings
  handle_happenings-Consistent [] w c = ended (c, refl)
  handle_happenings-Consistent (h ∷ hs) w c = After-then (handle_happening-Moved h w) λ _ v m.
      After-mono (handle_happenings-Consistent hs v (Move-Consistent m.move c))
        λ _ u (d, e). (d, e ∙ m.ftp)

  -- From a consistent state, a timer check uses no dead pointer, and where it comes back: if the timer
  -- was set and has passed, then the remounting is at its start, with no device chosen and no timer;
  -- otherwise its state is as before.
  pub check_mount_timer-Finishes :
      (fuel now : ℕ) (w : World)
      → Consistent (remount w.fs)
      → After
          (λ _ w'. remount w'.fs ≡ (
            if not (w.fs.mount_timer == 0) && ltb w.fs.mount_timer now
            then record { state = mountstate_start; partition = none; timer = 0 }
            else remount w.fs))
          (check_mount_timer fuel now w)
  unfolding check_mount_timer process_remount_event
  check_mount_timer-Finishes fuel now w c =
      let up = not (w.fs.mount_timer == 0) && ltb w.fs.mount_timer now in
      let other =
        modify_fs
          (λ t. record t { mountstate = mountstate_selectdevice; mount_partition = none }) in
      After-if up (process_remount_event fuel) (pure tt)
        (λ b. rw b (
          by_state w.fs.mountstate other other (remount_device fuel)
            (λ e. absurd (running w.fs.mount_timer now b (c.timer (λ h. absurd (cc)))))
            (λ e. absurd (running w.fs.mount_timer now b (c.timer (λ h. absurd (cc)))))
            (λ e. After-mono (remount_device-Finishes fuel w) λ _ v (a, r). r)))
        (λ b. rw b (ended refl))
