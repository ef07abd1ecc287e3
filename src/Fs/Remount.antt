-- ===== src/Fs/Remount.antt =====
-- Remounting a device by the buttons, source/fs.c: a state machine with a timer.
pub mod Moves
pub mod Machine
use ftpii.Base.{
  ℕ, ◌+◌, Bool, true, false, not, ◌&&◌, List, Option, none, some, ltb, ◌==◌, if◌then◌else◌,
}
use ftpii.Os.{Partition, gcsda, gcsdb, sd, usb, dvd, Button, Call, Os, unsigned}
use ftpii.World.{
  World, FsState, MountState, mountstate_start, mountstate_selectdevice, mountstate_waitfordevice,
  M, pure, done, call, ◌>>=◌, ◌>>◌,
}
use ftpii.Pad.{Buttons}
use ftpii.Fs.Table.{is_dvd, is_fat}
use ftpii.Fs.Mount.{mount, unmount}
use ftpii.Fs.Removable.{get_fs}
use ftpii.Dvd.{dvd_mount_wait, set_dvd_mount_wait}
use ftpii.Dvd.Media.{dvd_unmount}

-- An assignment to the statics.
unfoldable pub modify_fs : (FsState → FsState) → M (Unit {0})
modify_fs f w = done tt (record w { fs = f w.fs })

-- The partition of the button that is down, the one before where none is.
unfoldable pub select : Buttons → Option Partition → Option Partition
select pressed before =
    if pressed Button.button_left
    then some sd
    else if pressed Button.button_right
    then some usb
    else if pressed Button.button_up
    then some gcsda
    else if pressed Button.button_down
    then some gcsdb
    else if pressed Button.button_1
    then some dvd
    else before

-- `is_dvd(mount_partition)`: NULL is no row.
abbrev pub is_dvd? : Option Partition → Bool
is_dvd? none = false
is_dvd? (some p) = is_dvd p

module _ ⦃os : Os⦄ where
  -- The branch of `process_remount_event` where the user has changed the device, or time is up.
  unfoldable pub remount_device : ℕ → M (Unit {0})
  unfolding call modify_fs
  remount_device fuel = do
    modify_fs (λ s. record s { mount_timer = 0; mountstate = mountstate_start })
    s ← get_fs
    (if is_dvd? s.mount_partition
        then (do set_dvd_mount_wait true; call Call.di_mount; pure tt)
        else (do mount fuel s.mount_partition; pure tt))
    modify_fs (λ t. record t { mount_partition = none })

  unfoldable pub process_remount_event : ℕ → M (Unit {0})
  unfolding modify_fs
  process_remount_event fuel = do
    s ← get_fs
    elim s.mountstate [
      | mountstate_waitfordevice ↦ remount_device fuel
      | _ ↦
          modify_fs (λ t. record t { mountstate = mountstate_selectdevice; mount_partition = none })
    ]

  -- The end of `process_device_select_event`: the time that the user has.
  unfoldable pub start_timer : M (Unit {0})
  unfolding call modify_fs
  start_timer = do
    now ← call Call.gettime
    modify_fs (λ s. record s { mount_timer = unsigned now.code + os.secs_to_ticks 30 })

  -- The branch where a partition is chosen.
  unfoldable pub release_device : Partition → M (Unit {0})
  unfolding modify_fs
  release_device partition = do
    modify_fs (λ s. record s { mountstate = mountstate_waitfordevice })
    waiting ← dvd_mount_wait
    if is_dvd partition && waiting
        then modify_fs (λ s. record s { mountstate = mountstate_start })
        else (do
          (if is_dvd partition
              then dvd_unmount
              else if is_fat partition
              then (do unmount (some partition); pure tt)
              else pure tt)
          start_timer)

  unfoldable pub process_device_select_event : Buttons → M (Unit {0})
  unfolding modify_fs
  process_device_select_event pressed = do
    s ← get_fs
    elim s.mountstate [
      | mountstate_selectdevice ↦ do
        let chosen : Option Partition = select pressed s.mount_partition
        modify_fs (λ t. record t { mount_partition = chosen })
        elim chosen [ none ↦ pure tt | some p ↦ release_device p ]
      | _ ↦ pure tt
    ]

  unfoldable pub check_mount_timer : ℕ → ℕ → M (Unit {0})
  check_mount_timer fuel now = do
    s ← get_fs
    if not (s.mount_timer == 0) && ltb s.mount_timer now
        then process_remount_event fuel
        else pure tt
