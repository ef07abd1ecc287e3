-- ===== src/Fs/Ends.antt =====
-- Mounting and unmounting, source/fs.c and dvd.c, come back.
use ftpii.Base.{
  ℕ, zero, suc, ◌+◌, ◌-◌, ◌<◌, ◌≤◌, ◌≡◌, refl, ◌∙◌, inl, inr, arith, Bool-cases, ltb, not, ◌||◌,
  ◌&&◌, Bool, true, false, List, [], ◌∷◌, Option, none, some,
}
use ftpii.Os.{Partition, dvd, wod, fst, Call, Event, Answer, Os, truth, unsigned}
use ftpii.World.{World, M, pure, call, ◌>>=◌, ◌>>◌}
use ftpii.World.Triple.{
  Ensures, ended, Ensures-mono, Ensures-bind, Ends, Ends-pure, Ends-bind, Ends-then, Ends-if,
  Ends-S32, call-Ends, posix-Ends,
}
use ftpii.Dvd.{
  dvd_mount_wait, set_dvd_mount_wait, set_last_stopped, maximum, last_access_of, dvd_last_access,
  dvd_stop,
}
use ftpii.Fs.{mounted}
use ftpii.Fs.Table.{prefix, is_dvd, is_fat, is_gecko}
use ftpii.Fs.Mount.{
  is_usb, set_geckofail, stop_unused, await_drive, mount_dvd, restart_disc, mount_volume, mount_fat,
  mount_partition, mount, unmount_partition, unmount,
}

stopped-Ends : (n : ℕ) → Ends (set_last_stopped n)
stopped-Ends n = record { run = λ w. ended refl }

waits-Ends : Ends dvd_mount_wait
waits-Ends = record { run = λ w. ended refl }

set_wait-Ends : (b : Bool) → Ends (set_dvd_mount_wait b)
set_wait-Ends b = record { run = λ w. ended refl }

set_geckofail-Ends : (p : Partition) (b : Bool) → Ends (set_geckofail p b)
set_geckofail-Ends p b = record { run = λ w. ended refl }

Ends-List :
    {A B : Type 0} (xs : List A) {m : M B} {k : A → List A → M B}
    → Ends m
    → ((a : A) (rest : List A) → Ends (k a rest))
    → Ends (elim xs as (λ _. M B) [ [] ↦ m | a ∷ r ↦ k a r ])
Ends-List [] s t = s
Ends-List (a ∷ r) s t = t a r

module _ ⦃os : Os⦄ where
  maximum-Ends : {first second : M ℕ} → Ends first → Ends second → Ends (maximum first second)
  maximum-Ends k l = Ends-bind k λ a. Ends-bind l λ b. Ends-if (ltb b a) k l

  last_access_of-Ends : (p : Partition) → Ends (last_access_of p)
  last_access_of-Ends p =
      Ends-bind (call-Ends (Call.last_access p)) λ a. Ends-pure (unsigned a.code)

  dvd_last_access-Ends : Ends dvd_last_access
  unfolding dvd_last_access
  dvd_last_access-Ends =
      maximum-Ends (maximum-Ends (last_access_of-Ends dvd) (last_access_of-Ends wod))
        (last_access_of-Ends fst)

  pub dvd_stop-Ends : Ends dvd_stop
  unfolding dvd_stop
  dvd_stop-Ends = Ends-bind (call-Ends Call.gettime) λ now.
      Ends-then (stopped-Ends (unsigned now.code))
        (Ends-bind (call-Ends Call.di_stop_motor) λ a. Ends-pure a.code)

  stop_unused-Ends : Ends stop_unused
  unfolding stop_unused
  stop_unused-Ends = Ends-bind waits-Ends λ waiting. Ends-if waiting (Ends-pure tt) (
      Ends-bind dvd_last_access-Ends
        λ access. Ends-if (ltb 0 access) (Ends-pure tt) (Ends-then dvd_stop-Ends (Ends-pure tt)))

  mounted-Ends : (p : Partition) → Ends (mounted p)
  unfolding mounted
  mounted-Ends p = Ends-bind (posix-Ends (Call.diropen (prefix p))) λ d.
      Ends-S32 d.code (λ n. Ends-then (call-Ends (Call.dirclose n)) (Ends-pure true))
        (λ e. Ends-pure false)

  driver-Ends : (p : Partition) → Ends (call (Call.driver_unmount p) >>= λ a. pure (truth a.code))
  driver-Ends p = Ends-bind (call-Ends (Call.driver_unmount p)) λ a. Ends-pure (truth a.code)

  unmount_partition-Ends : (p : Partition) → Ends (unmount_partition p)
  unfolding unmount_partition
  unmount_partition-Ends p =
      Ends-if (is_dvd p)
        (Ends-bind (call-Ends (Call.driver_unmount p))
          λ a. Ends-then stop_unused-Ends (Ends-pure (truth a.code)))
        (Ends-if (is_fat p)
          (Ends-then (call-Ends (Call.fat_unmount p))
            (Ends-then (call-Ends (Call.ntfs_unmount p)) (Ends-pure true)))
          (driver-Ends p))

  pub unmount-Ends : (p : Partition) → Ends (unmount (some p))
  unfolding unmount
  unmount-Ends p = Ends-bind (mounted-Ends p) λ there. Ends-bind waits-Ends λ waiting.
      Ends-if (not there || (is_dvd p && waiting)) (Ends-pure false) (unmount_partition-Ends p)

  -- What `gettime` answers after a history.
  abbrev pub time : List Event → ℕ
  time past = unsigned (os.respond past Call.gettime).code

  -- The clock does not run backwards, and it ticks while the program sleeps for 2000 microseconds.
  pub record Clock : Type 0 where
    pub steady : (past : List Event) (e : Event) → time past ≤ time (e ∷ past)
    pub ticks :
        (past : List Event) (a : Answer)
        → time past < time (record { call = Call.usleep 2000; answer = a } ∷ past)

  -- A round of the wait brings the time nearer to the end of it.
  time-round :
      (past : List Event) (a b d : Answer) (timeout fuel : ℕ)
      → Clock
      → ltb (time (record { call = Call.di_ready; answer = a } ∷ past)) timeout ≡ true
      → timeout - time past < suc fuel
      → timeout
          - time (
              record { call = Call.usleep 2000; answer = d }
              ∷ record { call = Call.gettime; answer = b }
              ∷ record { call = Call.di_ready; answer = a }
              ∷ past)
        < fuel
  time-round past a b d timeout fuel c l h =
      let ready = record { call = Call.di_ready; answer = a } ∷ past in
      let read = record { call = Call.gettime; answer = b } ∷ ready in
      let one = c.steady past (record { call = Call.di_ready; answer = a }) in
      let two = c.steady ready (record { call = Call.gettime; answer = b }) in
      let three = c.ticks read d in ground (arith, l, h, one, two, three)

  await_drive_lem :
      (fuel timeout : ℕ) (w : World)
      → Clock
      → timeout - time w.trace < fuel
      → Ensures (await_drive fuel timeout w) (λ _ w'. w'.ftp ≡ w.ftp)
  unfolding await_drive call
  await_drive_lem zero timeout w c h = absurd (omega arith)
  await_drive_lem (suc fuel) timeout w c h =
      elim (Bool-cases (truth (os.respond w.trace Call.di_ready).code)) [
        | inl e ↦ rw e (ended refl)
        | inr e ↦
            rw e
              (elim (Bool-cases (
                ltb
                  (time (
                    record { call = Call.di_ready; answer = os.respond w.trace Call.di_ready }
                    ∷ w.trace))
                  timeout)) [
                    | inl l ↦ rw l (
                        await_drive_lem fuel timeout _ c
                          (time-round w.trace _ _ _ timeout fuel c l h))
                    | inr n ↦ rw n (ended refl)
                  ])
      ]

  -- The wait for the drive, from when its end is set.
  timed-Ends :
      {A : Type 0} (fuel : ℕ) {k : M A}
      → Clock
      → os.secs_to_ticks 10 < fuel
      → Ends k
      → Ends (
          call Call.gettime >>= λ now.
          await_drive fuel (unsigned now.code + os.secs_to_ticks 10) >> k)
  unfolding call
  timed-Ends fuel c h k = record {
    run = λ w.
        Ensures-bind
          (await_drive_lem fuel _ _ c (
            omega (
              arith,
              h,
              c.steady w.trace
                  (record { call = Call.gettime; answer = os.respond w.trace Call.gettime }),
            )))
          λ _ v e. Ensures-mono (k.run v) λ _ u e'. e' ∙ e;
  }

  mount_dvd-Ends :
      (fuel : ℕ) (p : Partition) → Clock → os.secs_to_ticks 10 < fuel → Ends (mount_dvd fuel p)
  unfolding mount_dvd
  mount_dvd-Ends fuel p c h = Ends-then (set_wait-Ends true) (
      Ends-then (call-Ends Call.di_mount) (
        timed-Ends fuel c h (
          Ends-bind (call-Ends Call.di_ready) λ ready.
            Ends-bind
              (Ends-if (truth ready.code)
                (Ends-then (set_wait-Ends false)
                  (Ends-bind (call-Ends (Call.driver_mount p)) λ a. Ends-pure (truth a.code)))
                (Ends-pure false))
              λ success. Ends-then stop_unused-Ends (Ends-pure success))))

  restart_disc-Ends : (p : Partition) → Ends (restart_disc p)
  unfolding restart_disc
  restart_disc-Ends p =
      Ends-bind
        (Ends-if (is_usb p) (Ends-pure true)
          (Ends-bind (call-Ends (Call.disc_shutdown p)) λ a. Ends-pure (truth a.code)))
        λ down. Ends-bind (call-Ends (Call.disc_startup p)) λ up. Ends-pure (down && truth up.code)

  mount_volume-Ends : (p : Partition) → Ends (mount_volume p)
  unfolding mount_volume
  mount_volume-Ends p = Ends-bind (call-Ends (Call.fat_mount p)) λ fat.
      Ends-if (truth fat.code) (Ends-pure true) (
        Ends-bind (call-Ends (Call.ntfs_find_partitions p)) λ found.
          Ends-List found.payload (Ends-pure false) λ sector rest.
            Ends-bind (call-Ends (Call.ntfs_mount p sector)) λ a. Ends-pure (truth a.code))

  mount_fat-Ends : (p : Partition) → Ends (mount_fat p)
  unfolding mount_fat
  mount_fat-Ends p = Ends-bind (restart_disc-Ends p) λ started.
      Ends-if started (mount_volume-Ends p) (
        Ends-if (is_gecko p)
          (Ends-then (call-Ends (Call.usleep 1000000)) (
            Ends-bind (restart_disc-Ends p)
              λ again. Ends-if again (mount_volume-Ends p) (Ends-pure false)))
          (Ends-pure false))

  mount_partition-Ends :
      (fuel : ℕ) (p : Partition)
      → Clock
      → os.secs_to_ticks 10 < fuel
      → Ends (mount_partition fuel p)
  unfolding mount_partition
  mount_partition-Ends fuel p c h =
      Ends-bind
        (Ends-if (is_dvd p) (mount_dvd-Ends fuel p c h) (
          Ends-if (is_fat p) (mount_fat-Ends p)
            (Ends-bind (call-Ends (Call.driver_mount p)) λ a. Ends-pure (truth a.code))))
        λ success.
          Ends-then (Ends-if (success && is_gecko p) (set_geckofail-Ends p false) (Ends-pure tt))
            (Ends-pure success)

  mount_lem :
      (fuel : ℕ) (p : Partition) → Clock → os.secs_to_ticks 10 < fuel → Ends (mount fuel (some p))
  unfolding mount
  mount_lem fuel p c h = Ends-bind (mounted-Ends p) λ already. Ends-bind waits-Ends λ waiting.
      Ends-if (already || (is_dvd p && waiting)) (Ends-pure false) (mount_partition-Ends fuel p c h)

  -- Where the clock does not run backwards and ticks while the program sleeps, and the fuel is more than
  -- the ticks of ten seconds, `mount` comes back for every device and for NULL, and so does `unmount`
  -- with no fuel; both leave the statics of source/ftp.c as they are.
  pub mount-Ends :
      (fuel : ℕ) (p : Option Partition) (w : World)
      → Clock
      → os.secs_to_ticks 10 < fuel
      → Ensures (mount fuel p w) (λ _ w'. w'.ftp ≡ w.ftp)
        × Ensures (unmount p w) (λ _ w'. w'.ftp ≡ w.ftp)
  unfolding mount unmount
  mount-Ends fuel none w c h = (ended refl, ended refl)
  mount-Ends fuel (some p) w c h = ((mount_lem fuel p c h).run w, (unmount-Ends p).run w)
