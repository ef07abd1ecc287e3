-- ===== src/Main/Shutdown.antt =====
-- The end of the program once it is to be reset, source/ftpii.c.
use ftpii.Base.{
  ℕ, zero, suc, ◌≡◌, refl, sym, subst, ◌∙◌, if◌then◌else◌, Bool, true, false, List, [], ◌∷◌, none,
  Bytes,
}
use ftpii.Os.{S32, Partition, Call, power_off, Event, Os}
use ftpii.World.{World, Ftp, M, pure, done, call, ◌>>=◌, ◌>>◌}
use ftpii.World.Triple.{Ensures, ended, Ensures-mono, Ensures-bind, Ends, Ends-then, call-Ends}
use ftpii.Reset.{
  run_callbacks, take_interrupts, reset, maybe_poweroff, set_reset_flag, set_power_flag,
}
use ftpii.Fs.Table.{virtual_partitions}
use ftpii.Fs.Ends.{dvd_stop-Ends, unmount-Ends}
use ftpii.Ftp.Sound.{Sound}
use ftpii.Ftp.Sound.Ending.{cleanup_ftp-Empties}
use ftpii.Main.{main_loop, unmount_all, shut_down}

-- The console was switched off by the last call.
abbrev pub switches_off : Call → Bool
switches_off power_off = true
switches_off _ = false

abbrev pub switched_off : List Event → Bool
switched_off [] = false
switched_off (e ∷ past) = switches_off e.call

-- What the button callbacks do to the flags.
run_callbacks_lem :
    (bs : Bytes) (w : World)
    → Ensures (run_callbacks bs w) (λ _ w'.
      (w'.ftp ≡ w.ftp) × (w'.trace ≡ w.trace) × (w.reset.reset ≡ true → w'.reset.reset ≡ true))
unfolding run_callbacks set_reset_flag set_power_flag
run_callbacks_lem [] w = ended (refl, refl, λ h. h)
run_callbacks_lem (zero ∷ bs) w =
    Ensures-mono (run_callbacks_lem bs _) λ _ w' r. (r.0, r.1, λ h. r.2 refl)
run_callbacks_lem (suc n ∷ bs) w =
    Ensures-mono (run_callbacks_lem bs _) λ _ w' r. (r.0, r.1, λ h. r.2 refl)

module _ ⦃os : Os⦄ where
  unmount_all-Ends : (ps : List Partition) → Ends (unmount_all ps)
  unfolding unmount_all
  unmount_all-Ends [] = record { run = λ w. ended refl }
  unmount_all-Ends (p ∷ ps) =
      let round = Ends-then (unmount-Ends p) (unmount_all-Ends ps) in
      record { run = λ w. round.run w }

  take_interrupts_lem :
      (w : World)
      → Ensures (take_interrupts w) (λ _ w'.
        (w'.ftp ≡ w.ftp)
        × (switched_off w'.trace ≡ false)
        × (w.reset.reset ≡ true → w'.reset.reset ≡ true))
  unfolding take_interrupts call
  take_interrupts_lem w =
      Ensures-mono (run_callbacks_lem (os.respond w.trace Call.interrupts).payload _)
        λ _ w' r. (r.0, subst (λ t. switched_off t ≡ false) (sym r.1) refl, r.2)

  maybe_poweroff_lem :
      (w : World)
      → Ensures
          (maybe_poweroff w)
          (λ _ w'. (w'.ftp ≡ w.ftp) × (switched_off w'.trace ≡ w'.reset.power))
  unfolding maybe_poweroff call
  maybe_poweroff_lem w =
      Ensures-bind (take_interrupts_lem w) λ _ w1 r. by_flag w1.reset.power w1 refl r.0 r.1
    where
      by_flag :
          (b : Bool) (v : World)
          → v.reset.power ≡ b
          → v.ftp ≡ w.ftp
          → switched_off v.trace ≡ false
          → Ensures
              ((if b then (do call Call.power_off; pure tt) else pure tt) v)
              (λ _ w'. (w'.ftp ≡ w.ftp) × (switched_off w'.trace ≡ w'.reset.power))
      by_flag true v e f t = ended (f, sym e)
      by_flag false v e f t = ended (f, t ∙ sym e)

  shut_down_lem :
      (server : S32) (w : World)
      → Sound w.ftp
      → Ensures (shut_down server w) (λ r w'.
        (r ≡ 0) × ((q : ℕ) → w'.ftp.heap q ≡ none) × (switched_off w'.trace ≡ w'.reset.power))
  unfolding shut_down
  shut_down_lem server w s = Ensures-bind (cleanup_ftp-Empties w s) λ _ w1 t.
      Ensures-bind (((call-Ends (Call.net_close server))).run w1) λ _ w2 e2.
        Ensures-bind (((unmount_all-Ends virtual_partitions)).run w2) λ _ w3 e3.
          Ensures-bind ((dvd_stop-Ends).run w3) λ _ w4 e4.
            Ensures-bind (((call-Ends Call.di_close)).run w4) λ _ w5 e5.
              Ensures-bind (((call-Ends Call.isfs_deinitialize)).run w5) λ _ w6 e6.
                Ensures-bind (maybe_poweroff_lem w6) λ _ w7 r. ended (
                  refl,
                  subst (λ (f : Ftp). (q : ℕ) → f.heap q ≡ none)
                      (sym (r.0 ∙ e6 ∙ e5 ∙ e4 ∙ e3 ∙ e2)) t.1,
                  r.1,
                )

  stops :
      (b : Bool) (server : S32) (more : M S32) (v w : World)
      → b ≡ true
      → v.ftp ≡ w.ftp
      → Ensures ((if b then pure server else more) v) (λ x w'. (x ≡ server) × (w'.ftp ≡ w.ftp))
  stops true server more v w h e = ended (refl, e)
  stops false server more v w h e = absurd (cc)

  main_loop_lem :
      (fuel : ℕ) (network_down : Bool) (server : S32) (w : World)
      → w.reset.reset ≡ true
      → Ensures
          (main_loop (suc fuel) network_down server w)
          (λ x w'. (x ≡ server) × (w'.ftp ≡ w.ftp))
  unfolding main_loop reset
  main_loop_lem fuel network_down server w h =
      Ensures-bind (Ensures-bind (take_interrupts_lem w) λ _ w1 r. reads w1 (r.2 h) r.0)
        λ over w2 t. stops over server _ w2 w t.0 t.1
    where
      reads :
          (v : World)
          → v.reset.reset ≡ true
          → v.ftp ≡ w.ftp
          → Ensures (done v.reset.reset v) (λ over w'. (over ≡ true) × (w'.ftp ≡ w.ftp))
      reads v e f = ended (e, f)

  -- Once the reset flag is set, the loop of `main` ends at its next test, whether or not the network is
  -- down, with the statics of source/ftp.c as they are; and from a sound state of the server, what
  -- follows the loop always comes back: it returns 0, no client is left, and the last call switches the
  -- console off exactly if the power flag is set.
  pub main_loop-shut_down :
      (fuel : ℕ) (network_down : Bool) (server : S32) (w : World)
      → Sound w.ftp
      → w.reset.reset ≡ true
      → Ensures
          (main_loop (suc fuel) network_down server w)
          (λ x w'. (x ≡ server) × (w'.ftp ≡ w.ftp))
        × Ensures ((main_loop (suc fuel) network_down server >>= shut_down) w) (λ r w'.
          (r ≡ 0) × ((q : ℕ) → w'.ftp.heap q ≡ none) × (switched_off w'.trace ≡ w'.reset.power))
  main_loop-shut_down fuel network_down server w s h =
      let ends = main_loop_lem fuel network_down server w h in
      (ends, Ensures-bind ends λ x w1 t. shut_down_lem x w1 (subst Sound (sym t.1) s))
