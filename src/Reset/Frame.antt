-- ===== src/Reset/Frame.antt =====
-- The polling of source/reset.c and pad.c leaves the statics of the server alone.
use ftpii.Base.{ℕ, zero, suc, true, List, [], ◌∷◌, Bytes, refl, if◌then◌else◌}
use ftpii.Os.{Button, Call, Os, unsigned}
use ftpii.World.{M}
use ftpii.World.Keeps.{ended, waits, leaves, Keeps, Keeps-bind, Keeps-then, Keeps-pure, Keeps-if}
use ftpii.World.Apart.{Always, Apart, Apart-frame, call-Apart}
use ftpii.Pad.{Buttons, any_of, no_buttons, check_wiimote, check_gamecube}
use ftpii.Reset.{
  initialise_reset_buttons, set_reset_flag, set_power_flag, run_callbacks, reset_flag, power_flag,
  take_interrupts, reset, check_reset_synchronous, maybe_poweroff, die,
}

abbrev Keeping : {A : Type 0} → M A → Type 0
Keeping m = Keeps Always Apart m

pub set_reset_flag-Apart : Keeping set_reset_flag
unfolding set_reset_flag
set_reset_flag-Apart = record { run = λ w i. ended (record { ftp = refl; same = refl }) }

set_power_flag-Apart : Keeping set_power_flag
unfolding set_power_flag
set_power_flag-Apart = record { run = λ w i. ended (record { ftp = refl; same = refl }) }

run_callbacks-Apart : (pending : Bytes) → Keeping (run_callbacks pending)
unfolding run_callbacks
run_callbacks-Apart [] = record { run = λ w i. ended (record { ftp = refl; same = refl }) }
run_callbacks-Apart (zero ∷ rest) =
    let round = Keeps-then set_reset_flag-Apart (run_callbacks-Apart rest) in
    record { run = λ w i. round.run w i }
run_callbacks-Apart (suc n ∷ rest) =
    let round = Keeps-then set_power_flag-Apart (run_callbacks-Apart rest) in
    record { run = λ w i. round.run w i }

reset_flag-Apart : Keeping reset_flag
reset_flag-Apart = record { run = λ w i. ended (record { ftp = refl; same = refl }) }

power_flag-Apart : Keeping power_flag
power_flag-Apart = record { run = λ w i. ended (record { ftp = refl; same = refl }) }

module _ ⦃os : Os⦄ where
  take_interrupts-Apart : Keeping take_interrupts
  unfolding take_interrupts
  take_interrupts-Apart = Keeps-bind (call-Apart Call.interrupts) λ a. run_callbacks-Apart a.payload

  pub initialise_reset_buttons-Apart : Keeping initialise_reset_buttons
  unfolding initialise_reset_buttons
  initialise_reset_buttons-Apart = Keeps-then (call-Apart Call.set_reset_callback) (
      Keeps-then (call-Apart Call.set_power_callback)
        (Keeps-then (call-Apart Call.wpad_set_power_callback) (Keeps-pure tt)))

  pub reset-Apart : Keeping reset
  unfolding reset
  reset-Apart = Keeps-then take_interrupts-Apart reset_flag-Apart

  pub check_wiimote-Apart : (mask : List Button) → Keeping (check_wiimote mask)
  unfolding check_wiimote
  check_wiimote-Apart mask = Keeps-then (call-Apart Call.wpad_scan) (
      Keeps-bind (call-Apart Call.wpad_down) λ down.
        let pressed : Buttons = os.wpad_has (unsigned down.code) in
        Keeps-pure (if any_of pressed mask then pressed else no_buttons))

  pub check_gamecube-Apart : (mask : List Button) → Keeping (check_gamecube mask)
  unfolding check_gamecube
  check_gamecube-Apart mask = Keeps-then (call-Apart Call.pad_scan) (
      Keeps-bind (call-Apart Call.pad_down) λ down.
        let pressed : Buttons = os.pad_has (unsigned down.code) in
        Keeps-if (any_of pressed mask) (Keeps-then (call-Apart Call.vsync) (Keeps-pure pressed))
          (Keeps-pure no_buttons))

  pub check_reset_synchronous-Apart : Keeping check_reset_synchronous
  unfolding check_reset_synchronous
  check_reset_synchronous-Apart = Keeps-bind reset-Apart λ flag. Keeps-if flag (Keeps-pure true) (
      Keeps-bind (check_wiimote-Apart (Button.button_a ∷ [])) λ wiimote.
        Keeps-if (wiimote Button.button_a) (Keeps-pure true) (
          Keeps-bind (check_gamecube-Apart (Button.button_a ∷ []))
            λ gamecube. Keeps-pure (gamecube Button.button_a)))

  pub maybe_poweroff-Apart : Keeping maybe_poweroff
  unfolding maybe_poweroff
  maybe_poweroff-Apart = Keeps-then take_interrupts-Apart (
      Keeps-bind power_flag-Apart λ power.
        Keeps-if power (Keeps-then (call-Apart Call.power_off) (Keeps-pure tt)) (Keeps-pure tt))

  pub die-Apart : {A : Type 0} (fuel : ℕ) → Keeping (die {A = A} fuel)
  unfolding die
  die-Apart zero = record { run = λ w i. waits }
  die-Apart (suc fuel) =
      let round = Keeps-bind check_reset_synchronous-Apart λ over.
        Keeps-if over (Keeps-then maybe_poweroff-Apart (record { run = λ w i. leaves }))
          (Keeps-then (call-Apart Call.vsync) (die-Apart fuel)) in
      record { run = λ w i. round.run w i }
