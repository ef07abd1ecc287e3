-- ===== src/Reset.antt =====
-- source/reset.c: the flags of the reset and power buttons. Their callbacks may run at any time; as
-- only the functions here read the flags, the callbacks are run before each read.
pub mod Frame
use ftpii.Base.{ℕ, zero, suc, Bool, true, [], ◌∷◌, Bytes, if◌then◌else◌}
use ftpii.Os.{Button, Call, Os}
use ftpii.World.{M, pure, done, stuck, exited, call, ◌>>=◌, ◌>>◌}
use ftpii.Pad.{check_wiimote, check_gamecube}

unfoldable pub set_reset_flag : M (Unit {0})
set_reset_flag w = done tt (record w { reset = record w.reset { reset = true } })

unfoldable pub set_power_flag : M (Unit {0})
set_power_flag w = done tt (record w { reset = record w.reset { reset = true; power = true } })

-- `SYS_SetResetCallback`, `SYS_SetPowerCallback` and `WPAD_SetPowerButtonCallback` have these called.
unfoldable pub run_callbacks : Bytes → M (Unit {0})
unfolding set_reset_flag set_power_flag
run_callbacks [] w = done tt w
run_callbacks (zero ∷ rest) w = (do set_reset_flag; run_callbacks rest) w
run_callbacks (suc _ ∷ rest) w = (do set_power_flag; run_callbacks rest) w

abbrev reset_flag : M Bool
reset_flag w = done w.reset.reset w

abbrev power_flag : M Bool
power_flag w = done w.reset.power w

module _ ⦃os : Os⦄ where
  unfoldable pub take_interrupts : M (Unit {0})
  unfolding call run_callbacks
  take_interrupts = do a ← call Call.interrupts; run_callbacks a.payload

  -- The callbacks are the two functions that set the flags.
  unfoldable pub initialise_reset_buttons : M (Unit {0})
  unfolding call
  initialise_reset_buttons = do
    call Call.set_reset_callback
    call Call.set_power_callback
    call Call.wpad_set_power_callback
    pure tt

  unfoldable pub reset : M Bool
  unfolding take_interrupts
  reset = do take_interrupts; reset_flag

  -- `_reset || check_wiimote(WPAD_BUTTON_A) || check_gamecube(PAD_BUTTON_A)`
  unfoldable pub check_reset_synchronous : M Bool
  unfolding reset check_wiimote check_gamecube
  check_reset_synchronous = do
    flag ← reset
    if flag then pure true else (do
      wiimote ← check_wiimote (Button.button_a ∷ [])
      if wiimote Button.button_a then pure true else (do
        gamecube ← check_gamecube (Button.button_a ∷ [])
        pure (gamecube Button.button_a)))

  unfoldable pub maybe_poweroff : M (Unit {0})
  unfolding take_interrupts call
  maybe_poweroff = do
    take_interrupts
    power ← power_flag
    if power then (do call Call.power_off; pure tt) else pure tt

  -- The loop of `die`, with fuel, and the end of the program.
  unfoldable pub die : {A : Type 0} → ℕ → M A
  unfolding check_reset_synchronous maybe_poweroff call
  die zero w = stuck
  die (suc fuel) w =
      (do
        over ← check_reset_synchronous
        if over then (do maybe_poweroff; λ v. exited v) else (do call Call.vsync; die fuel))
        w
