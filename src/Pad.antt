-- ===== src/Pad.antt =====
-- source/pad.c: the buttons of controller 1. The constants WPAD_BUTTON_… and PAD_BUTTON_… are the
-- environment's: it tells of a word of buttons which ones are down.
use ftpii.Base.{Bool, false, ◌||◌, List, [], ◌∷◌, if◌then◌else◌}
use ftpii.Os.{Button, Call, Os, unsigned}
use ftpii.World.{M, pure, call, ◌>>=◌, ◌>>◌}

-- a word of buttons
abbrev pub Buttons : Type 0
Buttons = Button → Bool

abbrev pub no_buttons : Buttons
no_buttons b = false

-- `pressed & mask` as a condition
abbrev pub any_of : Buttons → List Button → Bool
any_of pressed [] = false
any_of pressed (b ∷ mask) = pressed b || any_of pressed mask

module _ ⦃os : Os⦄ where
  unfoldable pub check_wiimote : List Button → M Buttons
  unfolding call
  check_wiimote mask = do
    call Call.wpad_scan
    down ← call Call.wpad_down
    let pressed : Buttons = os.wpad_has (unsigned down.code)
    pure (if any_of pressed mask then pressed else no_buttons)

  unfoldable pub check_gamecube : List Button → M Buttons
  unfolding call
  check_gamecube mask = do
    call Call.pad_scan
    down ← call Call.pad_down
    let pressed : Buttons = os.pad_has (unsigned down.code)
    if any_of pressed mask then (do call Call.vsync; pure pressed) else pure no_buttons
