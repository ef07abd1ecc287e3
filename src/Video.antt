-- ===== src/Video.antt =====
-- `initialise_video` of source/ftpii.c: the screen and its console.
pub mod Frame
use ftpii.Base.{ℕ, ◌-◌, Bool, false, if◌then◌else◌}
use ftpii.Os.{Call, VideoMode, Os, unsigned}
use ftpii.World.{M, pure, call, ◌>>=◌, ◌>>◌}

module _ ⦃os : Os⦄ where
  -- `VIDEO_WaitVSync(); if (rmode->viTVMode & VI_NON_INTERLACE) VIDEO_WaitVSync();`
  unfoldable pub wait_for_screen : Bool → M (Unit {0})
  wait_for_screen non_interlace = do
    call Call.vsync
    if non_interlace then (do call Call.vsync; pure tt) else pure tt

  -- the console on the screen, from `CON_InitEx` on
  unfoldable pub show_console : ℕ → VideoMode → M (Unit {0})
  show_console rmode mode = do
    call (Call.con_init rmode 20 30 (mode.fb_width - 40) (mode.xfb_height - 60))
    call (Call.con_enable_gecko false)
    call (Call.video_set_black false)
    call Call.video_flush
    wait_for_screen mode.non_interlace

  unfoldable pub initialise_video : M (Unit {0})
  initialise_video = do
    call Call.video_init
    rmode ← call Call.video_preferred_mode
    let mode : VideoMode = os.video_mode (unsigned rmode.code)
    call (Call.video_configure (unsigned rmode.code))
    xfb ← call (Call.allocate_framebuffer (unsigned rmode.code))
    call (Call.set_next_framebuffer (unsigned xfb.code))
    call (Call.clear_framebuffer (unsigned rmode.code) (unsigned xfb.code))
    call Call.video_flush
    wait_for_screen mode.non_interlace
    show_console (unsigned rmode.code) mode
