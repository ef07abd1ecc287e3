-- ===== src/Video/Frame.antt =====
-- Setting up the screen leaves the statics of the server alone.
use ftpii.Base.{ℕ, ◌-◌, Bool, false}
use ftpii.Os.{Call, VideoMode, Os, unsigned}
use ftpii.World.Keeps.{Keeps, Keeps-bind, Keeps-then, Keeps-pure, Keeps-if}
use ftpii.World.Apart.{Always, Apart, Apart-frame, call-Apart}
use ftpii.Video.{wait_for_screen, show_console, initialise_video}

module _ ⦃os : Os⦄ where
  wait_for_screen-Apart : (b : Bool) → Keeps Always Apart (wait_for_screen b)
  unfolding wait_for_screen
  wait_for_screen-Apart b =
      Keeps-then (call-Apart Call.vsync)
        (Keeps-if b (Keeps-then (call-Apart Call.vsync) (Keeps-pure tt)) (Keeps-pure tt))

  show_console-Apart : (rmode : ℕ) (mode : VideoMode) → Keeps Always Apart (show_console rmode mode)
  unfolding show_console
  show_console-Apart rmode mode =
      Keeps-then
        (call-Apart (Call.con_init rmode 20 30 (mode.fb_width - 40) (mode.xfb_height - 60)))
        (Keeps-then (call-Apart (Call.con_enable_gecko false)) (
          Keeps-then (call-Apart (Call.video_set_black false))
            (Keeps-then (call-Apart Call.video_flush) (wait_for_screen-Apart mode.non_interlace))))

  pub initialise_video-Apart : Keeps Always Apart initialise_video
  unfolding initialise_video
  initialise_video-Apart = Keeps-then (call-Apart Call.video_init) (
      Keeps-bind (call-Apart Call.video_preferred_mode) λ rmode.
        Keeps-then (call-Apart (Call.video_configure (unsigned rmode.code))) (
          Keeps-bind (call-Apart (Call.allocate_framebuffer (unsigned rmode.code))) λ xfb.
            Keeps-then (call-Apart (Call.set_next_framebuffer (unsigned xfb.code))) (
              Keeps-then
                (call-Apart (Call.clear_framebuffer (unsigned rmode.code) (unsigned xfb.code)))
                (Keeps-then (call-Apart Call.video_flush) (
                  Keeps-then
                    (wait_for_screen-Apart (os.video_mode (unsigned rmode.code)).non_interlace)
                    (show_console-Apart (unsigned rmode.code)
                      (os.video_mode (unsigned rmode.code))))))))
