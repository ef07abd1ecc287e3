-- ===== src/Preloader.antt =====
-- source/preloader.c: it runs the program that the build packs into it, which stands in memory at
-- `ftpii_dol`.
use ftpii.Base.{ℕ, Option}
use ftpii.Os.{Call, Os}
use ftpii.World.{M, pure, call, ◌>>◌}
use ftpii.Dol.{Memory, run_dol}

module _ ⦃os : Os⦄ where
  -- `main`, which answers 1 if that program comes back, from what is in memory before it; `argv` is
  -- `__system_argv`.
  unfoldable pub preloader_main : Memory → ℕ → Option ℕ → M ℕ
  preloader_main m ftpii_dol argv = do call Call.video_init; run_dol m ftpii_dol argv; pure 1
