-- ===== src/World/Apart.antt =====
-- Steps that leave the state of source/ftp.c alone, and of source/fs.c what the remounting keeps.
use ftpii.Base.{◌≡◌, refl, ◌∙◌, ℕ, Option}
use ftpii.Os.{Call, Code, Os, Partition}
use ftpii.World.{World, FsState, MountState, call, posix, set_errno}
use ftpii.World.Keeps.{ended, Frame, Keeps, Keeps-bind, Keeps-then, Keeps-pure, Keeps-S32}

-- The statics of the remounting.
pub record Remount : Type 0 where
  pub state : MountState
  pub partition : Option Partition
  pub timer : ℕ

abbrev pub remount : FsState → Remount
remount s = record { state = s.mountstate; partition = s.mount_partition; timer = s.mount_timer }

pub record Apart (w w' : World) : Type 0 where
  pub ftp : w'.ftp ≡ w.ftp
  pub same : remount w'.fs ≡ remount w.fs

-- Every state will do.
abbrev pub Always : World → Type 0
Always w = Unit {0}

instance pub Apart-frame : Frame Always Apart
Apart-frame = record {
  here = λ w. record { ftp = refl; same = refl };
  onward = λ u v w r s. record { ftp = s.ftp ∙ r.ftp; same = s.same ∙ r.same };
  keep = λ v w r i. i;
}

module _ ⦃os : Os⦄ where
  pub call-Apart : (c : Call) → Keeps Always Apart (call c)
  unfolding call
  call-Apart c = record { run = λ w i. ended (record { ftp = refl; same = refl }) }

  pub errno-Apart : (e : Code) → Keeps Always Apart (set_errno e)
  errno-Apart e = record { run = λ w i. ended (record { ftp = refl; same = refl }) }

  pub posix-Apart : (c : Call) → Keeps Always Apart (posix c)
  unfolding posix
  posix-Apart c =
      Keeps-bind (call-Apart c)
        λ a. Keeps-S32 a.code (λ n. Keeps-pure a) (λ e. Keeps-then (errno-Apart e) (Keeps-pure a))
