-- ===== src/Fs.antt =====
-- source/fs.c: the table of devices, and mounting and unmounting them.
pub mod Table
pub mod Mount
pub mod Removable
pub mod Remount
pub mod Names
pub mod Frame
pub mod Ends
use ftpii.Base.{Bool, true, false}
use ftpii.Os.{val, err, Partition, Call, Os}
use ftpii.World.{M, pure, call, posix, ◌>>=◌, ◌>>◌}
use ftpii.Fs.Table.{prefix}

module _ ⦃os : Os⦄ where
  unfoldable pub mounted : Partition → M Bool
  unfolding posix call
  mounted partition = do
    dir ← posix (Call.diropen (prefix partition))
    elim dir.code [ val d ↦ do call (Call.dirclose d); pure true | err _ ↦ pure false ]
