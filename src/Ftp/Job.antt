-- ===== src/Ftp/Job.antt =====
-- What a client's data connection is at work on, source/ftp.c: the callback, its argument and the
-- cleanup that belong together.
use ftpii.Base.{ℕ, Option, none, some}
use ftpii.World.{Client, Callback, Arg, dir, file, Cleanup, Dir, virtual, device, update}

-- The three fields of a client without a transfer, and of the transfers there are.
pub data IsJob : Option Callback → Option Arg → Option Cleanup → Type 0 where
  idle : IsJob none none none
  names : (d : Dir) → IsJob (some Callback.send_nlst) (some (dir d)) (some Cleanup.vrt_dirclose)
  lists : (d : Dir) → IsJob (some Callback.send_list) (some (dir d)) (some Cleanup.vrt_dirclose)
  sends : (f : ℕ) → IsJob (some Callback.send_from_file) (some (file f)) (some Cleanup.fclose)
  receives : (f : ℕ) → IsJob (some Callback.recv_to_file) (some (file f)) (some Cleanup.fclose)

-- The directory iterator of the program's own that the argument is.
abbrev pub owned : Option Arg → Option ℕ
owned none = none
owned (some (dir (virtual d))) = some d
owned (some (dir (device d))) = none
owned (some (file f)) = none

abbrev pub HasJob : Client → Type 0
HasJob c = IsJob c.data_callback c.data_connection_callback_arg c.data_connection_cleanup

abbrev pub owns : Client → Option ℕ
owns c = owned c.data_connection_callback_arg

-- The iterators, without the one that is closed.
abbrev pub shut : Option ℕ → (ℕ → Option ℕ) → ℕ → Option ℕ
shut none dirs = dirs
shut (some d) dirs = update dirs d none
