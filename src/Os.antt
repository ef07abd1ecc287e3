-- ===== src/Os.antt =====
-- What ftpii runs on: libogc's network and disc interfaces and newlib's files, as parameters.
-- source/*.c calls these functions; none of them is in the repository. An answer may depend on the
-- whole history of calls, so a statement about every `Os` holds for every such environment.
use ftpii.Base.{
  ℕ, zero, suc, ◌⊎◌, inl, inr, refl, ◌≤◌, ◌≡◌, Bool, true, false, List, Bytes, Option, none, some,
  length,
}

-- The error numbers that the source names, and any other.
pub data Code : Type 0 where
  eagain einval enodata einprogress ealready eisconn : Code
  enoent enodev enotdir enomem equit : Code
  number : ℕ → Code

-- An `s32` result: `val n` is n, and `err e` is -e.
pub data S32 : Type 0 where
  val : ℕ → S32
  err : Code → S32

abbrev pub minus_one : S32
minus_one = err (number 1)

-- VIRTUAL_PARTITIONS of source/fs.c, by the names of the pointers to its rows.
pub data Partition : Type 0 where
  gcsda gcsdb sd usb dvd wod fst nand isfs otp seeprom : Partition

-- A call of a function that is not in the repository, with its arguments. `di_ready` is
-- `DI_GetStatus() & DVD_READY`; `driver_mount` is `ISO9660_Mount`, `WOD_Mount` and so on, by the row
-- that they serve; the `disc_…` calls go through the row's `disc` interface; `copy_to` is `memmove`
-- to an absolute address; `enter` jumps to one; `allocate_framebuffer` answers the uncached address. The payload of `interrupts` lists the button callbacks
-- of source/reset.c that ran since the flags there were last read: 0 for reset, others for power.
pub data Call : Type 0 where
  net_socket : Call
  net_bind : S32 → ℕ → Call
  net_listen : S32 → ℕ → Call
  net_accept : S32 → Call
  net_connect : S32 → ℕ → ℕ → Call
  net_read : S32 → ℕ → Call
  net_write : S32 → Bytes → Call
  net_close : S32 → Call
  net_getfl : S32 → Call
  net_setfl : S32 → ℕ → Call
  net_gethostip : Call
  malloc : ℕ → Call
  gettime : Call
  fopen : Bytes → Bytes → Call
  fclose : ℕ → Call
  lseek : ℕ → ℕ → Call
  fread : ℕ → ℕ → Call
  fwrite : ℕ → Bytes → Call
  feof : ℕ → Call
  stat : Bytes → Call
  unlink : Bytes → Call
  mkdir : Bytes → ℕ → Call
  rename : Bytes → Bytes → Call
  diropen : Bytes → Call
  dirnext : ℕ → Call
  dirclose : ℕ → Call
  fstat : ℕ → Call
  usleep : ℕ → Call
  di_mount : Call
  di_ready : Call
  di_stop_motor : Call
  di_eject : Call
  last_access : Partition → Call
  driver_mount : Partition → Call
  driver_unmount : Partition → Call
  disc_startup : Partition → Call
  disc_shutdown : Partition → Call
  fat_mount : Partition → Call
  fat_unmount : Partition → Call
  ntfs_find_partitions : Partition → Call
  ntfs_mount : Partition → ℕ → Call
  ntfs_unmount : Partition → Call
  copy_to : ℕ → Bytes → Call
  invalidate : ℕ → ℕ → Call
  flush : ℕ → ℕ → Call
  shutdown_subsystems : Call
  enter : ℕ → Call
  net_init net_deinit : Call
  di_init di_close di_cover : Call
  disc_is_inserted : Partition → Call
  isfs_su isfs_initialize isfs_deinitialize : Call
  wpad_init wpad_scan wpad_down pad_init pad_scan pad_down : Call
  vsync interrupts power_off : Call
  set_reset_callback set_power_callback wpad_set_power_callback : Call
  video_init video_preferred_mode video_flush : Call
  video_configure allocate_framebuffer set_next_framebuffer : ℕ → Call
  clear_framebuffer : ℕ → ℕ → Call
  video_set_black con_enable_gecko : Bool → Call
  con_init : ℕ → ℕ → ℕ → ℕ → ℕ → Call

-- The buttons that the source asks for. `button_1` is also the X of a GameCube controller.
pub data Button : Type 0 where
  button_a button_b button_left button_right button_up button_down button_1 : Button

-- `struct stat`, as far as the source reads it
pub record Stat : Type 0 where
  pub is_dir : Bool
  pub size : ℕ
  pub mtime : ℕ

-- `GXRModeObj`, as far as the source reads it; `non_interlace` is `viTVMode & VI_NON_INTERLACE`.
pub record VideoMode : Type 0 where
  pub non_interlace : Bool
  pub fb_width : ℕ
  pub xfb_height : ℕ

-- The result of a call; `payload` and `info` are what it stores through a pointer. A call that
-- yields a pointer answers `err` for NULL, and `err e` sets errno to e where the call does.
pub record Answer : Type 0 where
  pub code : S32
  pub payload : Bytes
  pub info : Stat

-- The three ways in which the source tells results apart.
pub S32-cases : (x : S32) → (x ≡ val 0) ⊎ ((n : ℕ) × (x ≡ val (suc n))) ⊎ ((e : Code) × (x ≡ err e))
S32-cases (val zero) = inl refl
S32-cases (val (suc n)) = inr (inl (n, refl))
S32-cases (err e) = inr (inr (e, refl))

-- The test `x < 0`.
pub S32-sign : (x : S32) → ((n : ℕ) × (x ≡ val n)) ⊎ ((e : Code) × (x ≡ err e))
S32-sign (val n) = inl (n, refl)
S32-sign (err e) = inr (e, refl)

-- An `int` or `bool` as a condition.
abbrev pub truth : S32 → Bool
truth (val zero) = false
truth _ = true

-- an unsigned result
abbrev pub unsigned : S32 → ℕ
unsigned (val n) = n
unsigned (err _) = 0

-- a pointer result
abbrev pub handle : S32 → Option ℕ
handle (val h) = some h
handle (err _) = none

pub record Event : Type 0 where
  pub call : Call
  pub answer : Answer

-- The environment. `ram` is what stands in memory before an executable is read into it. `argv_at` is the
-- address of the `struct __argv` in source/loader.c, `argv_image` its bytes by the command line's address
-- and its length, and `has_argv_magic` the test of these bytes for ARGV_MAGIC. The laws are documented behaviour: `net_write` takes no more bytes than it is
-- offered, `net_read` counts what it stores, and neither it nor `fread` overruns the buffer. (Of
-- `fread` the payload's length is the result.)
pub record Os : Type 0 where
  pub respond : List Event → Call → Answer
  pub maxpathlen : ℕ
  pub sizeof_dir_iter : ℕ
  pub sizeof_client : ℕ
  pub sizeof_argv : ℕ
  pub argv_at : ℕ
  pub argv_image : ℕ → ℕ → Bytes
  pub has_argv_magic : Bytes → Bool
  pub garbage : Stat
  pub video_mode : ℕ → VideoMode
  pub strerror : Code → Bytes
  pub inet_aton : Bytes → Option ℕ
  pub htons : ℕ → ℕ
  pub secs_to_ticks : ℕ → ℕ
  pub ram : ℕ → ℕ
  pub timestamp : ℕ → Bytes
  pub wpad_has : ℕ → Button → Bool
  pub pad_has : ℕ → Button → Bool
  pub net_write-le :
      (past : List Event) (s : S32) (b : Bytes) (n : ℕ)
      → (respond past (net_write s b)).code ≡ val n
      → n ≤ length b
  pub net_read-le :
      (past : List Event) (s : S32) (len n : ℕ)
      → (respond past (net_read s len)).code ≡ val n
      → (n ≤ len) × (length (respond past (net_read s len)).payload ≡ n)
  pub fread-le : (past : List Event) (f len : ℕ) → length (respond past (fread f len)).payload ≤ len
