-- ===== src/Ftp/Site.antt =====
-- The SITE commands, source/ftp.c.
use ftpii.Base.{ℕ, none, some, codes, if◌then◌else◌}
use ftpii.Os.{Call, Os, truth}
use ftpii.World.{pure, call, load, ◌>>=◌, ◌>>◌}
use ftpii.Reset.{set_reset_flag}
use ftpii.Dvd.Media.{dvd_eject}
use ftpii.Fs.Mount.{mount_virtual, unmount_virtual}
use ftpii.Vrt.{vrt_fopen, to_real_path}
use ftpii.Loader.{load_from_file}
use ftpii.Ftp.Account.{set_ftp_password}
use ftpii.Ftp.Reply.{Handler, write_reply, write_error}

module _ ⦃os : Os⦄ where
  unfoldable pub ftp_site_loader : Handler
  ftp_site_loader client rest = do
    result ← write_reply client 200 (codes "Exiting to loader.")
    set_reset_flag
    pure result

  -- (It also clears the console.)
  unfoldable pub ftp_site_clear : Handler
  ftp_site_clear client rest = write_reply client 200 (codes "Cleared.")

  unfoldable pub ftp_site_chmod : Handler
  ftp_site_chmod client rest = write_reply client 250 (codes "SITE CHMOD command ok.")

  -- `fuel` is for the wait of `die`, where memory is short.
  unfoldable pub ftp_site_passwd : ℕ → Handler
  ftp_site_passwd fuel client new_password = do
    set_ftp_password fuel (some new_password)
    write_reply client 200 (codes "Password changed.")

  unfoldable pub ftp_site_nopasswd : ℕ → Handler
  ftp_site_nopasswd fuel client rest = do
    set_ftp_password fuel none
    write_reply client 200 (codes "Authentication disabled.")

  unfoldable pub ftp_site_eject : Handler
  ftp_site_eject client rest = do
    result ← dvd_eject
    if truth result
        then write_reply client 550 (codes "Unable to eject DVD.")
        else write_reply client 200 (codes "DVD ejected.")

  -- `fuel` bounds the wait for the drive.
  unfoldable pub ftp_site_mount : ℕ → Handler
  ftp_site_mount fuel client path = do
    success ← mount_virtual fuel path
    if success
        then write_reply client 250 (codes "Mounted.")
        else write_reply client 550 (codes "Unable to mount.")

  unfoldable pub ftp_site_unmount : Handler
  ftp_site_unmount client path = do
    success ← unmount_virtual path
    if success
        then write_reply client 250 (codes "Unmounted.")
        else write_reply client 550 (codes "Unable to unmount.")

  unfoldable pub ftp_site_unknown : Handler
  ftp_site_unknown client rest = write_reply client 501 (codes "Unknown SITE command.")

  -- `fuel` bounds the rounds in which the executable is read.
  unfoldable pub ftp_site_load : ℕ → Handler
  unfolding load call
  ftp_site_load fuel client path = do
    c ← load client
    opened ← vrt_fopen c.cwd path (codes "rb")
    elim opened [
      | none ↦ write_error client
      | some f ↦ do
        real_path ← to_real_path c.cwd path
        elim real_path [ none ↦ pure tt | some real ↦ load_from_file fuel f real ]
        call (Call.fclose f)
        write_reply client 500 (codes "Unable to load.")
    ]
