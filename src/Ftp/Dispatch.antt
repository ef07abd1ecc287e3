-- ===== src/Ftp/Dispatch.antt =====
-- Command lines and the tables of commands, source/ftp.c. The fuel goes to the commands that wait.
pub mod Tables
pub mod Live
pub mod Guard
use ftpii.Base.{
  ℕ, zero, suc, ◌+◌, Bool, true, false, List, [], ◌∷◌, Option, none, some, Bytes, codes,
  equal_nocase, if◌then◌else◌, get_elem?,
}
use ftpii.Os.{S32, val, Os}
use ftpii.World.{World, M, pure, fault, load, ◌>>=◌, ◌>>◌}
use ftpii.Ftp.Split.{split, field}
use ftpii.Ftp.Reply.{Handler}
use ftpii.Ftp.Account.{
  ftp_user, ftp_pass, ftp_rein, ftp_quit, ftp_noop, ftp_superfluous, ftp_needauth, ftp_unknown,
}
use ftpii.Ftp.Files.{
  ftp_syst, ftp_type, ftp_mode, ftp_pwd, ftp_cwd, ftp_cdup, ftp_dele, ftp_mkd, ftp_rnfr, ftp_rnto,
  ftp_size,
}
use ftpii.Ftp.Data.{ftp_pasv, ftp_port, ftp_nlst, ftp_list, ftp_retr, ftp_stor, ftp_appe, ftp_rest}
use ftpii.Ftp.Site.{
  ftp_site_loader, ftp_site_clear, ftp_site_chmod, ftp_site_passwd, ftp_site_nopasswd,
  ftp_site_eject, ftp_site_mount, ftp_site_unmount, ftp_site_load, ftp_site_unknown,
}

-- the index at which the loop of `dispatch_to_handler` breaks, or ends
unfoldable pub find_command : Bytes → List Bytes → ℕ
find_command cmd [] = 0
find_command cmd (name ∷ names) = if equal_nocase name cmd then 0 else suc (find_command cmd names)

-- `handlers[i]`: no handler stands behind the end of the table.
unfoldable pub run_handler : Option Handler → Handler
run_handler none client rest w = fault
run_handler (some handler) client rest w = handler client rest w

unfoldable pub dispatch_to_handler : ℕ → Bytes → List Bytes → List Handler → M S32
dispatch_to_handler client cmd_line commands handlers =
    let args = split cmd_line b' ' 1 in
    run_handler (get_elem? handlers (find_command (field args 0) commands)) client (field args 1)

abbrev pub site_commands : List Bytes
site_commands =
    codes "LOADER"
    ∷ codes "CLEAR"
    ∷ codes "CHMOD"
    ∷ codes "PASSWD"
    ∷ codes "NOPASSWD"
    ∷ codes "EJECT"
    ∷ codes "MOUNT"
    ∷ codes "UNMOUNT"
    ∷ codes "LOAD"
    ∷ []

abbrev pub unauthenticated_commands : List Bytes
unauthenticated_commands =
    codes "USER" ∷ codes "PASS" ∷ codes "QUIT" ∷ codes "REIN" ∷ codes "NOOP" ∷ []

abbrev pub authenticated_commands : List Bytes
authenticated_commands =
    codes "USER"
    ∷ codes "PASS"
    ∷ codes "LIST"
    ∷ codes "PWD"
    ∷ codes "CWD"
    ∷ codes "CDUP"
    ∷ codes "SIZE"
    ∷ codes "PASV"
    ∷ codes "PORT"
    ∷ codes "TYPE"
    ∷ codes "SYST"
    ∷ codes "MODE"
    ∷ codes "RETR"
    ∷ codes "STOR"
    ∷ codes "APPE"
    ∷ codes "REST"
    ∷ codes "DELE"
    ∷ codes "MKD"
    ∷ codes "RMD"
    ∷ codes "RNFR"
    ∷ codes "RNTO"
    ∷ codes "NLST"
    ∷ codes "QUIT"
    ∷ codes "REIN"
    ∷ codes "SITE"
    ∷ codes "NOOP"
    ∷ codes "ALLO"
    ∷ []

module _ ⦃os : Os⦄ where
  abbrev pub unauthenticated_handlers : List Handler
  unauthenticated_handlers =
      ftp_user ∷ ftp_pass ∷ ftp_quit ∷ ftp_rein ∷ ftp_noop ∷ ftp_needauth ∷ []

  abbrev pub site_handlers : ℕ → List Handler
  site_handlers fuel =
      ftp_site_loader
      ∷ ftp_site_clear
      ∷ ftp_site_chmod
      ∷ ftp_site_passwd fuel
      ∷ ftp_site_nopasswd fuel
      ∷ ftp_site_eject
      ∷ ftp_site_mount fuel
      ∷ ftp_site_unmount
      ∷ ftp_site_load fuel
      ∷ ftp_site_unknown
      ∷ []

  unfoldable pub ftp_site : ℕ → Handler
  ftp_site fuel client cmd_line =
      dispatch_to_handler client cmd_line site_commands (site_handlers fuel)

  abbrev pub authenticated_handlers : ℕ → List Handler
  authenticated_handlers fuel =
      ftp_user
      ∷ ftp_pass
      ∷ ftp_list
      ∷ ftp_pwd
      ∷ ftp_cwd
      ∷ ftp_cdup
      ∷ ftp_size
      ∷ ftp_pasv
      ∷ ftp_port
      ∷ ftp_type
      ∷ ftp_syst
      ∷ ftp_mode
      ∷ ftp_retr
      ∷ ftp_stor
      ∷ ftp_appe
      ∷ ftp_rest
      ∷ ftp_dele
      ∷ ftp_mkd
      ∷ ftp_dele
      ∷ ftp_rnfr
      ∷ ftp_rnto
      ∷ ftp_nlst
      ∷ ftp_quit
      ∷ ftp_rein
      ∷ ftp_site fuel
      ∷ ftp_noop
      ∷ ftp_superfluous
      ∷ ftp_unknown
      ∷ []

  unfoldable pub process_command : ℕ → Handler
  unfolding load
  process_command fuel client [] = pure (val 0)
  process_command fuel client (b ∷ bs) = do
    c ← load client
    if c.authenticated
        then dispatch_to_handler client (b ∷ bs) authenticated_commands
            (authenticated_handlers fuel)
        else dispatch_to_handler client (b ∷ bs) unauthenticated_commands unauthenticated_handlers
