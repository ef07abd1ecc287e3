-- ===== src/Ftp/Account.antt =====
-- The password, and the commands that a client may give before it has logged in, source/ftp.c.
use ftpii.Base.{
  ℕ, ◌+◌, length, Bool, true, false, [], ◌∷◌, Option, none, some, Bytes, codes, equal,
  if◌then◌else◌,
}
use ftpii.Os.{Call, val, err, equit, Os}
use ftpii.World.{M, pure, done, call, ◌>>=◌, ◌>>◌}
use ftpii.Reset.{die}
use ftpii.Ftp.Reply.{Handler, modify, write_reply, close_passive_socket}

abbrev get_password : M (Option Bytes)
get_password w = done w.ftp.password w

-- `password = …`
unfoldable pub assign_password : Option Bytes → M (Unit {0})
assign_password new_password w =
    done tt (record w { ftp = record w.ftp { password = new_password } })

-- `!password || !strcmp(password, password_attempt)`
unfoldable pub compare_ftp_password : Option Bytes → Bytes → Bool
unfolding equal
compare_ftp_password none password_attempt = true
compare_ftp_password (some password) password_attempt = equal password password_attempt

module _ ⦃os : Os⦄ where
  -- The new password; `none` is NULL. `fuel` is for the wait of `die`.
  unfoldable pub set_ftp_password : ℕ → Option Bytes → M (Unit {0})
  unfolding call assign_password die
  set_ftp_password fuel none = assign_password none
  set_ftp_password fuel (some new_password) = do
    got ← call (Call.malloc (length new_password + 1))
    elim got.code [
      | err _ ↦ do assign_password none; die fuel
      | val _ ↦ assign_password (some new_password)
    ]

  unfoldable pub ftp_user : Handler
  ftp_user client username = write_reply client 331 (codes "User name okay, need password.")

  unfoldable pub ftp_pass : Handler
  unfolding modify
  ftp_pass client password_attempt = do
    password ← get_password
    if compare_ftp_password password password_attempt
        then (do
          modify client (λ c. record c { authenticated = true })
          write_reply client 230 (codes "User logged in, proceed."))
        else write_reply client 530 (codes "Login incorrect.")

  unfoldable pub ftp_rein : Handler
  unfolding modify
  ftp_rein client rest = do
    close_passive_socket client
    modify client
        (λ c. record c { cwd = b'/' ∷ []; representation_type = b'A'; authenticated = false })
    write_reply client 220 (codes "Service ready for new user.")

  -- `result < 0 ? result : -EQUIT`
  unfoldable pub ftp_quit : Handler
  ftp_quit client rest = do
    result ← write_reply client 221 (codes "Service closing control connection.")
    elim result [ err e ↦ pure (err e) | val _ ↦ pure (err equit) ]

  unfoldable pub ftp_noop : Handler
  ftp_noop client rest = write_reply client 200 (codes "NOOP command successful.")

  unfoldable pub ftp_superfluous : Handler
  ftp_superfluous client rest =
      write_reply client 202 (codes "Command not implemented, superfluous at this site.")

  unfoldable pub ftp_needauth : Handler
  ftp_needauth client rest = write_reply client 530 (codes "Please login with USER and PASS.")

  unfoldable pub ftp_unknown : Handler
  ftp_unknown client rest = write_reply client 502 (codes "Command not implemented.")
