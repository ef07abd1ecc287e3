-- ===== src/Ftp/Files.antt =====
-- The commands on names and settings, source/ftp.c.
use ftpii.Base.{
  ℕ, Bool, true, false, ◌&&◌, ◌||◌, List, [], ◌∷◌, ◌++◌, none, some, Bytes, ◌==◌, codes, decimal,
  equal_nocase, if◌then◌else◌, length,
}
use ftpii.Os.{S32, Os}
use ftpii.World.{M, pure, load, ◌>>=◌, ◌>>◌}
use ftpii.Vrt.{vrt_chdir, vrt_unlink, vrt_mkdir, vrt_rename, vrt_stat}
use ftpii.Ftp.Split.{split, field}
use ftpii.Ftp.Reply.{Handler, modify, write_reply, write_error}

abbrev pub syntax_error : Bytes
syntax_error = codes "Syntax error in parameters."

-- the first byte of a string, its terminator if it is empty
abbrev pub first_byte : Bytes → ℕ
first_byte [] = 0
first_byte (c ∷ _) = c

-- `*s` as a condition
abbrev pub is_empty : Bytes → Bool
is_empty [] = true
is_empty _ = false

-- The tests of `ftp_TYPE` on its arguments.
unfoldable pub valid_type : List Bytes → Bool
unfolding equal_nocase
valid_type args =
    (equal_nocase (codes "A") (field args 0)
      && (is_empty (field args 1) || equal_nocase (codes "N") (field args 1)))
    || (equal_nocase (codes "I") (field args 0) && length args == 1)

module _ ⦃os : Os⦄ where
  unfoldable pub ftp_syst : Handler
  ftp_syst client rest = write_reply client 215 (codes "UNIX Type: L8 Version: ftpii")

  unfoldable pub ftp_type : Handler
  unfolding modify
  ftp_type client rest =
      let args = split rest b' ' 1 in
      if length args == 0
      then write_reply client 501 syntax_error
      else if valid_type args
      then (do
        modify client (λ c. record c { representation_type = first_byte (field args 0) })
        write_reply client 200 (codes "Type set to " ++ (field args 0 ++ codes ".")))
      else write_reply client 501 syntax_error

  unfoldable pub ftp_mode : Handler
  ftp_mode client rest =
      if equal_nocase (codes "S") rest
      then write_reply client 200 (codes "Mode S ok.")
      else write_reply client 501 syntax_error

  unfoldable pub ftp_pwd : Handler
  unfolding load
  ftp_pwd client rest = do
    c ← load client
    write_reply client 257 (codes "\"" ++ (c.cwd ++ codes "\" is current directory."))

  -- The shared body of `ftp_CWD` and `ftp_CDUP`: they differ in the path and in the reply.
  unfoldable pub change_dir : ℕ → Bytes → Bytes → M S32
  unfolding load modify
  change_dir client path success = do
    c ← load client
    moved ← vrt_chdir c.cwd path os.garbage
    elim moved [
      | some cwd' ↦ do modify client (λ d. record d { cwd = cwd' }); write_reply client 250 success
      | none ↦ write_error client
    ]

  unfoldable pub ftp_cwd : Handler
  ftp_cwd client path = change_dir client path (codes "CWD command successful.")

  unfoldable pub ftp_cdup : Handler
  ftp_cdup client rest = change_dir client (codes "..") (codes "CDUP command successful.")

  unfoldable pub ftp_dele : Handler
  unfolding load
  ftp_dele client path = do
    c ← load client
    removed ← vrt_unlink c.cwd path
    if removed
        then write_reply client 250 (codes "File or directory removed.")
        else write_error client

  -- Where `vrt_chdir` fails, `abspath` is the client's own directory.
  unfoldable pub ftp_mkd : Handler
  unfolding load
  ftp_mkd client path = if is_empty path then write_reply client 501 syntax_error else (do
    c ← load client
    made ← vrt_mkdir c.cwd path 0o777
    if made
        then (do
          moved ← vrt_chdir c.cwd path os.garbage
          let abspath : Bytes = elim moved [ some s ↦ s | none ↦ c.cwd ]
          write_reply client 257 (codes "\"" ++ (abspath ++ codes "\" directory created.")))
        else write_error client)

  unfoldable pub ftp_rnfr : Handler
  unfolding modify
  ftp_rnfr client path = do
    modify client (λ c. record c { pending_rename = path })
    write_reply client 350 (codes "Ready for RNTO.")

  unfoldable pub ftp_rnto : Handler
  unfolding load modify
  ftp_rnto client path = do
    c ← load client
    if is_empty c.pending_rename then write_reply client 503 (codes "RNFR required first.") else (do
      renamed ← vrt_rename c.cwd c.pending_rename path
      result ←
          (if renamed
            then write_reply client 250 (codes "Rename successful.")
            else write_error client)
      modify client (λ d. record d { pending_rename = [] })
      pure result)

  unfoldable pub ftp_size : Handler
  unfolding load
  ftp_size client path = do
    c ← load client
    st ← vrt_stat c.cwd path os.garbage
    elim st [ some found ↦ write_reply client 213 (decimal found.size) | none ↦ write_error client ]
