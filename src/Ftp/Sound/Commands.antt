-- ===== src/Ftp/Sound/Commands.antt =====
-- The commands of source/ftp.c that open no data connection keep the invariant.
use ftpii.Base.{
  ◌+◌, ℕ, true, false, [], ◌∷◌, ◌++◌, Option, none, some, refl, ◌==◌, length, decimal, codes, Bytes,
  equal_nocase,
}
use ftpii.Os.{err, equit, Call, Os, truth}
use ftpii.World.Keeps.{ended, Keeps-bind, Keeps-then, Keeps-pure, Keeps-if, Keeps-S32, Keeps-Option}
use ftpii.World.Apart.{call-Apart}
use ftpii.Fs.Frame.{mount_virtual-Apart, unmount_virtual-Apart, dvd_eject-Apart}
use ftpii.Vrt.Frame.{
  to_real_path-Apart, vrt_fopen-Apart, vrt_stat-Apart, vrt_chdir-Apart, vrt_unlink-Apart,
  vrt_mkdir-Apart, vrt_rename-Apart,
}
use ftpii.Loader.Frame.{load_from_file-Apart}
use ftpii.Reset.{set_reset_flag}
use ftpii.Reset.Frame.{die-Apart}
use ftpii.Ftp.Split.{split, field}
use ftpii.Ftp.Account.{
  set_ftp_password, assign_password, compare_ftp_password, ftp_user, ftp_pass, ftp_rein, ftp_quit,
  ftp_noop, ftp_superfluous, ftp_needauth, ftp_unknown,
}
use ftpii.Ftp.Files.{
  syntax_error, first_byte, is_empty, valid_type, ftp_syst, ftp_type, ftp_mode, ftp_pwd, change_dir,
  ftp_cwd, ftp_cdup, ftp_dele, ftp_mkd, ftp_rnfr, ftp_rnto, ftp_size,
}
use ftpii.Ftp.Site.{
  ftp_site_loader, ftp_site_clear, ftp_site_chmod, ftp_site_passwd, ftp_site_nopasswd,
  ftp_site_eject, ftp_site_mount, ftp_site_unmount, ftp_site_unknown, ftp_site_load,
}
use ftpii.Ftp.Sound.Live.{
  Lives-frame, Serving, Serving-Apart, Serving-modify, Serving-load, Stays-statics,
  write_reply-Live, write_error-Live, close_passive_socket-Live,
}

-- The password is no part of the invariant.
assign_password-Live : (p : ℕ) (o : Option Bytes) → Serving p (assign_password o)
unfolding assign_password
assign_password-Live p o = record {
  run = λ w i. ended (λ u l. Stays-statics p u w.ftp w.ftp.passive_port o l);
}

reset-Live : (p : ℕ) → Serving p set_reset_flag
unfolding set_reset_flag
reset-Live p = record { run = λ w i. ended (λ u l. l) }

module _ ⦃os : Os⦄ where
  pub ftp_user-Live : (p : ℕ) (rest : Bytes) → Serving p (ftp_user p rest)
  unfolding ftp_user
  ftp_user-Live p rest = write_reply-Live p 331 (codes "User name okay, need password.")

  pub ftp_pass-Live : (p : ℕ) (rest : Bytes) → Serving p (ftp_pass p rest)
  unfolding ftp_pass
  ftp_pass-Live p rest = record {
    run = λ w i.
        let answer =
          Keeps-if (compare_ftp_password w.ftp.password rest)
            (Keeps-then (Serving-modify p (λ c. record c { authenticated = true }) (λ c. refl))
              (write_reply-Live p 230 (codes "User logged in, proceed.")))
            (write_reply-Live p 530 (codes "Login incorrect.")) in
        answer.run w i;
  }

  pub ftp_rein-Live : (p : ℕ) (rest : Bytes) → Serving p (ftp_rein p rest)
  unfolding ftp_rein
  ftp_rein-Live p rest = Keeps-then (close_passive_socket-Live p) (
      Keeps-then
        (Serving-modify p
          (λ c. record c { cwd = b'/' ∷ []; representation_type = b'A'; authenticated = false })
          (λ c. refl))
        (write_reply-Live p 220 (codes "Service ready for new user.")))

  pub ftp_quit-Live : (p : ℕ) (rest : Bytes) → Serving p (ftp_quit p rest)
  unfolding ftp_quit
  ftp_quit-Live p rest =
      Keeps-bind (write_reply-Live p 221 (codes "Service closing control connection."))
        λ result. Keeps-S32 result (λ n. Keeps-pure (err equit)) (λ e. Keeps-pure (err e))

  pub ftp_noop-Live : (p : ℕ) (rest : Bytes) → Serving p (ftp_noop p rest)
  unfolding ftp_noop
  ftp_noop-Live p rest = write_reply-Live p 200 (codes "NOOP command successful.")

  pub ftp_superfluous-Live : (p : ℕ) (rest : Bytes) → Serving p (ftp_superfluous p rest)
  unfolding ftp_superfluous
  ftp_superfluous-Live p rest =
      write_reply-Live p 202 (codes "Command not implemented, superfluous at this site.")

  pub ftp_needauth-Live : (p : ℕ) (rest : Bytes) → Serving p (ftp_needauth p rest)
  unfolding ftp_needauth
  ftp_needauth-Live p rest = write_reply-Live p 530 (codes "Please login with USER and PASS.")

  pub ftp_unknown-Live : (p : ℕ) (rest : Bytes) → Serving p (ftp_unknown p rest)
  unfolding ftp_unknown
  ftp_unknown-Live p rest = write_reply-Live p 502 (codes "Command not implemented.")

  pub ftp_syst-Live : (p : ℕ) (rest : Bytes) → Serving p (ftp_syst p rest)
  unfolding ftp_syst
  ftp_syst-Live p rest = write_reply-Live p 215 (codes "UNIX Type: L8 Version: ftpii")

  pub ftp_type-Live : (p : ℕ) (rest : Bytes) → Serving p (ftp_type p rest)
  unfolding ftp_type
  ftp_type-Live p rest =
      let args = split rest b' ' 1 in
      Keeps-if (length args == 0) (write_reply-Live p 501 syntax_error) (
        Keeps-if (valid_type args)
          (Keeps-then
            (Serving-modify p (λ c. record c { representation_type = first_byte (field args 0) })
              (λ c. refl))
            (write_reply-Live p 200 (codes "Type set to " ++ (field args 0 ++ codes "."))))
          (write_reply-Live p 501 syntax_error))

  pub ftp_mode-Live : (p : ℕ) (rest : Bytes) → Serving p (ftp_mode p rest)
  unfolding ftp_mode
  ftp_mode-Live p rest =
      Keeps-if (equal_nocase (codes "S") rest) (write_reply-Live p 200 (codes "Mode S ok."))
        (write_reply-Live p 501 syntax_error)

  pub ftp_pwd-Live : (p : ℕ) (rest : Bytes) → Serving p (ftp_pwd p rest)
  unfolding ftp_pwd
  ftp_pwd-Live p rest =
      Serving-load
        λ c. write_reply-Live p 257 (codes "\"" ++ (c.cwd ++ codes "\" is current directory."))

  change_dir-Live : (p : ℕ) (path success : Bytes) → Serving p (change_dir p path success)
  unfolding change_dir
  change_dir-Live p path success = Serving-load λ c.
      Keeps-bind (Serving-Apart (vrt_chdir-Apart c.cwd path os.garbage)) λ moved.
        Keeps-Option moved (write_error-Live p) λ cwd'.
          Keeps-then (Serving-modify p (λ d. record d { cwd = cwd' }) (λ d. refl))
            (write_reply-Live p 250 success)

  pub ftp_cwd-Live : (p : ℕ) (rest : Bytes) → Serving p (ftp_cwd p rest)
  unfolding ftp_cwd
  ftp_cwd-Live p rest = change_dir-Live p rest (codes "CWD command successful.")

  pub ftp_cdup-Live : (p : ℕ) (rest : Bytes) → Serving p (ftp_cdup p rest)
  unfolding ftp_cdup
  ftp_cdup-Live p rest = change_dir-Live p (codes "..") (codes "CDUP command successful.")

  pub ftp_dele-Live : (p : ℕ) (rest : Bytes) → Serving p (ftp_dele p rest)
  unfolding ftp_dele
  ftp_dele-Live p rest = Serving-load λ c.
      Keeps-bind (Serving-Apart (vrt_unlink-Apart c.cwd rest)) λ removed.
        Keeps-if removed (write_reply-Live p 250 (codes "File or directory removed."))
          (write_error-Live p)

  pub ftp_mkd-Live : (p : ℕ) (rest : Bytes) → Serving p (ftp_mkd p rest)
  unfolding ftp_mkd
  ftp_mkd-Live p rest = Keeps-if (is_empty rest) (write_reply-Live p 501 syntax_error) (
      Serving-load λ c. Keeps-bind (Serving-Apart (vrt_mkdir-Apart c.cwd rest 0o777)) λ made.
        Keeps-if made
          (Keeps-bind (Serving-Apart (vrt_chdir-Apart c.cwd rest os.garbage)) λ moved.
            write_reply-Live p 257 (
              codes "\""
              ++ ((elim moved [ some s ↦ s | none ↦ c.cwd ]) ++ codes "\" directory created.")))
          (write_error-Live p))

  pub ftp_rnfr-Live : (p : ℕ) (rest : Bytes) → Serving p (ftp_rnfr p rest)
  unfolding ftp_rnfr
  ftp_rnfr-Live p rest =
      Keeps-then (Serving-modify p (λ c. record c { pending_rename = rest }) (λ c. refl))
        (write_reply-Live p 350 (codes "Ready for RNTO."))

  pub ftp_rnto-Live : (p : ℕ) (rest : Bytes) → Serving p (ftp_rnto p rest)
  unfolding ftp_rnto
  ftp_rnto-Live p rest = Serving-load λ c.
      Keeps-if (is_empty c.pending_rename) (write_reply-Live p 503 (codes "RNFR required first.")) (
        Keeps-bind (Serving-Apart (vrt_rename-Apart c.cwd c.pending_rename rest)) λ renamed.
          Keeps-bind
            (Keeps-if renamed (write_reply-Live p 250 (codes "Rename successful."))
              (write_error-Live p))
            λ result.
              Keeps-then (Serving-modify p (λ d. record d { pending_rename = [] }) (λ d. refl))
                (Keeps-pure result))

  pub ftp_size-Live : (p : ℕ) (rest : Bytes) → Serving p (ftp_size p rest)
  unfolding ftp_size
  ftp_size-Live p rest = Serving-load λ c.
      Keeps-bind (Serving-Apart (vrt_stat-Apart c.cwd rest os.garbage)) λ st.
        Keeps-Option st (write_error-Live p) λ found. write_reply-Live p 213 (decimal found.size)

  pub ftp_site_loader-Live : (p : ℕ) (rest : Bytes) → Serving p (ftp_site_loader p rest)
  unfolding ftp_site_loader
  ftp_site_loader-Live p rest =
      Keeps-bind (write_reply-Live p 200 (codes "Exiting to loader."))
        λ result. Keeps-then (reset-Live p) (Keeps-pure result)

  pub ftp_site_clear-Live : (p : ℕ) (rest : Bytes) → Serving p (ftp_site_clear p rest)
  unfolding ftp_site_clear
  ftp_site_clear-Live p rest = write_reply-Live p 200 (codes "Cleared.")

  pub ftp_site_chmod-Live : (p : ℕ) (rest : Bytes) → Serving p (ftp_site_chmod p rest)
  unfolding ftp_site_chmod
  ftp_site_chmod-Live p rest = write_reply-Live p 250 (codes "SITE CHMOD command ok.")

  password-Live : (fuel p : ℕ) (o : Option Bytes) → Serving p (set_ftp_password fuel o)
  unfolding set_ftp_password
  password-Live fuel p none = record { run = λ w i. (assign_password-Live p none).run w i }
  password-Live fuel p (some new_password) =
      let steps =
        Keeps-bind (Serving-Apart (call-Apart (Call.malloc (length new_password + 1)))) λ got.
          Keeps-S32 got.code (λ n. assign_password-Live p (some new_password))
            (λ e. Keeps-then (assign_password-Live p none) (Serving-Apart (die-Apart fuel))) in
      record { run = λ w i. steps.run w i }

  pub ftp_site_passwd-Live : (fuel p : ℕ) (rest : Bytes) → Serving p (ftp_site_passwd fuel p rest)
  unfolding ftp_site_passwd
  ftp_site_passwd-Live fuel p rest =
      Keeps-then (password-Live fuel p (some rest))
        (write_reply-Live p 200 (codes "Password changed."))

  pub ftp_site_nopasswd-Live :
      (fuel p : ℕ) (rest : Bytes) → Serving p (ftp_site_nopasswd fuel p rest)
  unfolding ftp_site_nopasswd
  ftp_site_nopasswd-Live fuel p rest =
      Keeps-then (password-Live fuel p none)
        (write_reply-Live p 200 (codes "Authentication disabled."))

  pub ftp_site_eject-Live : (p : ℕ) (rest : Bytes) → Serving p (ftp_site_eject p rest)
  unfolding ftp_site_eject
  ftp_site_eject-Live p rest = Keeps-bind (Serving-Apart dvd_eject-Apart) λ result.
      Keeps-if (truth result) (write_reply-Live p 550 (codes "Unable to eject DVD."))
        (write_reply-Live p 200 (codes "DVD ejected."))

  pub ftp_site_mount-Live : (fuel p : ℕ) (rest : Bytes) → Serving p (ftp_site_mount fuel p rest)
  unfolding ftp_site_mount
  ftp_site_mount-Live fuel p rest =
      Keeps-bind (Serving-Apart (mount_virtual-Apart fuel rest)) λ success.
        Keeps-if success (write_reply-Live p 250 (codes "Mounted."))
          (write_reply-Live p 550 (codes "Unable to mount."))

  pub ftp_site_unmount-Live : (p : ℕ) (rest : Bytes) → Serving p (ftp_site_unmount p rest)
  unfolding ftp_site_unmount
  ftp_site_unmount-Live p rest = Keeps-bind (Serving-Apart (unmount_virtual-Apart rest)) λ success.
      Keeps-if success (write_reply-Live p 250 (codes "Unmounted."))
        (write_reply-Live p 550 (codes "Unable to unmount."))

  pub ftp_site_unknown-Live : (p : ℕ) (rest : Bytes) → Serving p (ftp_site_unknown p rest)
  unfolding ftp_site_unknown
  ftp_site_unknown-Live p rest = write_reply-Live p 501 (codes "Unknown SITE command.")

  pub ftp_site_load-Live : (fuel p : ℕ) (rest : Bytes) → Serving p (ftp_site_load fuel p rest)
  unfolding ftp_site_load
  ftp_site_load-Live fuel p rest = Serving-load λ c.
      Keeps-bind (Serving-Apart (vrt_fopen-Apart c.cwd rest (codes "rb"))) λ opened.
        Keeps-Option opened (write_error-Live p) λ f.
          Keeps-bind (Serving-Apart (to_real_path-Apart c.cwd rest)) λ real_path.
            Keeps-then
              (Keeps-Option real_path (Keeps-pure tt)
                λ real. Serving-Apart (load_from_file-Apart fuel f real))
              (Keeps-then (Serving-Apart (call-Apart (Call.fclose f)))
                (write_reply-Live p 500 (codes "Unable to load.")))
