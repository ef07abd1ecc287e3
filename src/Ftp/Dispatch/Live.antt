-- ===== src/Ftp/Dispatch/Live.antt =====
-- Every command line of source/ftp.c keeps the invariant.
use ftpii.Base.{ℕ, zero, suc, ◌≡◌, sym, subst, List, [], ◌∷◌, some, Bytes, All, get_elem?}
use ftpii.Os.{val, Os}
use ftpii.World.{World, Client}
use ftpii.World.Keeps.{After, Keeps-pure, Keeps-if}
use ftpii.Ftp.Split.{split, field}
use ftpii.Ftp.Reply.{Handler}
use ftpii.Ftp.Sound.{Sound}
use ftpii.Ftp.Sound.Live.{Lives-frame, Serving, Confined, Confined-refl, Live-run, Serving-load}
use ftpii.Ftp.Sound.Commands.{
  ftp_user-Live, ftp_pass-Live, ftp_rein-Live, ftp_quit-Live, ftp_noop-Live, ftp_superfluous-Live,
  ftp_needauth-Live, ftp_unknown-Live, ftp_syst-Live, ftp_type-Live, ftp_mode-Live, ftp_pwd-Live,
  ftp_cwd-Live, ftp_cdup-Live, ftp_dele-Live, ftp_mkd-Live, ftp_rnfr-Live, ftp_rnto-Live,
  ftp_size-Live, ftp_site_loader-Live, ftp_site_clear-Live, ftp_site_chmod-Live,
  ftp_site_passwd-Live, ftp_site_nopasswd-Live, ftp_site_eject-Live, ftp_site_mount-Live,
  ftp_site_unmount-Live, ftp_site_unknown-Live, ftp_site_load-Live,
}
use ftpii.Ftp.Data.Live.{
  ftp_nlst-Live, ftp_list-Live, ftp_pasv-Live, ftp_port-Live, ftp_retr-Live, ftp_stor-Live,
  ftp_appe-Live, ftp_rest-Live,
}
use ftpii.Ftp.Dispatch.{
  find_command, run_handler, dispatch_to_handler, site_commands, unauthenticated_commands,
  authenticated_commands, unauthenticated_handlers, site_handlers, ftp_site, authenticated_handlers,
  process_command,
}
use ftpii.Ftp.Dispatch.Tables.{InBounds, dispatch-InBounds}

-- The handler keeps the invariant, whatever its client and its arguments.
abbrev AreLive : List Handler → Type 0
AreLive hs = All (λ h. (p : ℕ) (rest : Bytes) → Serving p (h p rest)) hs

AreLive-at :
    (hs : List Handler) (i : ℕ) (h : Handler)
    → AreLive hs
    → get_elem? hs i ≡ some h
    → (p : ℕ) (rest : Bytes) → Serving p (h p rest)
AreLive-at [] i h l e = absurd (cc)
AreLive-at (k ∷ hs) zero h l e =
    let same : k ≡ h = cc in
    subst (λ (x : Handler). (p : ℕ) (rest : Bytes) → Serving p (x p rest)) same l.0
AreLive-at (k ∷ hs) (suc i) h l e = AreLive-at hs i h l.1 e

module _ ⦃os : Os⦄ where
  unauthenticated-Live : AreLive unauthenticated_handlers
  unauthenticated-Live = (
    ftp_user-Live,
    (ftp_pass-Live, (ftp_quit-Live, (ftp_rein-Live, (ftp_noop-Live, (ftp_needauth-Live, tt))))),
  )

  site-Live : (fuel : ℕ) → AreLive (site_handlers fuel)
  site-Live fuel = (
    ftp_site_loader-Live,
    (
      ftp_site_clear-Live,
      (
        ftp_site_chmod-Live,
        (
          ftp_site_passwd-Live fuel,
          (
            ftp_site_nopasswd-Live fuel,
            (
              ftp_site_eject-Live,
              (
                ftp_site_mount-Live fuel,
                (ftp_site_unmount-Live, (ftp_site_load-Live fuel, (ftp_site_unknown-Live, tt))),
              ),
            ),
          ),
        ),
      ),
    ),
  )

  dispatch-Live :
      (p : ℕ) (line : Bytes) (commands : List Bytes) (handlers : List Handler)
      → AreLive handlers
      → InBounds handlers (find_command (field (split line b' ' 1) 0) commands)
      → Serving p (dispatch_to_handler p line commands handlers)
  unfolding dispatch_to_handler run_handler
  dispatch-Live p line commands handlers l (h, e) =
      let args = split line b' ' 1 in
      subst (λ o. Serving p (run_handler o p (field args 1))) (sym e)
        (AreLive-at handlers (find_command (field args 0) commands) h l e p (field args 1))

  ftp_site-Live : (fuel p : ℕ) (rest : Bytes) → Serving p (ftp_site fuel p rest)
  unfolding ftp_site
  ftp_site-Live fuel p rest =
      dispatch-Live p rest site_commands (site_handlers fuel) (site-Live fuel)
        (dispatch-InBounds (field (split rest b' ' 1) 0) fuel).2

  authenticated-Live : (fuel : ℕ) → AreLive (authenticated_handlers fuel)
  authenticated-Live fuel = (
    ftp_user-Live,
    (
      ftp_pass-Live,
      (
        ftp_list-Live,
        (
          ftp_pwd-Live,
          (
            ftp_cwd-Live,
            (
              ftp_cdup-Live,
              (
                ftp_size-Live,
                (
                  ftp_pasv-Live,
                  (
                    ftp_port-Live,
                    (
                      ftp_type-Live,
                      (
                        ftp_syst-Live,
                        (
                          ftp_mode-Live,
                          (
                            ftp_retr-Live,
                            (
                              ftp_stor-Live,
                              (
                                ftp_appe-Live,
                                (
                                  ftp_rest-Live,
                                  (
                                    ftp_dele-Live,
                                    (
                                      ftp_mkd-Live,
                                      (
                                        ftp_dele-Live,
                                        (
                                          ftp_rnfr-Live,
                                          (
                                            ftp_rnto-Live,
                                            (
                                              ftp_nlst-Live,
                                              (
                                                ftp_quit-Live,
                                                (
                                                  ftp_rein-Live,
                                                  (
                                                    ftp_site-Live fuel,
                                                    (
                                                      ftp_noop-Live,
                                                      (
                                                        ftp_superfluous-Live,
                                                        (ftp_unknown-Live, tt),
                                                      ),
                                                    ),
                                                  ),
                                                ),
                                              ),
                                            ),
                                          ),
                                        ),
                                      ),
                                    ),
                                  ),
                                ),
                              ),
                            ),
                          ),
                        ),
                      ),
                    ),
                  ),
                ),
              ),
            ),
          ),
        ),
      ),
    ),
  )

  pub process_command-Live : (fuel p : ℕ) (line : Bytes) → Serving p (process_command fuel p line)
  unfolding process_command
  process_command-Live fuel p [] = Keeps-pure (val 0)
  process_command-Live fuel p (b ∷ bs) =
      let cmd = field (split (b ∷ bs) b' ' 1) 0 in
      Serving-load λ c.
        Keeps-if c.authenticated
          (dispatch-Live p (b ∷ bs) authenticated_commands (authenticated_handlers fuel)
            (authenticated-Live fuel) (dispatch-InBounds cmd fuel).1)
          (dispatch-Live p (b ∷ bs) unauthenticated_commands unauthenticated_handlers
            unauthenticated-Live (dispatch-InBounds cmd fuel).0)

  -- From a sound state, whatever the line of a live client says, `process_command` uses no dead pointer,
  -- and where it comes back, the state is sound again and the client live, and no other client, nor the
  -- table or its count, differs.
  pub process_command-Sound :
      (fuel p : ℕ) (line : Bytes) (c : Client) (w : World)
      → Sound w.ftp
      → w.ftp.heap p ≡ some c
      → After
          (λ _ w'.
            (Sound w'.ftp × ((d : Client) × (w'.ftp.heap p ≡ some d))) × Confined p w.ftp w'.ftp)
          (process_command fuel p line w)
  process_command-Sound fuel p line c w s h =
      Live-run w (process_command-Live fuel p line) ((s, (c, h)), Confined-refl p w.ftp)
