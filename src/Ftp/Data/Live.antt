-- ===== src/Ftp/Data/Live.antt =====
-- The commands of source/ftp.c that open data connections keep the invariant.
use ftpii.Base.{
  ℕ, ◌+◌, ◌*◌, ◌%◌, refl, sym, subst, true, false, not, List, [], ◌∷◌, ◌++◌, Option, none, some,
  ◌==◌, codes, decimal, Bytes, if◌then◌else◌,
}
use ftpii.Os.{S32, val, err, Call, Os, unsigned}
use ftpii.World.{
  World, Ftp, Callback, send_nlst, send_list, send_from_file, recv_to_file, dir, file, Cleanup, Dir,
  virtual, device, M, ◌>>=◌, ◌>>◌,
}
use ftpii.World.Keeps.{
  After, ended, After-then, Keeps-bind, Keeps-then, Keeps-pure, Keeps-if, Keeps-S32, Keeps-Option,
  After-Ensures,
}
use ftpii.World.Apart.{call-Apart, posix-Apart}
use ftpii.Net.Frame.{set_blocking-Apart}
use ftpii.Vrt.{vrt_dirclose}
use ftpii.Vrt.Frame.{vrt_fopen-Apart}
use ftpii.Vrt.Dirs.{vrt_dirclose-virtual, vrt_dirclose-device}
use ftpii.Vrt.Opening.{Opened, vrt_diropen-Opened}
use ftpii.Ftp.Split.{split, field}
use ftpii.Ftp.Numbers.{scan_numbers, scan_lli}
use ftpii.Ftp.Files.{syntax_error, is_empty, first_byte}
use ftpii.Ftp.Reply.{get_errno, modify, write_reply, write_error}
use ftpii.Ftp.Job.{IsJob, names, lists, sends, receives, owned}
use ftpii.Ftp.Sound.Prepare.{Prepared, prepare_data_connection-Prepared}
use ftpii.Ftp.Sound.Live.{
  Stays, Confined-refl, Lives-frame, Serving, Serving-run, Live-run, Serving-Apart, Serving-modify,
  Serving-load, Stays-statics, write_reply-Live, write_error-Live, close_passive_socket-Live,
}
use ftpii.Ftp.Data.{
  give_up_passive, next_passive_port, passive_reply, dotted, listen_passive, ftp_pasv, set_address,
  ftp_port, prepare_data_connection, close_on_error, fclose, send_directory, ftp_nlst, ftp_list,
  seek_fails, transfer_file, ftp_retr, ftp_stor, ftp_appe, ftp_rest,
}
use ftpii.Ftp.Sound.Iterators.{Opening-Ready, Shut-Stays}

module _ ⦃os : Os⦄ where
  closed-Live :
      (p : ℕ) (base : Ftp) (d : Dir) (x : S32) (w : World)
      → Prepared p base (owned (some (dir d))) x w
      → After (λ _ w'. Stays p base w'.ftp) (close_on_error x (vrt_dirclose d) w)
  unfolding close_on_error
  closed-Live p base d (val n) w r = ended r
  closed-Live p base (device h) (err e) w r =
      After-then (After-Ensures (vrt_dirclose-device h w))
        λ _ w1 k. ended (subst (λ f. Stays p base f) (sym k) r.0)
  closed-Live p base (virtual a) (err e) w r =
      let (cursor, h) = r.1.0 in
      After-then (After-Ensures (vrt_dirclose-virtual a cursor w h))
        λ _ w1 k. ended (subst (λ f. Stays p base f) (sym k) (Shut-Stays base w.ftp p a r.0 r.1))

  -- What follows `vrt_diropen`.
  found-Live :
      (p : ℕ) (cb : Callback) (o : Option Dir) (base u : Ftp) (w : World)
      → ((d : Dir) → IsJob (some cb) (some (dir d)) (some Cleanup.vrt_dirclose))
      → Stays p base u
      → Opened u w.ftp o
      → After
          (λ _ w'. Stays p base w'.ftp)
          ((elim o as (λ _. M S32) [
            | none ↦ write_error p
            | some d ↦ do
              result ← prepare_data_connection p cb (dir d) Cleanup.vrt_dirclose
              close_on_error result (vrt_dirclose d)
          ])
            w)
  found-Live p cb none base u w j l e =
      Live-run w (write_error-Live p) (subst (λ f. Stays p base f) (sym e) l)
  found-Live p cb (some (device h)) base u w j l e =
      After-then
        (prepare_data_connection-Prepared p base cb (dir (device h)) Cleanup.vrt_dirclose w
          (j (device h)) (subst (λ f. Stays p base f) (sym e) l, (tt, λ q d c k m. absurd (cc))))
        λ x w1 r. closed-Live p base (device h) x w1 r
  found-Live p cb (some (virtual a)) base u w j l (at, e) =
      After-then
        (prepare_data_connection-Prepared p base cb (dir (virtual a)) Cleanup.vrt_dirclose w
          (j (virtual a)) (Opening-Ready base u w.ftp p a l at e))
        λ x w1 r. closed-Live p base (virtual a) x w1 r

  send_directory-Live :
      (p : ℕ) (cb : Callback) (path : Bytes)
      → ((d : Dir) → IsJob (some cb) (some (dir d)) (some Cleanup.vrt_dirclose))
      → Serving p (send_directory p cb path)
  unfolding send_directory
  send_directory-Live p cb path j = Serving-load λ c. Serving-run p _ λ w l.
      After-then (vrt_diropen-Opened c.cwd (if is_empty path then codes "." else path) w)
        λ o w1 k. found-Live p cb o w.ftp w.ftp w1 j (l, Confined-refl p w.ftp) k

  pub ftp_nlst-Live : (p : ℕ) (rest : Bytes) → Serving p (ftp_nlst p rest)
  unfolding ftp_nlst
  ftp_nlst-Live p rest = send_directory-Live p send_nlst rest names

  pub ftp_list-Live : (p : ℕ) (rest : Bytes) → Serving p (ftp_list p rest)
  unfolding ftp_list
  ftp_list-Live p rest =
      send_directory-Live p send_list
        (if first_byte rest == b'-' then field (split rest b' ' 1) 1 else rest) lists

  give_up-Live : (p : ℕ) (msg : Bytes) → Serving p (give_up_passive p msg)
  unfolding give_up_passive
  give_up-Live p msg = Keeps-then (close_passive_socket-Live p) (write_reply-Live p 520 msg)

  listen-Live : (p : ℕ) (s : S32) (port : ℕ) → Serving p (listen_passive p s port)
  unfolding listen_passive
  listen-Live p s port = Keeps-bind (Serving-Apart (call-Apart (Call.net_listen s 1))) λ listening.
      Keeps-S32 listening.code
        (λ n.
          Keeps-bind (Serving-Apart (call-Apart Call.net_gethostip))
            λ ip. write_reply-Live p 227 (passive_reply (unsigned ip.code) port))
        (λ e. give_up-Live p (codes "Unable to listen on socket."))

  port-Live : (p : ℕ) → Serving p next_passive_port
  port-Live p = record {
    run = λ w i.
        ended (λ u l. Stays-statics p u w.ftp ((w.ftp.passive_port + 1) % 65536) w.ftp.password l);
  }

  pub ftp_pasv-Live : (p : ℕ) (rest : Bytes) → Serving p (ftp_pasv p rest)
  unfolding ftp_pasv
  ftp_pasv-Live p rest = Keeps-then (close_passive_socket-Live p) (
      Keeps-bind (Serving-Apart (call-Apart Call.net_socket)) λ made.
        Keeps-then (Serving-modify p (λ c. record c { passive_socket = made.code }) (λ c. refl)) (
          Keeps-S32 made.code
            (λ s. Keeps-then (Serving-Apart (set_blocking-Apart (val s) false)) (
              Keeps-bind (port-Live p) λ port.
                Keeps-bind (Serving-Apart (call-Apart (Call.net_bind (val s) (os.htons port))))
                  λ bound.
                    Keeps-S32 bound.code (λ n. listen-Live p (val s) (os.htons port))
                      (λ e. give_up-Live p (codes "Unable to bind listening socket."))))
            (λ e. write_reply-Live p 520 (codes "Unable to create listening socket."))))

  set_address-Live : (p : ℕ) (numbers : List ℕ) → Serving p (set_address p numbers)
  unfolding set_address
  set_address-Live p (h1 ∷ h2 ∷ h3 ∷ h4 ∷ p1 ∷ p2 ∷ []) =
      Keeps-Option (os.inet_aton (dotted h1 h2 h3 h4)) (write_reply-Live p 501 syntax_error) λ ip.
        Keeps-then (close_passive_socket-Live p) (
          Keeps-then
            (Serving-modify p
              (λ c. record c {
                address_ip = ip;
                address_port = os.htons (p1 % 256 * 256 + p2 % 256);
              })
              (λ c. refl))
            (write_reply-Live p 200 (codes "PORT command successful.")))
  set_address-Live p _ = write_reply-Live p 501 syntax_error

  pub ftp_port-Live : (p : ℕ) (rest : Bytes) → Serving p (ftp_port p rest)
  unfolding ftp_port
  ftp_port-Live p rest =
      Keeps-Option (scan_numbers 6 rest) (write_reply-Live p 501 syntax_error)
        λ numbers. set_address-Live p numbers

  fclose-Live : (p f : ℕ) → Serving p (fclose f)
  unfolding fclose
  fclose-Live p f = Keeps-then (Serving-Apart (call-Apart (Call.fclose f))) (Keeps-pure tt)

  file_closed-Live :
      (p f : ℕ) (base : Ftp) (x : S32) (w : World)
      → Prepared p base none x w
      → After (λ _ w'. Stays p base w'.ftp) (close_on_error x (fclose f) w)
  unfolding close_on_error
  file_closed-Live p f base (val n) w r = ended r
  file_closed-Live p f base (err e) w r =
      Live-run w (Keeps-then (fclose-Live p f) (Keeps-pure (err e))) r.0

  prepare_file-Live :
      (p f : ℕ) (cb : Callback)
      → IsJob (some cb) (some (file f)) (some Cleanup.fclose)
      → Serving p (do
        result ← prepare_data_connection p cb (file f) Cleanup.fclose
        close_on_error result (fclose f))
  prepare_file-Live p f cb j = Serving-run p _ λ w l.
      After-then
        (prepare_data_connection-Prepared p w.ftp cb (file f) Cleanup.fclose w j
          ((l, Confined-refl p w.ftp), (tt, λ q d c k m. absurd (cc))))
        λ x w1 r. file_closed-Live p f w.ftp x w1 r

  seek_fails-Live : (p f marker : ℕ) → Serving p (seek_fails f marker)
  unfolding seek_fails
  seek_fails-Live p f marker = Keeps-if (marker == 0) (Keeps-pure false) (
      Keeps-bind (Serving-Apart (posix-Apart (Call.lseek f marker)))
        λ a. Keeps-S32 a.code (λ n. Keeps-pure (not (n == marker))) (λ e. Keeps-pure true))

  transfer_file-Live :
      (p f : ℕ) (cb : Callback)
      → IsJob (some cb) (some (file f)) (some Cleanup.fclose)
      → Serving p (transfer_file p f cb)
  unfolding transfer_file
  transfer_file-Live p f cb j = Serving-load λ c.
      Keeps-bind (seek_fails-Live p f c.restart_marker) λ failed.
        Keeps-bind {m = get_errno} (record { run = λ w i. ended (λ u l. l) })
          λ lseek_error. Keeps-then (Keeps-if failed (fclose-Live p f) (Keeps-pure tt)) (
            Keeps-then (Serving-modify p (λ d. record d { restart_marker = 0 }) (λ d. refl)) (
              Keeps-if failed (write_reply-Live p 550 (os.strerror lseek_error))
                (prepare_file-Live p f cb j)))

  pub ftp_retr-Live : (p : ℕ) (rest : Bytes) → Serving p (ftp_retr p rest)
  unfolding ftp_retr
  ftp_retr-Live p rest = Serving-load λ c.
      Keeps-bind (Serving-Apart (vrt_fopen-Apart c.cwd rest (codes "rb"))) λ opened.
        Keeps-Option opened (write_error-Live p)
          λ f. transfer_file-Live p f send_from_file (sends f)

  pub ftp_stor-Live : (p : ℕ) (rest : Bytes) → Serving p (ftp_stor p rest)
  unfolding ftp_stor
  ftp_stor-Live p rest = Serving-load λ c.
      Keeps-bind (Serving-Apart (vrt_fopen-Apart c.cwd rest (codes "wb"))) λ opened.
        Keeps-Option opened
          (Keeps-then (Serving-modify p (λ d. record d { restart_marker = 0 }) (λ d. refl))
            (write_error-Live p))
          λ f. transfer_file-Live p f recv_to_file (receives f)

  pub ftp_appe-Live : (p : ℕ) (rest : Bytes) → Serving p (ftp_appe p rest)
  unfolding ftp_appe
  ftp_appe-Live p rest = Serving-load λ c.
      Keeps-bind (Serving-Apart (vrt_fopen-Apart c.cwd rest (codes "ab"))) λ opened.
        Keeps-Option opened (write_error-Live p)
          λ f. prepare_file-Live p f recv_to_file (receives f)

  offset-Live :
      (p : ℕ) (o : Option (Option ℕ))
      → Serving p (elim o as (λ _. M S32) [
        | none ↦ write_reply p 501 syntax_error
        | some none ↦ write_reply p 501 syntax_error
        | some (some offset) ↦ do
          modify p (λ c. record c { restart_marker = offset })
          write_reply p 350 (codes "Restart position accepted (" ++ (decimal offset ++ codes ")."))
      ])
  offset-Live p none = write_reply-Live p 501 syntax_error
  offset-Live p (some none) = write_reply-Live p 501 syntax_error
  offset-Live p (some (some offset)) =
      Keeps-then (Serving-modify p (λ c. record c { restart_marker = offset }) (λ c. refl)) (
        write_reply-Live p 350
          (codes "Restart position accepted (" ++ (decimal offset ++ codes ").")))

  pub ftp_rest-Live : (p : ℕ) (rest : Bytes) → Serving p (ftp_rest p rest)
  unfolding ftp_rest
  ftp_rest-Live p rest = offset-Live p (scan_lli rest)
