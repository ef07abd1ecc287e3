-- ===== src/Ftp/Events/Control/Live.antt =====
-- `process_control_events` of source/ftp.c from a sound state.
use ftpii.Base.{
  ℕ, zero, suc, ◌+◌, ◌-◌, ◌≡◌, true, false, ◌++◌, some, refl, Bytes, contains, ltb, length,
}
use ftpii.Os.{S32, val, err, eagain, Call, Os}
use ftpii.World.{World, Client, M, pure, ◌>>◌}
use ftpii.World.Keeps.{
  After, ended, waits, After-then, After-mono, After-Ensures, Keeps-bind, Keeps-then, Keeps-pure,
  Keeps-if, Keeps-S32, Keeps-Option,
}
use ftpii.World.Apart.{call-Apart}
use ftpii.Ftp.Reply.{ftp_buffer_size, modify}
use ftpii.Ftp.Files.{is_empty}
use ftpii.Ftp.Dispatch.Live.{process_command-Live}
use ftpii.Ftp.Cleanup.{cleanup_client}
use ftpii.Ftp.Sound.{Sound}
use ftpii.Ftp.Sound.Ending.{cleanup_client-Sound}
use ftpii.Ftp.Sound.Live.{
  Live, Confined-refl, Lives-frame, Serving, Live-run, Serving-Apart, Serving-modify, Serving-load,
}
use ftpii.Ftp.Events.Control.Lines.{find_crlf}
use ftpii.Ftp.Events.Control.{
  Rest, keep, hang_up, Round, leave, close, again, transferring, process_line, process_lines,
  take_bytes, control_round, process_control_events,
}

module _ ⦃os : Os⦄ where
  transferring-Live : (p : ℕ) → Serving p (transferring p)
  unfolding transferring
  transferring-Live p =
      Serving-load λ c. Keeps-Option c.data_callback (Keeps-pure false) (λ cb. Keeps-pure true)

  process_line-Live : (fuel p : ℕ) (line : Bytes) → Serving p (process_line fuel p line)
  unfolding process_line
  process_line-Live fuel p line = Keeps-if (contains b'\n' line) (Keeps-pure false) (
      Keeps-if (is_empty line) (Keeps-pure true) (
        Keeps-bind (process_command-Live fuel p line)
          λ result. Keeps-S32 result (λ n. Keeps-pure true) (λ e. Keeps-pure false)))

  process_lines-Live :
      (rounds fuel p : ℕ) (next : Bytes) → Serving p (process_lines rounds fuel p next)
  unfolding process_lines
  process_lines-Live zero fuel p next = record { run = λ w i. waits }
  process_lines-Live (suc rounds) fuel p next =
      let round = Keeps-Option (find_crlf next) (Keeps-pure (keep next)) λ found.
        Keeps-bind (transferring-Live p) λ busy. Keeps-if busy (Keeps-pure (keep next)) (
          Keeps-bind (process_line-Live fuel p found.0)
            λ ok. Keeps-if ok (process_lines-Live rounds fuel p found.1) (Keeps-pure hang_up)) in
      record { run = λ w i. round.run w i }

  rest-Live :
      (p : ℕ) (rest : Rest)
      → Serving p (elim rest as (λ _. M Round) [
        | keep next ↦ do modify p (λ d. record d { buf = next }); pure again
        | hang_up ↦ pure close
      ])
  rest-Live p (keep next) =
      Keeps-then (Serving-modify p (λ d. record d { buf = next }) (λ d. refl)) (Keeps-pure again)
  rest-Live p hang_up = Keeps-pure close

  take_bytes-Live : (fuel p : ℕ) (new : Bytes) → Serving p (take_bytes fuel p new)
  unfolding take_bytes
  take_bytes-Live fuel p new =
      Keeps-then (Serving-modify p (λ c. record c { buf = c.buf ++ new }) (λ c. refl)) (
        Keeps-if (contains 0 new) (Keeps-pure close) (
          Serving-load λ c.
            Keeps-bind (process_lines-Live (length c.buf + 1) fuel p c.buf)
              λ rest. rest-Live p rest))

  read-Live :
      (p : ℕ) (x : S32) (more : M Round)
      → Serving p more
      → Serving p (elim x as (λ _. M Round) [
        | err eagain ↦ pure leave
        | err _ ↦ pure close
        | val zero ↦ pure close
        | val (suc _) ↦ more
      ])
  read-Live p (err eagain) more k = Keeps-pure leave
  read-Live p (err _) more k = Keeps-pure close
  read-Live p (val zero) more k = Keeps-pure close
  read-Live p (val (suc n)) more k = k

  pub control_round-Live : (fuel p : ℕ) → Serving p (control_round fuel p)
  unfolding control_round
  control_round-Live fuel p = Serving-load λ c.
      Keeps-if (ltb (length c.buf) (ftp_buffer_size - 1))
        (Keeps-bind (transferring-Live p) λ busy. Keeps-if busy (Keeps-pure leave) (
          Keeps-bind
            (Serving-Apart
              (call-Apart (Call.net_read c.socket (ftp_buffer_size - 1 - length c.buf))))
            λ a.
              read-Live p a.code (take_bytes fuel p a.payload) (take_bytes-Live fuel p a.payload)))
        (Keeps-pure close)

  rounds-Sound :
      (fuel p : ℕ) (round : Round) (more : M (Unit {0})) (w : World)
      → Live p w
      → After (λ _ w'. Sound w'.ftp) (more w)
      → After
          (λ _ w'. Sound w'.ftp)
          ((elim round as (λ _. M (Unit {0})) [
            | leave ↦ pure tt
            | close ↦ cleanup_client p
            | again ↦ more
          ])
            w)
  rounds-Sound fuel p leave more w l k = ended l.0
  rounds-Sound fuel p close more w l k =
      After-mono (After-Ensures (cleanup_client-Sound p w l.0 (l.0.listed p l.1.0 l.1.1)))
        λ _ w' r. r.0
  rounds-Sound fuel p again more w l k = k

  -- From a sound state, control events at a client of the table use no dead pointer, whatever the
  -- client sends, and where they come back, the state is sound again.
  pub process_control_events-Sound :
      (fuel p : ℕ) (c : Client) (w : World)
      → Sound w.ftp
      → w.ftp.heap p ≡ some c
      → After (λ _ w'. Sound w'.ftp) (process_control_events fuel p w)
  unfolding process_control_events
  process_control_events-Sound zero p c w s h = waits
  process_control_events-Sound (suc fuel) p c w s h =
      After-then (Live-run w (control_round-Live fuel p) ((s, (c, h)), Confined-refl p w.ftp))
        λ round w1 l.
          rounds-Sound fuel p round (process_control_events fuel p) w1 l.0
            (process_control_events-Sound fuel p l.0.1.0 w1 l.0.0 l.0.1.1)
