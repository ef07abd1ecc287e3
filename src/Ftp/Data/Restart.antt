-- ===== src/Ftp/Data/Restart.antt =====
-- `ftp_REST` of source/ftp.c.
use ftpii.Base.{◌≤◌, ◌≡◌, refl, ℕ, some, arith, decimal, codes, ◌++◌, ==-refl}
use ftpii.Os.{Os}
use ftpii.World.{World, Client, load, store, update}
use ftpii.World.Triple.{Ensures, Ensures-mono}
use ftpii.Ftp.Reply.{modify}
use ftpii.Ftp.Reply.Line.{write_reply-Delivers}
use ftpii.Ftp.Numbers.{long_long_max}
use ftpii.Ftp.Numbers.Signed.{scan_lli-decimal}
use ftpii.Ftp.Data.{ftp_rest}

-- The client `c` with `n` as its restart position.
abbrev pub restarting : ℕ → Client → Client
restarting n c = record c { restart_marker = n }

module _ ⦃os : Os⦄ where
  -- Where a live client sends `ftp_REST` a position as the replies of `ftp_REST` and `ftp_SIZE` print it,
  -- and it fits a `long long`, the handler comes back and that position is the client's restart
  -- position; nothing else of the client differs, nor of any other client.
  pub ftp_rest-decimal :
      (client n : ℕ) (c : Client) (w : World)
      → w.ftp.heap client ≡ some c
      → n ≤ long_long_max
      → Ensures (ftp_rest client (decimal n) w) (λ _ w'.
        w'.ftp ≡ record w.ftp { heap = update w.ftp.heap client (some (restarting n c)) })
  unfolding ftp_rest modify
  ftp_rest-decimal client n c w h k =
      rw (scan_lli-decimal n k, ftp_rest)
        (rw (h, load)
          (rw (h, store)
            (Ensures-mono
              (write_reply-Delivers client 350
                (codes "Restart position accepted (" ++ (decimal n ++ codes ").")) (restarting n c)
                (record w {
                  ftp = record w.ftp { heap = update w.ftp.heap client (some (restarting n c)) };
                })
                (rw (==-refl client) refl) (omega arith) (omega arith))
              λ _ w' d. d.talks.ftp)))
