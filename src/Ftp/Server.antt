-- ===== src/Ftp/Server.antt =====
-- `process_ftp_events` of source/ftp.c: one round over the listening socket and the clients.
pub mod Sound
use ftpii.Base.{ℕ, Bool, not, if◌then◌else◌}
use ftpii.Os.{S32, Os}
use ftpii.World.{M, pure, ◌>>=◌, ◌>>◌}
use ftpii.Ftp.Cleanup.{max_clients, each_client}
use ftpii.Ftp.Events.{process_data_events}
use ftpii.Ftp.Events.Accept.{process_accept_events}
use ftpii.Ftp.Events.Control.{transferring, process_control_events}

module _ ⦃os : Os⦄ where
  -- the body of the loop at a client
  unfoldable pub serve_client : ℕ → ℕ → M (Unit {0})
  serve_client fuel client = do
    busy ← transferring client
    if busy then process_data_events fuel client else process_control_events fuel client

  -- The result tells whether the network is down.
  unfoldable pub process_ftp_events : ℕ → S32 → M Bool
  process_ftp_events fuel server = do
    up ← process_accept_events fuel server
    each_client (serve_client fuel) max_clients 0
    pure (not up)
