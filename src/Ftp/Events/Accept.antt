-- ===== src/Ftp/Events/Accept.antt =====
-- `process_accept_events` of source/ftp.c: new clients.
use ftpii.Base.{
  ℕ, zero, suc, ◌+◌, ◌%◌, Bool, true, false, [], ◌∷◌, none, some, Bytes, codes, ◌==◌, if◌then◌else◌,
}
use ftpii.Os.{S32, val, err, eagain, minus_one, Call, Os}
use ftpii.World.{Client, M, pure, done, stuck, call, update, ◌>>=◌, ◌>>◌}
use ftpii.Net.{net_close_blocking}
use ftpii.Vrt.{malloc}
use ftpii.Ftp.Reply.{write_reply}
use ftpii.Ftp.Cleanup.{max_clients, fill_slot, free_client}

abbrev pub entry_at : Bytes → ℕ → ℕ
entry_at [] i = 0
entry_at (x ∷ xs) zero = x
entry_at (x ∷ xs) (suc i) = entry_at xs i

-- The assignments behind `malloc`. The payload of `net_accept` holds the peer's address and port.
abbrev pub new_client : ℕ → Bytes → Client
new_client peer address = record {
  socket = val peer;
  representation_type = b'A';
  passive_socket = minus_one;
  data_socket = minus_one;
  cwd = b'/' ∷ [];
  pending_rename = [];
  restart_marker = 0;
  address_ip = entry_at address 0;
  address_port = entry_at address 1;
  authenticated = false;
  buf = [];
  data_connection_connected = false;
  data_callback = none;
  data_connection_callback_arg = none;
  data_connection_cleanup = none;
  data_connection_timer = 0;
}

-- A client at a new address, which is the result.
unfoldable pub allocate : Client → M ℕ
allocate c w =
    let p = w.ftp.next in
    done p (record w { ftp = record w.ftp { heap = update w.ftp.heap p (some c); next = p + 1 } })

-- The loop that stores the client in the table, and `num_clients++` on a u8.
unfoldable pub enter_table : ℕ → M (Unit {0})
unfolding fill_slot
enter_table client w = done tt (record w {
  ftp = record w.ftp {
    clients = fill_slot client w.ftp.clients;
    num_clients = (w.ftp.num_clients + 1) % 256;
  };
})

abbrev count_clients : M ℕ
count_clients w = done w.ftp.num_clients w

module _ ⦃os : Os⦄ where
  -- The greeting, and what becomes of the client.
  unfoldable pub greet : ℕ → ℕ → M (Unit {0})
  greet client peer = do
    result ← write_reply client 220 (codes "ftpii")
    elim result [
      | err _ ↦ do net_close_blocking (val peer); free_client client
      | val _ ↦ enter_table client
    ]

  -- `some done` where the loop's body returns.
  unfoldable pub accept_one : ℕ → Bytes → M Bool
  unfolding call
  accept_one peer address = do
    n ← count_clients
    if n == max_clients then (do call (Call.net_close (val peer)); pure true) else (do
      ok ← malloc os.sizeof_client
      if ok
          then (do client ← allocate (new_client peer address); greet client peer; pure false)
          else (do call (Call.net_close (val peer)); pure true))

  -- The result tells whether the network is still up.
  unfoldable pub process_accept_events : ℕ → S32 → M Bool
  unfolding call
  process_accept_events zero server w = stuck
  process_accept_events (suc fuel) server w =
      (do
        a ← call (Call.net_accept server)
        elim a.code [
          | err eagain ↦ pure true
          | err _ ↦ pure false
          | val peer ↦ do
            returns ← accept_one peer a.payload
            if returns then pure true else process_accept_events fuel server
        ])
        w
