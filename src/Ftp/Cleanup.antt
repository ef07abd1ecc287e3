-- ===== src/Ftp/Cleanup.antt =====
-- Letting go of a data connection and of a client, source/ftp.c.
pub mod Release
pub mod Closings
pub mod Handles
pub mod Table
use ftpii.Base.{
  ℕ, zero, suc, get_elem?, ◌+◌, ◌%◌, Bool, false, List, [], ◌∷◌, Option, none, some, codes, ◌==◌,
  if◌then◌else◌,
}
use ftpii.Os.{S32, val, err, minus_one, Call, Os}
use ftpii.World.{
  Client, Cleanup, Arg, dir, file, M, pure, done, fault, call, load, update, ◌>>=◌, ◌>>◌,
}
use ftpii.Net.{net_close_blocking}
use ftpii.Vrt.{vrt_dirclose}
use ftpii.Ftp.Reply.{modify, write_reply, close_passive_socket}

abbrev pub max_clients : ℕ
max_clients = 5

-- `a == b` on sockets, of which one is not negative
abbrev pub same_socket : ℕ → S32 → Bool
same_socket m (val n) = m == n
same_socket m (err _) = false

-- `free(client)`
unfoldable pub free_client : ℕ → M (Unit {0})
free_client p w = elim (w.ftp.heap p) [
  | some _ ↦ done tt (record w { ftp = record w.ftp { heap = update w.ftp.heap p none } })
  | none ↦ fault
]

-- The slots with the first that holds `client` set to NULL.
unfoldable pub clear_slot : ℕ → List (Option ℕ) → List (Option ℕ)
clear_slot client [] = []
clear_slot client (none ∷ slots) = none ∷ clear_slot client slots
clear_slot client (some p ∷ slots) =
    if p == client then none ∷ slots else some p ∷ clear_slot client slots

-- The slots with `client` in the first that is NULL.
unfoldable pub fill_slot : ℕ → List (Option ℕ) → List (Option ℕ)
fill_slot client [] = []
fill_slot client (none ∷ slots) = some client ∷ slots
fill_slot client (some p ∷ slots) = some p ∷ fill_slot client slots

-- The loop over the table in `cleanup_client`, and `num_clients--` on a u8.
unfoldable pub leave_table : ℕ → M (Unit {0})
unfolding clear_slot
leave_table client w = done tt (record w {
  ftp = record w.ftp {
    clients = clear_slot client w.ftp.clients;
    num_clients = (w.ftp.num_clients + 255) % 256;
  };
})

-- `clients[client_index]`: no slot stands behind the end of the table.
unfoldable pub slot_at : ℕ → M (Option ℕ)
slot_at i w = elim (get_elem? w.ftp.clients i) [ some slot ↦ done slot w | none ↦ fault ]

-- A loop over the table: `rounds` slots from `i` on, each read when it is reached.
unfoldable pub each_client : (ℕ → M (Unit {0})) → ℕ → ℕ → M (Unit {0})
unfolding slot_at
each_client act zero i w = done tt w
each_client act (suc rounds) i w =
    (do
      slot ← slot_at i
      (elim slot [ none ↦ pure tt | some client ↦ act client ])
      each_client act rounds (i + 1))
      w

module _ ⦃os : Os⦄ where
  -- `client->data_connection_cleanup(client->data_connection_callback_arg)`: each callback is given
  -- what it was stored with.
  unfoldable pub run_cleanup : Cleanup → Option Arg → M (Unit {0})
  unfolding call
  run_cleanup Cleanup.vrt_dirclose (some (dir d)) = vrt_dirclose d
  run_cleanup Cleanup.fclose (some (file f)) = do call (Call.fclose f); pure tt
  run_cleanup _ _ = λ w. fault

  -- `if (client->data_connection_cleanup) …`
  unfoldable pub clean_arg : Option Cleanup → Option Arg → M (Unit {0})
  clean_arg none arg = pure tt
  clean_arg (some cleanup) arg = run_cleanup cleanup arg

  -- The first statement of `cleanup_data_resources`.
  unfoldable pub close_data_socket : Client → M (Unit {0})
  close_data_socket c = elim c.data_socket [
    | val s ↦
        if same_socket s c.passive_socket then pure tt else (do net_close_blocking (val s); pure tt)
    | err _ ↦ pure tt
  ]

  unfoldable pub cleanup_data_resources : ℕ → M (Unit {0})
  cleanup_data_resources client = do
    c ← load client
    close_data_socket c
    modify client (λ d. record d {
      data_socket = minus_one;
      data_connection_connected = false;
      data_callback = none;
    })
    clean_arg c.data_connection_cleanup c.data_connection_callback_arg
    modify client (λ d. record d {
      data_connection_callback_arg = none;
      data_connection_cleanup = none;
      data_connection_timer = 0;
    })

  unfoldable pub cleanup_client : ℕ → M (Unit {0})
  cleanup_client client = do
    c ← load client
    net_close_blocking c.socket
    cleanup_data_resources client
    close_passive_socket client
    free_client client
    leave_table client

  -- the body of the loop of `cleanup_ftp`
  unfoldable pub dismiss : ℕ → M (Unit {0})
  dismiss client = do
    write_reply client 421 (codes "Service not available, closing control connection.")
    cleanup_client client

  unfoldable pub cleanup_ftp : M (Unit {0})
  unfolding each_client
  cleanup_ftp = each_client dismiss max_clients 0
