-- ===== src/Ftp/Events.antt =====
-- The events of source/ftp.c on data connections, and the round of the server over its clients. The
-- fuel is for the loops that a peer or a device ends.
pub mod Accept
pub mod Control
pub mod Ending
use ftpii.Base.{ℕ, zero, suc, Bool, true, false, not, Option, none, some, codes, ltb, if◌then◌else◌}
use ftpii.Os.{
  S32, val, err, Code, eagain, einprogress, ealready, eisconn, minus_one, Call, Os, unsigned,
}
use ftpii.World.{
  World, Client, Callback, Arg, dir, file, M, pure, done, fault, call, load, ◌>>=◌, ◌>>◌,
}
use ftpii.Net.{send_from_file, recv_to_file}
use ftpii.Ftp.Reply.{modify, write_reply}
use ftpii.Ftp.Data.{transfer_error}
use ftpii.Ftp.Listing.{send_nlst, send_list}
use ftpii.Ftp.Cleanup.{cleanup_data_resources, cleanup_client}

abbrev pub is_set {ℓ} : {A : Type ℓ} → Option A → Bool
is_set none = false
is_set (some a) = true

-- What `process_data_events` does with the result: go on, report an error, or report the end.
pub data Progress : Type 0 where
  waiting failed complete : Progress

-- `result <= 0 && result != -EAGAIN`, and then `result < 0`
abbrev pub progress : S32 → Progress
progress (val zero) = complete
progress (val (suc n)) = waiting
progress (err eagain) = waiting
progress (err _) = failed

-- the errors of `net_connect`: a connection under way is one to wait for
abbrev pub connect_result : S32 → S32
connect_result (err einprogress) = err eagain
connect_result (err ealready) = err eagain
connect_result x = x

abbrev pub is_connected : S32 → Bool
is_connected (val n) = true
is_connected (err eisconn) = true
is_connected (err _) = false

module _ ⦃os : Os⦄ where
  -- `client->data_callback(client->data_socket, client->data_connection_callback_arg)`: each callback
  -- is given what it was stored with.
  unfoldable pub run_callback : ℕ → Callback → S32 → Option Arg → M S32
  run_callback fuel Callback.send_nlst s (some (dir d)) = send_nlst fuel s d
  run_callback fuel Callback.send_list s (some (dir d)) = send_list fuel s d
  run_callback fuel Callback.send_from_file s (some (file f)) = send_from_file s f
  run_callback fuel Callback.recv_to_file s (some (file f)) = recv_to_file fuel s f
  run_callback fuel _ _ _ = λ w. fault

  -- The two ways to a connection: to accept one, or to make one.
  unfoldable pub connect_data : ℕ → M S32
  unfolding call
  connect_data client = do
    c ← load client
    elim c.passive_socket [
      | val s ↦ do
        a ← call (Call.net_accept (val s))
        elim a.code [
          | val peer ↦ do
            modify client
                (λ d. record d { data_socket = val peer; data_connection_connected = true })
            pure (val peer)
          | err e ↦ pure (err e)
        ]
      | err _ ↦ do
        a ← call (Call.net_connect c.data_socket c.address_ip c.address_port)
        (if is_connected a.code
            then modify client (λ d. record d { data_connection_connected = true })
            else pure tt)
        pure (connect_result a.code)
    ]

  -- The branch of `process_data_events` without a connection.
  unfoldable pub await_data : ℕ → M S32
  unfolding call
  await_data client = do
    result ← connect_data client
    c ← load client
    if c.data_connection_connected then pure (val 1) else (do
      now ← call Call.gettime
      if ltb c.data_connection_timer (unsigned now.code) then pure minus_one else pure result)

  -- The end of `process_data_events`: the resources go, and the client if it cannot be told.
  unfoldable pub end_transfer : ℕ → Bool → M (Unit {0})
  end_transfer client success = do
    cleanup_data_resources client
    result ←
        (if success
          then write_reply client 226 (codes "Closing data connection, transfer successful.")
          else write_reply client 520 transfer_error)
    elim result [ err _ ↦ cleanup_client client | val _ ↦ pure tt ]

  -- one round of the transfer, or of the wait for its connection
  unfoldable pub transfer_round : ℕ → Client → ℕ → M S32
  transfer_round fuel c client =
      if c.data_connection_connected
      then (elim c.data_callback [
        | some callback ↦ run_callback fuel callback c.data_socket c.data_connection_callback_arg
        | none ↦ λ w. fault
      ])
      else await_data client

  unfoldable pub process_data_events : ℕ → ℕ → M (Unit {0})
  process_data_events fuel client = do
    c ← load client
    result ← transfer_round fuel c client
    elim (progress result) [
      | waiting ↦ pure tt
      | failed ↦ end_transfer client false
      | complete ↦ end_transfer client true
    ]
