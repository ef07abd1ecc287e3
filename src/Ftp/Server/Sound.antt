-- ===== src/Ftp/Server/Sound.antt =====
-- `process_ftp_events` of source/ftp.c from a sound state.
use ftpii.Base.{
  ℕ, zero, suc, ◌+◌, ◌<◌, ◌≤◌, ◌≡◌, refl, sym, ap, ◌∙◌, subst, Bool, true, false, Option, none,
  some, arith, if◌then◌else◌,
}
use ftpii.Os.{S32, Os}
use ftpii.World.{World, Client, Callback, M, pure, load, ◌>>=◌}
use ftpii.World.Keeps.{After, ended, After-then}
use ftpii.Ftp.Cleanup.{max_clients, slot_at, each_client}
use ftpii.Ftp.Cleanup.Table.{In, In-get_elem?, get_elem?-below}
use ftpii.Ftp.Events.{process_data_events}
use ftpii.Ftp.Events.Control.{transferring, process_control_events}
use ftpii.Ftp.Events.Control.Live.{process_control_events-Sound}
use ftpii.Ftp.Sound.{Sound}
use ftpii.Ftp.Sound.Accept.{process_accept_events-Sound}
use ftpii.Ftp.Sound.Transfer.{process_data_events-Sound}
use ftpii.Ftp.Server.{serve_client, process_ftp_events}

module _ ⦃os : Os⦄ where
  -- By the transfer of the client.
  served-Sound :
      (fuel p : ℕ) (c : Client) (o : Option Callback) (w : World)
      → Sound w.ftp
      → w.ftp.heap p ≡ some c
      → c.data_callback ≡ o
      → After
          (λ _ w'. Sound w'.ftp)
          (((elim o as (λ _. M Bool) [ none ↦ pure false | some _ ↦ pure true ]) >>= λ busy.
              if busy then process_data_events fuel p else process_control_events fuel p)
            w)
  served-Sound fuel p c none w s h e = process_control_events-Sound fuel p c w s h
  served-Sound fuel p c (some cb) w s h e = process_data_events-Sound fuel p c cb w s h e

  serve_client-Sound :
      (fuel p : ℕ) (w : World)
      → Sound w.ftp
      → In p w.ftp.clients
      → After (λ _ w'. Sound w'.ftp) (serve_client fuel p w)
  unfolding serve_client transferring load
  serve_client-Sound fuel p w s i =
      let (c, h) = s.live p i in rw (h, load) (served-Sound fuel p c c.data_callback w s h refl)

  slot-Sound :
      (fuel : ℕ) (slot : Option ℕ) (w : World)
      → Sound w.ftp
      → ((p : ℕ) → slot ≡ some p → In p w.ftp.clients)
      → After
          (λ _ w'. Sound w'.ftp)
          ((elim slot as (λ _. M (Unit {0})) [
            | none ↦ pure tt
            | some client ↦ serve_client fuel client
          ])
            w)
  slot-Sound fuel none w s k = ended s
  slot-Sound fuel (some p) w s k = serve_client-Sound fuel p w s (k p refl)

  each_client-Sound :
      (fuel rounds i : ℕ) (w : World)
      → Sound w.ftp
      → i + rounds ≤ 5
      → After (λ _ w'. Sound w'.ftp) (each_client (serve_client fuel) rounds i w)
  unfolding each_client slot_at
  each_client-Sound fuel zero i w s h = ended s
  each_client-Sound fuel (suc rounds) i w s h =
      let (slot, e) =
        get_elem?-below i w.ftp.clients (subst (λ n. i < n) (sym s.size) (omega arith)) in
      rw (e, slot_at)
        (After-then
          (slot-Sound fuel slot w s (λ p k. In-get_elem? i p w.ftp.clients (e ∙ ap some k)))
          λ _ w1 s1. each_client-Sound fuel rounds (i + 1) w1 s1 (omega arith))

  -- From a sound state, a round of the server over the listening socket and its clients uses no dead
  -- client, no closed directory iterator of the program's own and no slot outside its table, whatever
  -- the network, the devices and the clients do; and where it comes back, the state is sound again.
  pub process_ftp_events-Sound :
      (fuel : ℕ) (server : S32) (w : World)
      → Sound w.ftp
      → After (λ _ w'. Sound w'.ftp) (process_ftp_events fuel server w)
  unfolding process_ftp_events
  process_ftp_events-Sound fuel server w s =
      After-then (process_accept_events-Sound fuel server w s) λ up w1 s1.
        After-then (each_client-Sound fuel max_clients 0 w1 s1 (omega arith)) λ _ w2 s2. ended s2
