-- ===== src/Ftp/Sound/Accept.antt =====
-- New clients, `process_accept_events` of source/ftp.c, from a sound state.
use ftpii.Base.{
  ℕ, zero, suc, ◌+◌, ◌<◌, ◌≤◌, ◌%◌, ◌≡◌, refl, sym, ap, subst, ◌∙◌, Bool, true, false, Option, none,
  some, ◌==◌, if◌then◌else◌, codes, Bytes,
}
use ftpii.Os.{S32, val, err, eagain, Call, Os}
use ftpii.World.{World, Ftp, Client, M, pure, call, update, ◌>>=◌, ◌>>◌}
use ftpii.World.Keeps.{After, ended, waits, After-then, After-if, After-Ensures}
use ftpii.World.Apart.{call-Apart}
use ftpii.Net.{net_close_blocking}
use ftpii.Net.Frame.{net_close_blocking-Apart}
use ftpii.Vrt.{malloc}
use ftpii.Vrt.Frame.{malloc-Apart}
use ftpii.Ftp.Session.{Serves-unchanged, write_reply-Serves}
use ftpii.Ftp.Cleanup.{max_clients, fill_slot, free_client}
use ftpii.Ftp.Cleanup.Table.{occupied, occupied-length}
use ftpii.Ftp.Events.Accept.{
  new_client, allocate, enter_table, greet, accept_one, process_accept_events,
}
use ftpii.Ftp.Sound.{Sound}
use ftpii.Ftp.Sound.Entry.{update-same, Sound-next, dropped-heap, Entered-Sound, not_full}

module _ ⦃os : Os⦄ where
  outcome :
      (u : Ftp) (peer : ℕ) (address : Bytes) (r : S32) (w : World)
      → Sound u
      → occupied u.clients < max_clients
      → w.ftp ≡ record u {
        heap = update u.heap u.next (some (new_client peer address));
        next = u.next + 1;
      }
      → After
          (λ _ w'. Sound w'.ftp)
          ((elim r as (λ _. M (Unit {0})) [
            | err _ ↦ do net_close_blocking (val peer); free_client u.next
            | val _ ↦ enter_table u.next
          ])
            w)
  unfolding enter_table free_client
  outcome u peer address (val n) w s room e = ended (
      subst Sound
        (sym (
          ap
            (λ (f : Ftp). record f {
              clients = fill_slot u.next f.clients;
              num_clients = (f.num_clients + 1) % 256;
            })
            e))
        (Entered-Sound u peer address s room))
  outcome u peer address (err x) w s room e =
      let b = new_client peer address in
      After-then ((net_close_blocking-Apart (val peer)).run w tt) λ _ w1 a.
        let e1 = a.ftp ∙ e in
        let here : w1.ftp.heap u.next ≡ some b =
          ap (λ (f : Ftp). f.heap u.next) e1 ∙ update-same u.heap u.next (some b) in
        rw (here, free_client)
          (ended (
            subst Sound
              (sym (
                ap (λ (f : Ftp). record f { heap = update f.heap u.next none }) e1
                ∙ ap (λ (h : ℕ → Option Client). record u { heap = h; next = u.next + 1 })
                    (dropped-heap u b s)))
              (Sound-next u s)))

  -- The greeting of a client that was just allocated.
  greet-Sound :
      (u : Ftp) (peer : ℕ) (address : Bytes) (w : World)
      → Sound u
      → occupied u.clients < max_clients
      → w.ftp ≡ record u {
        heap = update u.heap u.next (some (new_client peer address));
        next = u.next + 1;
      }
      → After (λ _ w'. Sound w'.ftp) (greet u.next peer w)
  unfolding greet
  greet-Sound u peer address w s room e =
      let b = new_client peer address in
      let here : w.ftp.heap u.next ≡ some b =
        ap (λ (f : Ftp). f.heap u.next) e ∙ update-same u.heap u.next (some b) in
      After-then (After-Ensures (write_reply-Serves u.next 220 (codes "ftpii") b w here))
        λ r w1 t. let e1 = Serves-unchanged here t ∙ e in outcome u peer address r w1 s room e1

  turn_away-Sound :
      (peer : ℕ) (w : World)
      → Sound w.ftp
      → After (λ _ w'. Sound w'.ftp) ((do call (Call.net_close (val peer)); pure true) w)
  unfolding call
  turn_away-Sound peer w s = ended s

  take_in-Sound :
      (peer : ℕ) (address : Bytes) (w : World)
      → Sound w.ftp
      → occupied w.ftp.clients < max_clients
      → After
          (λ _ w'. Sound w'.ftp)
          ((do client ← allocate (new_client peer address); greet client peer; pure false) w)
  unfolding allocate
  take_in-Sound peer address w s room =
      let p = w.ftp.next in
      let w1 = record w {
        ftp = record w.ftp {
          heap = update w.ftp.heap p (some (new_client peer address));
          next = p + 1;
        };
      } in
      After-then (greet-Sound w.ftp peer address w1 s room refl) λ _ w2 s2. ended s2

  accept_one-Sound :
      (peer : ℕ) (address : Bytes) (w : World)
      → Sound w.ftp
      → After (λ _ w'. Sound w'.ftp) (accept_one peer address w)
  unfolding accept_one
  accept_one-Sound peer address w s =
      let turn_away : M Bool = (do call (Call.net_close (val peer)); pure true) in
      let take_in : M Bool = (do
        client ← allocate (new_client peer address)
        greet client peer
        pure false) in
      After-if (w.ftp.num_clients == max_clients) turn_away
        (do ok ← malloc os.sizeof_client; if ok then take_in else turn_away)
        (λ _. turn_away-Sound peer w s)
        (λ b. After-then ((malloc-Apart os.sizeof_client).run w tt) λ ok w1 a.
          let s1 = subst Sound (sym a.ftp) s in
          let all = occupied-length w.ftp.clients in
          let below = subst (λ n. occupied w.ftp.clients ≤ n) s.size all in
          let room = not_full w.ftp.num_clients (occupied w.ftp.clients) s.count below b in
          After-if ok take_in turn_away
            (λ _.
              take_in-Sound peer address w1 s1
                (subst (λ (f : Ftp). occupied f.clients < max_clients) (sym a.ftp) room))
            (λ _. turn_away-Sound peer w1 s1))

  -- What follows an answer of `net_accept`.
  answered-Sound :
      (x : S32) (more : ℕ → M Bool) (w : World)
      → Sound w.ftp
      → ((peer : ℕ) → After (λ _ w'. Sound w'.ftp) (more peer w))
      → After
          (λ _ w'. Sound w'.ftp)
          ((elim x as (λ _. M Bool) [
            | err eagain ↦ pure true
            | err _ ↦ pure false
            | val peer ↦ more peer
          ])
            w)
  answered-Sound (err eagain) more w s h = ended s
  answered-Sound (err _) more w s h = ended s
  answered-Sound (val peer) more w s h = h peer

  -- From a sound state, accepting new clients uses no dead pointer, and where it comes back, the state
  -- is sound again.
  pub process_accept_events-Sound :
      (fuel : ℕ) (server : S32) (w : World)
      → Sound w.ftp
      → After (λ _ w'. Sound w'.ftp) (process_accept_events fuel server w)
  unfolding process_accept_events
  process_accept_events-Sound zero server w s = waits
  process_accept_events-Sound (suc fuel) server w s =
      After-then ((call-Apart (Call.net_accept server)).run w tt) λ a w1 h.
        let s1 = subst Sound (sym h.ftp) s in
        answered-Sound a.code
          (λ peer. do
            returns ← accept_one peer a.payload
            if returns then pure true else process_accept_events fuel server)
          w1 s1
          (λ peer. After-then (accept_one-Sound peer a.payload w1 s1) λ returns w2 s2.
            After-if returns (pure true) (process_accept_events fuel server) (λ _. ended s2)
              (λ _. process_accept_events-Sound fuel server w2 s2))
