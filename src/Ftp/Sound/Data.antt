-- ===== src/Ftp/Sound/Data.antt =====
-- Transfers, `process_data_events` of source/ftp.c, from a sound state.
use ftpii.Base.{
  ℕ, zero, suc, ◌≡◌, refl, sym, subst, ◌∙◌, inl, inr, true, Option, none, some, arith, ◌==◌,
  Bool-cases, ltb, Bytes,
}
use ftpii.Os.{S32, val, err, minus_one, Stat, Call, Os, unsigned}
use ftpii.World.{
  World, Client, Callback, Arg, dir, file, Dir, virtual, device, Cleanup, M, fault, update,
}
use ftpii.World.Keeps.{
  waits, After-mono, Keeps, Keeps-bind, Keeps-then, Keeps-pure, Keeps-if, Keeps-S32, Keeps-Option,
}
use ftpii.World.Apart.{call-Apart}
use ftpii.Net.Frame.{send_exact-Apart, send_from_file-Apart, recv_to_file-Apart}
use ftpii.Vrt.{vrt_dirnext}
use ftpii.Vrt.Dirs.{vrt_dirnext-virtual, vrt_dirnext-device}
use ftpii.Ftp.Listing.{nlst_line, list_line, send_entries, send_nlst, send_list}
use ftpii.Ftp.Job.{IsJob, idle, names, lists, sends, receives, HasJob, owned}
use ftpii.Ftp.Events.{
  connect_result, is_connected, run_callback, connect_data, await_data, transfer_round,
}
use ftpii.Ftp.Cleanup.Release.{IsOpen}
use ftpii.Ftp.Sound.Works.{
  Job, job, Busy, Works, Works-frame, IsOpen-moved, Keeps-Apart, Keeps-load, Keeps-modify,
}

abbrev Working : {A : Type 0} → ℕ → Job → M A → Type 0
Working p j m = Keeps (Busy p j) (Works p j) m

cursor-moved :
    (a cursor' : ℕ) (f : ℕ → Option ℕ) (d c : ℕ)
    → f d ≡ some c
    → (c' : ℕ) × (update f a (some cursor') d ≡ some c')
cursor-moved a cursor' f d c h = elim (Bool-cases (a == d)) [
  | inl e ↦ (cursor', rw e refl)
  | inr n ↦ (c, rw n h)
]

cursor-back :
    (a cursor cursor' : ℕ) (f : ℕ → Option ℕ)
    → f a ≡ some cursor
    → (d c : ℕ) → update f a (some cursor') d ≡ some c
    → (c' : ℕ) × (f d ≡ some c')
cursor-back a cursor cursor' f h d c k = elim (Bool-cases (a == d)) [
  | inl e ↦ (cursor, subst (λ x. f x ≡ some cursor) (ground arith) h)
  | inr n ↦ let other : update f a (some cursor') d ≡ f d = rw n refl in (c, sym other ∙ k)
]

-- One iterator is at another entry.
Works-cursor :
    (p : ℕ) (j : Job) (a cursor cursor' : ℕ) (w w' : World)
    → w.ftp.dirs a ≡ some cursor
    → w'.ftp ≡ record w.ftp { dirs = update w.ftp.dirs a (some cursor') }
    → Works p j w w'
Works-cursor p j a cursor cursor' w w' h e =
    let onward = cursor-moved a cursor' w.ftp.dirs in
    subst (λ f. Works p j w (record w' { ftp = f })) (sym e)
      (record {
        same = refl;
        others = λ q n. refl;
        busy = λ b. (
          IsOpen-moved (owned j.arg) w.ftp.dirs (update w.ftp.dirs a (some cursor')) onward b.0,
          b.1,
        );
        moved = onward;
        back = cursor-back a cursor cursor' w.ftp.dirs h;
      })

module _ ⦃os : Os⦄ where
  vrt_dirnext-Works :
      (p : ℕ) (j : Job) (d : Dir) (st : Stat)
      → j.arg ≡ some (dir d)
      → Working p j (vrt_dirnext d st)
  vrt_dirnext-Works p j (device d) st h = Keeps-Apart (vrt_dirnext-device d st)
  vrt_dirnext-Works p j (virtual a) st h = record {
    run = λ w i.
        let (cursor, e) = subst (λ x. IsOpen (owned x) w.ftp.dirs) h i.0 in
        After-mono (vrt_dirnext-virtual a cursor st w e)
          λ _ w' r. Works-cursor p j a cursor r.0 w w' e r.1;
  }

  send_entries-Works :
      (p : ℕ) (j : Job) (fuel : ℕ) (line : Bytes → Stat → Bytes) (s : S32) (d : Dir) (st : Stat)
      → j.arg ≡ some (dir d)
      → Working p j (send_entries fuel line s d st)
  unfolding send_entries
  send_entries-Works p j zero line s d st h = record { run = λ w i. waits }
  send_entries-Works p j (suc fuel) line s d st h =
      let round = Keeps-bind (vrt_dirnext-Works p j d st h) λ entry.
        Keeps-Option entry (Keeps-pure (val 0)) λ found.
          Keeps-bind (Keeps-Apart (send_exact-Apart s (line found.0 found.1))) λ result.
            Keeps-S32 result (λ n. send_entries-Works p j fuel line s d found.1 h)
              (λ e. Keeps-pure (err e)) in
      record { run = λ w i. round.run w i }

  -- A callback runs on what was stored with it.
  run_callback-Works :
      (p fuel : ℕ) (s : S32) (cb : Callback) (callback : Option Callback) (arg : Option Arg)
      (cleanup : Option Cleanup)
      → callback ≡ some cb
      → IsJob callback arg cleanup
      → Working p
          (record { callback = callback; arg = arg; cleanup = cleanup })
          (run_callback fuel cb s arg)
  unfolding run_callback send_nlst send_list
  run_callback-Works p fuel s cb _ _ _ h idle = absurd (cc)
  run_callback-Works p fuel s cb _ _ _ h (names d) =
      let e : Callback.send_nlst ≡ cb = cc in
      let j : Job = record {
        callback = some Callback.send_nlst;
        arg = some (dir d);
        cleanup = some Cleanup.vrt_dirclose;
      } in
      subst (λ x. Working p j (run_callback fuel x s (some (dir d)))) e
        (send_entries-Works p j fuel nlst_line s d os.garbage refl)
  run_callback-Works p fuel s cb _ _ _ h (lists d) =
      let e : Callback.send_list ≡ cb = cc in
      let j : Job = record {
        callback = some Callback.send_list;
        arg = some (dir d);
        cleanup = some Cleanup.vrt_dirclose;
      } in
      subst (λ x. Working p j (run_callback fuel x s (some (dir d)))) e
        (send_entries-Works p j fuel list_line s d os.garbage refl)
  run_callback-Works p fuel s cb _ _ _ h (sends f) =
      let e : Callback.send_from_file ≡ cb = cc in
      let j : Job = record {
        callback = some Callback.send_from_file;
        arg = some (file f);
        cleanup = some Cleanup.fclose;
      } in
      subst (λ x. Working p j (run_callback fuel x s (some (file f)))) e
        (Keeps-Apart (send_from_file-Apart s f))
  run_callback-Works p fuel s cb _ _ _ h (receives f) =
      let e : Callback.recv_to_file ≡ cb = cc in
      let j : Job = record {
        callback = some Callback.recv_to_file;
        arg = some (file f);
        cleanup = some Cleanup.fclose;
      } in
      subst (λ x. Working p j (run_callback fuel x s (some (file f)))) e
        (Keeps-Apart (recv_to_file-Apart fuel s f))

  connect_data-Works : (p : ℕ) (j : Job) → Working p j (connect_data p)
  unfolding connect_data
  connect_data-Works p j = Keeps-load λ c k.
      Keeps-S32 c.passive_socket
        (λ s. Keeps-bind (Keeps-Apart (call-Apart (Call.net_accept (val s)))) λ a.
          Keeps-S32 a.code
            (λ peer.
              Keeps-then
                (Keeps-modify p j
                  (λ d. record d { data_socket = val peer; data_connection_connected = true })
                  (λ d. refl))
                (Keeps-pure (val peer)))
            (λ e. Keeps-pure (err e)))
        (λ e.
          Keeps-bind
            (Keeps-Apart (call-Apart (Call.net_connect c.data_socket c.address_ip c.address_port)))
            λ a.
              Keeps-then
                (Keeps-if (is_connected a.code)
                  (Keeps-modify p j (λ d. record d { data_connection_connected = true })
                    (λ d. refl))
                  (Keeps-pure tt))
                (Keeps-pure (connect_result a.code)))

  await_data-Works : (p : ℕ) (j : Job) → Working p j (await_data p)
  unfolding await_data
  await_data-Works p j = Keeps-bind (connect_data-Works p j) λ result. Keeps-load λ c k.
      Keeps-if c.data_connection_connected (Keeps-pure (val 1)) (
        Keeps-bind (Keeps-Apart (call-Apart Call.gettime)) λ now.
          Keeps-if (ltb c.data_connection_timer (unsigned now.code)) (Keeps-pure minus_one)
            (Keeps-pure result))

  -- A round of a transfer that there is.
  pub transfer_round-Works :
      (p fuel : ℕ) (c : Client) (cb : Callback)
      → c.data_callback ≡ some cb
      → HasJob c
      → Working p (job c) (transfer_round fuel c p)
  unfolding transfer_round
  transfer_round-Works p fuel c cb h k =
      Keeps-if c.data_connection_connected
        (subst
          (λ x. Working p (job c) (elim x as (λ _. M S32) [
            | some callback ↦
                run_callback fuel callback c.data_socket c.data_connection_callback_arg
            | none ↦ λ w. fault
          ]))
          (sym h)
          (run_callback-Works p fuel c.data_socket cb c.data_callback c.data_connection_callback_arg
            c.data_connection_cleanup h k))
        (await_data-Works p (job c))
