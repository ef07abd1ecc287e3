-- ===== src/Ftp/Cleanup/Release.antt =====
-- What `cleanup_data_resources` and `cleanup_client` of source/ftp.c let go of, exactly.
use ftpii.Base.{
  ℕ, ◌+◌, ◌%◌, ◌≡◌, refl, sym, ap, ◌∙◌, subst, Bool, true, false, Option, none, some, ◌==◌, ==-refl,
  if◌then◌else◌,
}
use ftpii.Os.{S32, val, err, minus_one, Os}
use ftpii.World.{
  World, Ftp, Client, Callback, Arg, virtual, device, Cleanup, update, load, call, M, pure, ◌>>◌,
}
use ftpii.World.Triple.{Ensures, ended, Ensures-mono, Ensures-bind}
use ftpii.World.Frame.{Talks, Talks-refl}
use ftpii.Net.{net_close_blocking}
use ftpii.Vrt.Dirs.{vrt_dirclose-virtual, vrt_dirclose-device}
use ftpii.Ftp.Session.{
  Network, Serves, Serves-Talks, Serves-trans, modify-Serves, net_close_blocking-Talks,
  close_passive_socket-Serves,
}
use ftpii.Ftp.Job.{IsJob, idle, names, lists, sends, receives, HasJob, owned, owns, shut}
use ftpii.Ftp.Cleanup.{
  same_socket, free_client, clear_slot, leave_table, run_cleanup, clean_arg, close_data_socket,
  cleanup_data_resources, cleanup_client,
}

-- The iterator of the program's own that the client is at work on is there.
abbrev pub IsOpen : Option ℕ → (ℕ → Option ℕ) → Type 0
IsOpen none dirs = Unit {0}
IsOpen (some d) dirs = (cursor : ℕ) × (dirs d ≡ some cursor)

-- The client at `p` is now as `Q` says, the iterator `closed` is closed, and nothing else differs.
pub record Touches (p : ℕ) (u v : Ftp) (closed : Option ℕ) (Q : Client → Type 0) : Type 0 where
  pub same : v ≡ record u { heap = v.heap; dirs = shut closed u.dirs }
  pub others : (q : ℕ) → (p == q) ≡ false → v.heap q ≡ u.heap q
  pub client : Client
  pub here : v.heap p ≡ some client
  pub becomes : Q client

-- The client at `p` is gone from the heap and the table, the iterator `closed` is closed, and nothing
-- else differs.
pub record Released (p : ℕ) (u v : Ftp) (closed : Option ℕ) : Type 0 where
  pub same : v ≡ record u {
    heap = v.heap;
    dirs = shut closed u.dirs;
    clients = clear_slot p u.clients;
    num_clients = (u.num_clients + 255) % 256;
  }
  pub others : (q : ℕ) → (p == q) ≡ false → v.heap q ≡ u.heap q
  pub gone : v.heap p ≡ none

-- A client without a transfer.
abbrev pub released : Client → Client
released c = record c {
  data_socket = minus_one;
  data_connection_connected = false;
  data_callback = none;
  data_connection_callback_arg = none;
  data_connection_cleanup = none;
  data_connection_timer = 0;
}

-- The closing of an iterator between two steps at the client.
Touches-around :
    {p : ℕ} {u v w x : World} {closed : Option ℕ} {Q R : Client → Type 0}
    → Serves p u v Q
    → w.ftp ≡ record v.ftp { dirs = shut closed v.ftp.dirs }
    → Serves p w x R
    → Touches p u.ftp x.ftp closed R
Touches-around {p} {u} {v} {w} {x} {closed} s e t = record {
  same =
      t.same
      ∙ ap (λ (f : Ftp). record f { heap = x.ftp.heap }) e
      ∙ ap (λ (f : Ftp). record f { heap = x.ftp.heap; dirs = shut closed f.dirs }) s.same;
  others = λ q n. t.others q n ∙ ap (λ (f : Ftp). f.heap q) e ∙ s.others q n;
  client = t.client;
  here = t.here;
  becomes = t.becomes;
}

Touches-after :
    {p : ℕ} {u : Ftp} {v w : World} {closed : Option ℕ} {Q R : Client → Type 0}
    → Touches p u v.ftp closed Q
    → Serves p v w R
    → Touches p u w.ftp closed R
Touches-after {w} s t = record {
  same = t.same ∙ ap (λ (f : Ftp). record f { heap = w.ftp.heap }) s.same;
  others = λ q n. t.others q n ∙ s.others q n;
  client = t.client;
  here = t.here;
  becomes = t.becomes;
}

Touches-mono :
    {p : ℕ} {u v : Ftp} {closed : Option ℕ} {Q R : Client → Type 0}
    → Touches p u v closed Q
    → ((c : Client) → Q c → R c)
    → Touches p u v closed R
Touches-mono s k = record {
  same = s.same;
  others = s.others;
  client = s.client;
  here = s.here;
  becomes = k s.client s.becomes;
}

module _ ⦃os : Os⦄ where
  pub clean_arg-Shuts :
      (cb : Option Callback) (cl : Option Cleanup) (arg : Option Arg) (w : World)
      → IsJob cb arg cl
      → IsOpen (owned arg) w.ftp.dirs
      → Ensures
          (clean_arg cl arg w)
          (λ _ w'. w'.ftp ≡ record w.ftp { dirs = shut (owned arg) w.ftp.dirs })
  unfolding clean_arg run_cleanup call
  clean_arg-Shuts _ _ _ w idle o = ended refl
  clean_arg-Shuts _ _ _ w (names (virtual d)) (cursor, e) = vrt_dirclose-virtual d cursor w e
  clean_arg-Shuts _ _ _ w (names (device d)) o = vrt_dirclose-device d w
  clean_arg-Shuts _ _ _ w (lists (virtual d)) (cursor, e) = vrt_dirclose-virtual d cursor w e
  clean_arg-Shuts _ _ _ w (lists (device d)) o = vrt_dirclose-device d w
  clean_arg-Shuts _ _ _ w (sends f) o = ended refl
  clean_arg-Shuts _ _ _ w (receives f) o = ended refl

  abbrev closing : Client → S32 → M (Unit {0})
  closing c s = elim s [
    | val n ↦
        if same_socket n c.passive_socket then pure tt else (do net_close_blocking (val n); pure tt)
    | err _ ↦ pure tt
  ]

  close_unless-Talks :
      (b : Bool) (s : S32) (w : World)
      → Ensures
          ((if b then pure tt else (do net_close_blocking s; pure tt)) w)
          (λ _ w'. Talks Network w w')
  close_unless-Talks true s w = ended (Talks-refl w)
  close_unless-Talks false s w = Ensures-bind (net_close_blocking-Talks s w) λ _ w1 t. ended t

  closing-Talks :
      (c : Client) (s : S32) (w : World) → Ensures (closing c s w) (λ _ w'. Talks Network w w')
  closing-Talks c (val n) w = close_unless-Talks (same_socket n c.passive_socket) (val n) w
  closing-Talks c (err e) w = ended (Talks-refl w)

  pub close_data_socket-Talks :
      (c : Client) (w : World) → Ensures (close_data_socket c w) (λ _ w'. Talks Network w w')
  unfolding close_data_socket
  close_data_socket-Talks c w = closing-Talks c c.data_socket w

  -- `cleanup_data_resources` always comes back, and closes what the client was at work on.
  pub cleanup_data_resources-Touches :
      (p : ℕ) (c : Client) (w : World)
      → w.ftp.heap p ≡ some c
      → HasJob c
      → IsOpen (owns c) w.ftp.dirs
      → Ensures
          (cleanup_data_resources p w)
          (λ _ w'. Touches p w.ftp w'.ftp (owns c) (λ d. d ≡ released c))
  unfolding cleanup_data_resources load
  cleanup_data_resources-Touches p c w h j o =
      rw (h, load)
        (Ensures-bind (close_data_socket-Talks c w) λ _ w1 t1.
          Ensures-bind (modify-Serves p _ c w1 (ap (λ (f : Ftp). f.heap p) t1.ftp ∙ h)) λ _ w2 s2.
            let s12 = Serves-trans (Serves-Talks h t1) s2 in
            Ensures-bind
              (clean_arg-Shuts c.data_callback c.data_connection_cleanup
                c.data_connection_callback_arg w2 j
                (subst (IsOpen (owns c)) (sym (ap (λ (f : Ftp). f.dirs) s12.same)) o))
              λ _ w3 e3.
                Ensures-mono
                  (modify-Serves p _ s12.client w3 (ap (λ (f : Ftp). f.heap p) e3 ∙ s12.here))
                  λ _ w4 s4.
                    let t = Touches-around s12 e3 s4 in
                    let last =
                      ap
                        (λ (d : Client). record d {
                          data_connection_callback_arg = none;
                          data_connection_cleanup = none;
                          data_connection_timer = 0;
                        })
                        s12.becomes in
                    Touches-mono t λ d e. e ∙ last)

  -- The last two steps, which make no call.
  free_client-Released :
      (p : ℕ) (u : Ftp) (w : World) (closed : Option ℕ) {Q : Client → Type 0}
      → Touches p u w.ftp closed Q
      → Ensures ((do free_client p; leave_table p) w) (λ _ w'. Released p u w'.ftp closed)
  unfolding free_client leave_table
  free_client-Released p u w closed t =
      rw (t.here, free_client)
        (ended (record {
          same =
              ap
                (λ (f : Ftp). record f {
                  heap = update w.ftp.heap p none;
                  clients = clear_slot p f.clients;
                  num_clients = (f.num_clients + 255) % 256;
                })
                t.same;
          others = λ q n. rw n (t.others q n);
          gone = rw (==-refl p) refl;
        }))

  -- For a live client whose transfer is as one was set up and whose directory iterator is open,
  -- `cleanup_client` always comes back and uses no dead pointer; the client is then gone from the heap
  -- and from the table, its iterator is closed, the count is one less, and no other client, iterator
  -- or static variable of source/ftp.c differs.
  pub cleanup_client-Released :
      (p : ℕ) (c : Client) (w : World)
      → w.ftp.heap p ≡ some c
      → HasJob c
      → IsOpen (owns c) w.ftp.dirs
      → Ensures (cleanup_client p w) (λ _ w'. Released p w.ftp w'.ftp (owns c))
  unfolding cleanup_client load
  cleanup_client-Released p c w h j o =
      rw (h, load)
        (Ensures-bind (net_close_blocking-Talks c.socket w) λ _ w1 t1.
          let h1 : w1.ftp.heap p ≡ some c = ap (λ (f : Ftp). f.heap p) t1.ftp ∙ h in
          let o1 = subst (λ (f : Ftp). IsOpen (owns c) f.dirs) (sym t1.ftp) o in
          Ensures-bind (cleanup_data_resources-Touches p c w1 h1 j o1) λ _ w2 t2.
            Ensures-bind (close_passive_socket-Serves p t2.client w2 t2.here) λ _ w3 s3.
              Ensures-mono (free_client-Released p w1.ftp w3 (owns c) (Touches-after t2 s3))
                λ _ w4 r. subst (λ f. Released p f w4.ftp (owns c)) t1.ftp r)
