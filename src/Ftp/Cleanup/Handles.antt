-- ===== src/Ftp/Cleanup/Handles.antt =====
-- Which sockets, files and directories `cleanup_client` of source/ftp.c closes.
use ftpii.Base.{ℕ, ◌≡◌, refl, sym, ap, ◌∙◌, subst, [], ◌∷◌, ◌++◌, Option, some}
use ftpii.Os.{S32, val, err, minus_one, Os}
use ftpii.World.{
  World, Ftp, Client, Callback, Arg, virtual, device, Cleanup, load, call, M, pure, ◌>>◌,
}
use ftpii.World.Triple.{Ensures}
use ftpii.World.Keeps.{After, ended, After-then, After-mono, After-Ensures, Ensures-After}
use ftpii.Net.{net_close_blocking}
use ftpii.Vrt.{vrt_dirclose}
use ftpii.Vrt.Dirs.{vrt_dirclose-trace}
use ftpii.Ftp.Reply.{modify, close_passive_socket}
use ftpii.Ftp.Session.{modify-Serves, net_close_blocking-Talks, close_passive_socket-Serves}
use ftpii.Ftp.Job.{IsJob, idle, names, lists, sends, receives, HasJob, owned, owns}
use ftpii.Ftp.Cleanup.{run_cleanup, clean_arg, cleanup_data_resources, cleanup_client}
use ftpii.Ftp.Cleanup.Release.{
  IsOpen, Released, clean_arg-Shuts, close_data_socket-Talks, cleanup_data_resources-Touches,
  cleanup_client-Released,
}
use ftpii.Ftp.Cleanup.Closings.{
  Closes, arg_closing, socket_closing, data_closing, held, Closes-none, Closes-trans, modify-Closes,
  free_client-Closes, net_close_blocking-Closes, close_data_socket-Closes,
}

module _ ⦃os : Os⦄ where
  clean_arg-Closes :
      (cb : Option Callback) (cl : Option Cleanup) (arg : Option Arg) (w : World)
      → IsJob cb arg cl
      → IsOpen (owned arg) w.ftp.dirs
      → After (λ _ w'. Closes (arg_closing arg) w w') (clean_arg cl arg w)
  unfolding clean_arg run_cleanup call vrt_dirclose
  clean_arg-Closes _ _ _ w idle o = ended (Closes-none refl)
  clean_arg-Closes _ _ _ w (names (virtual d)) (cursor, e) =
      After-mono (vrt_dirclose-trace d cursor w e) λ _ w' t. Closes-none t
  clean_arg-Closes _ _ _ w (names (device d)) o =
      ended (record { new = _ ∷ []; grown = refl; exactly = refl })
  clean_arg-Closes _ _ _ w (lists (virtual d)) (cursor, e) =
      After-mono (vrt_dirclose-trace d cursor w e) λ _ w' t. Closes-none t
  clean_arg-Closes _ _ _ w (lists (device d)) o =
      ended (record { new = _ ∷ []; grown = refl; exactly = refl })
  clean_arg-Closes _ _ _ w (sends f) o =
      ended (record { new = _ ∷ []; grown = refl; exactly = refl })
  clean_arg-Closes _ _ _ w (receives f) o =
      ended (record { new = _ ∷ []; grown = refl; exactly = refl })

  cleanup_data_resources-Closes :
      (p : ℕ) (c : Client) (w : World)
      → w.ftp.heap p ≡ some c
      → HasJob c
      → IsOpen (owns c) w.ftp.dirs
      → After
          (λ _ w'.
            Closes
              (arg_closing c.data_connection_callback_arg
                ++ data_closing c.data_socket c.passive_socket)
              w
              w')
          (cleanup_data_resources p w)
  unfolding cleanup_data_resources load
  cleanup_data_resources-Closes p c w h j o =
      rw (h, load)
        (After-then
          (After-Ensures
            (Ensures-After (close_data_socket-Talks c w) (close_data_socket-Closes c w)))
          λ _ w1 (t1, c1).
            let h1 : w1.ftp.heap p ≡ some c = ap (λ (f : Ftp). f.heap p) t1.ftp ∙ h in
            After-then
              (After-Ensures
                (Ensures-After (modify-Serves p _ c w1 h1) (modify-Closes p _ c w1 h1)))
              λ _ w2 (s2, c2).
                let o2 =
                  subst (IsOpen (owns c))
                    (sym (ap (λ (f : Ftp). f.dirs) s2.same ∙ ap (λ (f : Ftp). f.dirs) t1.ftp)) o in
                After-then
                  (After-Ensures (
                    Ensures-After
                      (clean_arg-Shuts c.data_callback c.data_connection_cleanup
                        c.data_connection_callback_arg w2 j o2)
                      (clean_arg-Closes c.data_callback c.data_connection_cleanup
                        c.data_connection_callback_arg w2 j o2)))
                  λ _ w3 (e3, c3).
                    After-mono
                      (modify-Closes p _ s2.client w3 (ap (λ (f : Ftp). f.heap p) e3 ∙ s2.here))
                      λ _ w4 c4. Closes-trans (Closes-trans (Closes-trans c1 c2) c3) c4)

  close_passive-Closes :
      (p : ℕ) (s : S32) (c : Client) (w : World)
      → w.ftp.heap p ≡ some c
      → After
          (λ _ w'. Closes (socket_closing s) w w')
          ((elim s as (λ _. M (Unit {0})) [
            | val n ↦
                net_close_blocking (val n)
                >> modify p (λ d. record d { passive_socket = minus_one })
            | err _ ↦ pure tt
          ])
            w)
  close_passive-Closes p (val n) c w h =
      After-then
        (After-Ensures (
          Ensures-After (net_close_blocking-Talks (val n) w) (net_close_blocking-Closes (val n) w)))
        λ _ w1 (t, k).
          After-mono (modify-Closes p _ c w1 (ap (λ (f : Ftp). f.heap p) t.ftp ∙ h))
            λ _ w2 l. Closes-trans k l
  close_passive-Closes p (err e) c w h = ended (Closes-none refl)

  close_passive_socket-Closes :
      (p : ℕ) (c : Client) (w : World)
      → w.ftp.heap p ≡ some c
      → After (λ _ w'. Closes (socket_closing c.passive_socket) w w') (close_passive_socket p w)
  unfolding close_passive_socket
  close_passive_socket-Closes p c w h = rw (h, load) (close_passive-Closes p c.passive_socket c w h)

  held-Closes :
      (p : ℕ) (c : Client) (w : World)
      → w.ftp.heap p ≡ some c
      → HasJob c
      → IsOpen (owns c) w.ftp.dirs
      → After (λ _ w'. Closes (held c) w w') (cleanup_client p w)
  unfolding cleanup_client load
  held-Closes p c w h j o =
      rw (h, load)
        (After-then
          (After-Ensures (
            Ensures-After (net_close_blocking-Talks c.socket w)
              (net_close_blocking-Closes c.socket w)))
          λ _ w1 (t1, c1).
            let h1 : w1.ftp.heap p ≡ some c = ap (λ (f : Ftp). f.heap p) t1.ftp ∙ h in
            let o1 = subst (λ (f : Ftp). IsOpen (owns c) f.dirs) (sym t1.ftp) o in
            After-then
              (After-Ensures (
                Ensures-After (cleanup_data_resources-Touches p c w1 h1 j o1)
                  (cleanup_data_resources-Closes p c w1 h1 j o1)))
              λ _ w2 (t2, c2).
                let passive : t2.client.passive_socket ≡ c.passive_socket =
                  ap (λ (d : Client). d.passive_socket) t2.becomes in
                After-then
                  (After-Ensures (
                    Ensures-After (close_passive_socket-Serves p t2.client w2 t2.here)
                      (close_passive_socket-Closes p t2.client w2 t2.here)))
                  λ _ w3 (s3, c3). After-mono (free_client-Closes p s3.client w3 s3.here) λ _ w4 c4.
                    let k3 = subst (λ s. Closes (socket_closing s) w2 w3) passive c3 in
                    Closes-trans (Closes-trans (Closes-trans c1 c2) k3) c4)

  -- For a live client whose transfer is as one was set up and whose directory iterator, if it is one of
  -- the program's own, is there, `cleanup_client` always comes back and uses no dead pointer. It closes
  -- the client's socket, the data socket unless it is the passive one too, the file or the device's
  -- directory of the transfer, and the passive socket, as far as the client has them, each by one call,
  -- and nothing else. The client is then gone from the heap and from the table, an iterator of the
  -- program's own is freed, the count is one less modulo 256, and no other client, iterator or static
  -- variable of source/ftp.c differs.
  pub cleanup_client-Closes :
      (p : ℕ) (c : Client) (w : World)
      → w.ftp.heap p ≡ some c
      → HasJob c
      → IsOpen (owns c) w.ftp.dirs
      → Ensures
          (cleanup_client p w)
          (λ _ w'. Released p w.ftp w'.ftp (owns c) × Closes (held c) w w')
  cleanup_client-Closes p c w h j o =
      Ensures-After (cleanup_client-Released p c w h j o) (held-Closes p c w h j o)
