-- ===== src/Tests/Clients.antt =====
-- The theorems on clients and their transfers at concrete inputs.
use ftpii.Base.{
  [], ◌∷◌, ℕ, ◌<◌, suc, false, ◌≡◌, refl, sym, subst, ◌∙◌, inl, inr, true, Option, none, some,
  arith, codes, ◌==◌, Bool-cases,
}
use ftpii.Os.{val}
use ftpii.World.{◌>>=◌, World, Client, Callback, dir, Cleanup, virtual, update}
use ftpii.World.Triple.{Ensures}
use ftpii.World.Keeps.{After}
use ftpii.Ftp.Job.{HasJob, names, owns}
use ftpii.Ftp.Cleanup.{clear_slot, cleanup_client, cleanup_ftp}
use ftpii.Ftp.Cleanup.Release.{IsOpen, Released}
use ftpii.Ftp.Cleanup.Closings.{Closes, held}
use ftpii.Ftp.Cleanup.Handles.{cleanup_client-Closes}
use ftpii.Ftp.Cleanup.Table.{In}
use ftpii.Ftp.Events.{process_data_events, end_transfer}
use ftpii.Ftp.Events.Ending.{Ending, end_transfer-Ending}
use ftpii.Ftp.Events.Accept.{process_accept_events}
use ftpii.Ftp.Sound.{Sound}
use ftpii.Ftp.Sound.Ending.{cleanup_client-Sound, cleanup_ftp-Empties}
use ftpii.Ftp.Sound.Accept.{process_accept_events-Sound}
use ftpii.Ftp.Sound.Transfer.{process_data_events-Sound}
use ftpii.Ftp.Dispatch.{process_command}
use ftpii.Ftp.Dispatch.Live.{process_command-Sound}
use ftpii.Ftp.Sound.Live.{Confined}
use ftpii.Ftp.Events.Control.{process_control_events}
use ftpii.Ftp.Events.Control.Live.{process_control_events-Sound}
use ftpii.Ftp.Server.{process_ftp_events}
use ftpii.Ftp.Server.Sound.{process_ftp_events-Sound}
use ftpii.Main.{main, main_loop, shut_down}
use ftpii.Main.Shutdown.{switched_off, main_loop-shut_down}
use ftpii.Main.Sound.{main-Sound}
use ftpii.Tests.{sample_os, sample_world, guest}

-- The client whom the names in the root are sent to, by the iterator at 5.
abbrev lister : Client
lister = record guest {
  authenticated = true;
  data_socket = val 6;
  data_connection_connected = true;
  data_callback = some Callback.send_nlst;
  data_connection_callback_arg = some (dir (virtual 5));
  data_connection_cleanup = some Cleanup.vrt_dirclose;
}

abbrev nobody : ℕ → Option Client
nobody q = none

abbrev no_dirs : ℕ → Option ℕ
no_dirs d = none

abbrev listing_world : World
listing_world = record sample_world {
  ftp = record sample_world.ftp {
    heap = update nobody 1 (some lister);
    dirs = update no_dirs 5 (some 2);
    next = 6;
  };
}

only_lister :
    (q : ℕ) (c : Client) → update nobody 1 (some lister) q ≡ some c → (1 ≡ q) × (c ≡ lister)
only_lister q c h = elim (Bool-cases (1 == q)) [
  | inl e ↦
      let here : update nobody 1 (some lister) q ≡ some lister = rw e refl in
      let two : some lister ≡ some c = sym here ∙ h in (ground arith, cc)
  | inr n ↦
      let none_here : update nobody 1 (some lister) q ≡ none = rw n refl in
      let nothing : none ≡ some c = sym none_here ∙ h in absurd (cc)
]

only_dir : (d cursor : ℕ) → update no_dirs 5 (some 2) d ≡ some cursor → d < 6
only_dir d cursor h = elim (Bool-cases (5 == d)) [
  | inl e ↦ ground arith
  | inr n ↦
      let none_here : update no_dirs 5 (some 2) d ≡ none = rw n refl in
      let nothing : none ≡ some cursor = sym none_here ∙ h in absurd (cc)
]

listing-Sound : Sound listing_world.ftp
listing-Sound = record {
  jobs = λ q c h. subst HasJob (sym (only_lister q c h).1) (names (virtual 5));
  opens = λ q c h.
      subst (λ x. IsOpen (owns x) listing_world.ftp.dirs) (sym (only_lister q c h).1) (2, refl);
  apart = λ p q d b c h k o o'. sym (only_lister p b h).0 ∙ (only_lister q c k).0;
  fresh = λ q c h. subst (λ x. x < 6) (only_lister q c h).0 (omega arith);
  fresh_dirs = only_dir;
  size = refl;
  live = λ q i. elim i [
    | inl e ↦ (lister, subst (λ x. listing_world.ftp.heap x ≡ some lister) e refl)
    | inr n ↦ absurd n
  ];
  listed = λ q c h. inl (only_lister q c h).0;
  tabled = (λ h. h, tt);
  count = refl;
}

process_data_events-Sound_example :
    After (λ _ w'. Sound w'.ftp) (process_data_events ⦃os = sample_os⦄ 10 1 listing_world)
process_data_events-Sound_example =
    process_data_events-Sound ⦃os = sample_os⦄ 10 1 lister Callback.send_nlst listing_world
      listing-Sound refl refl

process_accept_events-Sound_example :
    After (λ _ w'. Sound w'.ftp) (process_accept_events ⦃os = sample_os⦄ 10 (val 0) listing_world)
process_accept_events-Sound_example =
    process_accept_events-Sound ⦃os = sample_os⦄ 10 (val 0) listing_world listing-Sound

cleanup_client-Closes_example :
    Ensures
      (cleanup_client ⦃os = sample_os⦄ 1 listing_world)
      (λ _ w'. Released 1 listing_world.ftp w'.ftp (some 5) × Closes (held lister) listing_world w')
cleanup_client-Closes_example =
    cleanup_client-Closes ⦃os = sample_os⦄ 1 lister listing_world refl (names (virtual 5)) (2, refl)

end_transfer-Ending_example :
    Ensures
      (end_transfer ⦃os = sample_os⦄ 1 true listing_world)
      (λ _ w'. Ending 1 lister true listing_world w')
end_transfer-Ending_example =
    end_transfer-Ending ⦃os = sample_os⦄ 1 true lister listing_world refl (names (virtual 5))
      (2, refl)

cleanup_client-Sound_example : Ensures (cleanup_client ⦃os = sample_os⦄ 1 listing_world) (λ _ w'.
    Sound w'.ftp
    × (¬ In 1 w'.ftp.clients)
    × (w'.ftp.clients ≡ clear_slot 1 listing_world.ftp.clients))
cleanup_client-Sound_example =
    cleanup_client-Sound ⦃os = sample_os⦄ 1 listing_world listing-Sound (inl refl)

cleanup_ftp-Empties_example :
    Ensures
      (cleanup_ftp ⦃os = sample_os⦄ listing_world)
      (λ _ w'. Sound w'.ftp × ((q : ℕ) → w'.ftp.heap q ≡ none) × (w'.ftp.num_clients ≡ 0))
cleanup_ftp-Empties_example = cleanup_ftp-Empties ⦃os = sample_os⦄ listing_world listing-Sound

process_ftp_events-Sound_example :
    After (λ _ w'. Sound w'.ftp) (process_ftp_events ⦃os = sample_os⦄ 10 (val 0) listing_world)
process_ftp_events-Sound_example =
    process_ftp_events-Sound ⦃os = sample_os⦄ 10 (val 0) listing_world listing-Sound

process_control_events-Sound_example :
    After (λ _ w'. Sound w'.ftp) (process_control_events ⦃os = sample_os⦄ 10 1 listing_world)
process_control_events-Sound_example =
    process_control_events-Sound ⦃os = sample_os⦄ 10 1 lister listing_world listing-Sound refl

process_command-Sound_example :
    After
      (λ _ w'.
        (Sound w'.ftp × ((d : Client) × (w'.ftp.heap 1 ≡ some d)))
        × Confined 1 listing_world.ftp w'.ftp)
      (process_command ⦃os = sample_os⦄ 10 1 (codes "LIST /sd") listing_world)
process_command-Sound_example =
    process_command-Sound ⦃os = sample_os⦄ 10 1 (codes "LIST /sd") lister listing_world
      listing-Sound refl

-- The statics of the server as the program starts.
abbrev start_world : World
start_world = record sample_world {
  ftp = record {
    num_clients = 0;
    passive_port = 1024;
    password = none;
    clients = none ∷ none ∷ none ∷ none ∷ none ∷ [];
    heap = nobody;
    dirs = no_dirs;
    next = 1;
  };
}

start-Sound : Sound start_world.ftp
start-Sound = record {
  jobs = λ q c h. absurd (cc);
  opens = λ q c h. absurd (cc);
  apart = λ p q d b c h k o o'. absurd (cc);
  fresh = λ q c h. absurd (cc);
  fresh_dirs = λ d cursor h. absurd (cc);
  size = refl;
  live = λ q i. absurd i;
  listed = λ q c h. absurd (cc);
  tabled = tt;
  count = refl;
}

main-Sound_example :
    After
      (λ _ w'. Sound w'.ftp × ((q : ℕ) → w'.ftp.heap q ≡ none))
      (main ⦃os = sample_os⦄ 10 (codes "sd:/apps/ftpii_wii/boot.dol" ∷ []) start_world)
main-Sound_example =
    main-Sound ⦃os = sample_os⦄ 10 (codes "sd:/apps/ftpii_wii/boot.dol" ∷ []) start_world
      start-Sound

-- The power button was pressed.
abbrev last_world : World
last_world = record start_world { reset = record { reset = true; power = true } }

main_loop-shut_down_example :
    Ensures
      (main_loop ⦃os = sample_os⦄ (suc 0) false (val 3) last_world)
      (λ x w'. (x ≡ val 3) × (w'.ftp ≡ last_world.ftp))
    × Ensures
        ((main_loop ⦃os = sample_os⦄ (suc 0) false (val 3) >>= shut_down ⦃os = sample_os⦄)
          last_world)
        (λ r w'.
          (r ≡ 0) × ((q : ℕ) → w'.ftp.heap q ≡ none) × (switched_off w'.trace ≡ w'.reset.power))
main_loop-shut_down_example =
    main_loop-shut_down ⦃os = sample_os⦄ 0 false (val 3) last_world start-Sound refl
