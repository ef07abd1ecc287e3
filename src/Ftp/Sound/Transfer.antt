-- ===== src/Ftp/Sound/Transfer.antt =====
-- `process_data_events` of source/ftp.c as a whole, from a sound state.
use ftpii.Base.{
  ℕ, ◌≡◌, ◌≢◌, refl, sym, ap, subst, ◌∙◌, ◌⊎◌, inl, inr, Bool, true, false, Option, none, some,
  arith, ◌==◌, Bool-cases, codes, ◌<◌, if◌then◌else◌,
}
use ftpii.Os.{S32, val, err, Os}
use ftpii.World.{World, Ftp, Client, Callback, M, pure, load}
use ftpii.World.Keeps.{After, ended, After-then, After-Ensures}
use ftpii.World.Triple.{Ensures, ended as ends_well, Ensures-mono, Ensures-bind}
use ftpii.Ftp.Reply.{write_reply}
use ftpii.Ftp.Data.{transfer_error}
use ftpii.Ftp.Session.{Serves, Serves-unchanged, write_reply-Serves}
use ftpii.Ftp.Job.{HasJob, idle, owns, shut}
use ftpii.Ftp.Cleanup.{cleanup_client}
use ftpii.Ftp.Cleanup.Release.{IsOpen, Touches, released, cleanup_data_resources-Touches}
use ftpii.Ftp.Cleanup.Table.{In}
use ftpii.Ftp.Events.{
  Progress, waiting, failed, complete, progress, end_transfer, process_data_events,
}
use ftpii.Ftp.Sound.{Sound, shut-some, shut-IsOpen}
use ftpii.Ftp.Sound.Works.{Works-Sound, after}
use ftpii.Ftp.Sound.Data.{transfer_round-Works}
use ftpii.Ftp.Sound.Ending.{cleanup_client-Sound}

-- A client is the one that was let go of its transfer, or another one, as it was.
which :
    (p : ℕ) (b : Client) (f g : ℕ → Option Client)
    → g p ≡ some b
    → ((q : ℕ) → (p == q) ≡ false → g q ≡ f q)
    → (q : ℕ) (d : Client) → g q ≡ some d
    → ((p ≡ q) × (d ≡ b)) ⊎ ((q ≢ p) × (f q ≡ some d))
which p b f g h others q d e = elim (Bool-cases (p == q)) [
  | inl same ↦
      let at : p ≡ q = ground arith in
      let two : some b ≡ some d = sym h ∙ ap g at ∙ e in inl (at, cc)
  | inr n ↦ inr (λ k. absurd (ground arith), sym (others q n) ∙ e)
]

Touches-Sound :
    {u v : Ftp} {p : ℕ} {c : Client}
    → u.heap p ≡ some c
    → Touches p u v (owns c) (λ d. d ≡ released c)
    → Sound u
    → Sound v
Touches-Sound {u} {v} {p} {c} h t s =
    let b = released c in
    let here : v.heap p ≡ some b = t.here ∙ ap some t.becomes in
    let was : (q : ℕ) (d : Client)
        → v.heap q ≡ some d
        → ((p ≡ q) × (d ≡ b)) ⊎ ((q ≢ p) × (u.heap q ≡ some d)) =
      which p b u.heap v.heap here t.others in
    subst Sound (sym t.same) (record {
      jobs = λ q d e. elim (was q d e) [
        | inl (at, k) ↦ subst HasJob (sym k) idle
        | inr (n, f) ↦ s.jobs q d f
      ];
      opens = λ q d e. elim (was q d e) [
        | inl (at, k) ↦ subst (λ x. IsOpen (owns x) (shut (owns c) u.dirs)) (sym k) tt
        | inr (n, f) ↦
            shut-IsOpen (owns c) (owns d) u.dirs (λ a o o'. n (s.apart q p a d c f h o' o))
              (s.opens q d f)
      ];
      apart = λ q q' a d d' e e' o o'. elim (was q d e) [
        | inl (at, k) ↦ let nothing : none ≡ some a = ap owns (sym k) ∙ o in absurd (cc)
        | inr (n, f) ↦ elim (was q' d' e') [
          | inl (at, k) ↦ let nothing : none ≡ some a = ap owns (sym k) ∙ o' in absurd (cc)
          | inr (n', f') ↦ s.apart q q' a d d' f f' o o'
        ]
      ];
      fresh = λ q d e. elim (was q d e) [
        | inl (at, k) ↦ subst (λ x. x < u.next) at (s.fresh p c h)
        | inr (n, f) ↦ s.fresh q d f
      ];
      fresh_dirs = λ a cursor e. s.fresh_dirs a cursor (shut-some (owns c) u.dirs a cursor e);
      size = s.size;
      live = λ q i. let (d, f) = s.live q i in after p b u.heap v.heap here t.others q d f;
      listed = λ q d e. elim (was q d e) [
        | inl (at, k) ↦ subst (λ x. In x u.clients) at (s.listed p c h)
        | inr (n, f) ↦ s.listed q d f
      ];
      tabled = s.tabled;
      count = s.count;
    })

module _ ⦃os : Os⦄ where
  -- What becomes of a client by the result of its reply.
  told-Sound :
      (p : ℕ) (r : S32) (w : World)
      → Sound w.ftp
      → In p w.ftp.clients
      → Ensures
          ((elim r as (λ _. M (Unit {0})) [ err _ ↦ cleanup_client p | val _ ↦ pure tt ]) w)
          (λ _ w'. Sound w'.ftp)
  told-Sound p (val n) w s i = ends_well s
  told-Sound p (err e) w s i = Ensures-mono (cleanup_client-Sound p w s i) λ _ w' r. r.0

  reply-Serves :
      (p : ℕ) (success : Bool) (c : Client) (w : World)
      → w.ftp.heap p ≡ some c
      → Ensures
          ((if success
              then write_reply p 226 (codes "Closing data connection, transfer successful.")
              else write_reply p 520 transfer_error)
            w)
          (λ _ w'. Serves p w w' (λ d. d ≡ c))
  reply-Serves p true c w h =
      write_reply-Serves p 226 (codes "Closing data connection, transfer successful.") c w h
  reply-Serves p false c w h = write_reply-Serves p 520 transfer_error c w h

  -- The end of a transfer always comes back, and the state is sound again.
  end_transfer-Sound :
      (p : ℕ) (success : Bool) (c : Client) (w : World)
      → Sound w.ftp
      → w.ftp.heap p ≡ some c
      → Ensures (end_transfer p success w) (λ _ w'. Sound w'.ftp)
  unfolding end_transfer
  end_transfer-Sound p success c w s h =
      Ensures-bind (cleanup_data_resources-Touches p c w h (s.jobs p c h) (s.opens p c h)) λ _ w1 t.
        let here : w1.ftp.heap p ≡ some (released c) = t.here ∙ ap some t.becomes in
        let s1 = Touches-Sound h t s in
        Ensures-bind (reply-Serves p success (released c) w1 here) λ r w2 u.
          let s2 = subst Sound (sym (Serves-unchanged here u)) s1 in
          let here2 : w2.ftp.heap p ≡ some (released c) =
            ap (λ (f : Ftp). f.heap p) (Serves-unchanged here u) ∙ here in
          told-Sound p r w2 s2 (s2.listed p (released c) here2)

  -- What follows a round of a transfer.
  judged-Sound :
      (p : ℕ) (x : Progress) (c : Client) (w : World)
      → Sound w.ftp
      → w.ftp.heap p ≡ some c
      → After
          (λ _ w'. Sound w'.ftp)
          ((elim x as (λ _. M (Unit {0})) [
            | waiting ↦ pure tt
            | failed ↦ end_transfer p false
            | complete ↦ end_transfer p true
          ])
            w)
  judged-Sound p waiting c w s h = ended s
  judged-Sound p failed c w s h = After-Ensures (end_transfer-Sound p false c w s h)
  judged-Sound p complete c w s h = After-Ensures (end_transfer-Sound p true c w s h)

  -- From a sound state, data events at a client of the table that has a transfer use no dead pointer,
  -- and where they come back, the state is sound again.
  pub process_data_events-Sound :
      (fuel p : ℕ) (c : Client) (cb : Callback) (w : World)
      → Sound w.ftp
      → w.ftp.heap p ≡ some c
      → c.data_callback ≡ some cb
      → After (λ _ w'. Sound w'.ftp) (process_data_events fuel p w)
  unfolding process_data_events load
  process_data_events-Sound fuel p c cb w s h k =
      rw (h, load)
        (After-then
          ((transfer_round-Works p fuel c cb k (s.jobs p c h)).run w (s.opens p c h, (c, h, refl)))
          λ r w1 works.
            let (o, rest) = works.busy (s.opens p c h, (c, h, refl)) in
            let (c1, h1, e1) = rest in judged-Sound p (progress r) c1 w1 (Works-Sound h works s) h1)
