-- ===== src/Ftp/Sound/Prepare.antt =====
-- Setting up a data connection, `prepare_data_connection` of source/ftp.c, from a sound state.
use ftpii.Base.{
  ℕ, ◌+◌, ◌<◌, ◌≡◌, ◌≢◌, refl, sym, ap, subst, ◌∙◌, ◌⊎◌, inl, inr, false, Option, some, arith, ◌==◌,
  ==-refl, Bool-cases, codes, Bytes, length, take,
}
use ftpii.Os.{S32, val, err, Call, Os, unsigned}
use ftpii.World.{
  World, Ftp, Client, Callback, Arg, Cleanup, M, pure, call, load, store, update, ◌>>=◌, ◌>>◌,
}
use ftpii.World.Keeps.{
  After, ended, After-then, After-mono, Keeps, Keeps-bind, Keeps-then, Keeps-pure, Keeps-S32,
}
use ftpii.World.Apart.{call-Apart}
use ftpii.Net.Frame.{send_exact-Apart, set_blocking-Apart}
use ftpii.Ftp.Reply.{modify, reply_line, write_reply}
use ftpii.Ftp.Data.{
  src_port, prepare_data_connection_active, prepare_data_connection_passive, prepare_handler,
  expect_data, transfer_error, prepare_data_connection,
}
use ftpii.Ftp.Job.{IsJob, HasJob, owned, owns}
use ftpii.Ftp.Cleanup.Release.{IsOpen}
use ftpii.Ftp.Cleanup.Table.{In}
use ftpii.Ftp.Sound.{Sound}
use ftpii.Ftp.Sound.Works.{
  Job, job, Busy, Works, Works-frame, Works-Sound, Keeps-Apart, Keeps-load, Keeps-modify,
  IsOpen-moved, before,
}
use ftpii.Ftp.Sound.Live.{Stays, Confined-trans, Works-Confined}

-- The iterator is open, and no client's.
abbrev pub Spare : Option ℕ → Ftp → Type 0
Spare o f =
    IsOpen o f.dirs × ((q d : ℕ) (c : Client) → f.heap q ≡ some c → o ≡ some d → owns c ≢ some d)

-- The state is sound, the client is there, and the iterator is spare.
abbrev pub Ready : ℕ → Ftp → Option ℕ → World → Type 0
Ready p u o w = Stays p u w.ftp × Spare o w.ftp

-- How `prepare_data_connection` ends: the iterator is spare still where the result is an error.
abbrev pub Prepared : ℕ → Ftp → Option ℕ → S32 → World → Type 0
Prepared p u o (val n) w = Stays p u w.ftp
Prepared p u o (err e) w = Ready p u o w

Working-Ready :
    {A : Type 0} (p : ℕ) (u : Ftp) (o : Option ℕ) (m : M A) (w : World)
    → ((j : Job) → Keeps (Busy p j) (Works p j) m)
    → Ready p u o w
    → After (λ _ w'. Ready p u o w') (m w)
Working-Ready p u o m w k r =
    let (l, spare) = r in
    let s = l.0.0 in
    let c = l.0.1.0 in
    let h = l.0.1.1 in
    let b : Busy p (job c) w = (s.opens p c h, (c, h, refl)) in
    After-mono ((k (job c)).run w b) λ _ w' works.
      let (open', rest) = works.busy b in
      let (c', h', e) = rest in
      (
        (
          (Works-Sound h works s, (c', h')),
          Confined-trans l.1 (Works-Confined p (job c) w w' works),
        ),
        (
          IsOpen-moved o w.ftp.dirs w'.ftp.dirs works.moved spare.0,
          λ q d x k' m' mine.
              let (y, ky, same) = before p c c' w.ftp.heap w'.ftp.heap h h' e works.others q x k' in
              spare.1 q d y ky m' (ap (λ (z : Job). owned z.arg) (sym same) ∙ mine),
        ),
      )

-- A client with another transfer.
which :
    (p : ℕ) (b : Client) (f : ℕ → Option Client) (q : ℕ) (c : Client)
    → update f p (some b) q ≡ some c
    → ((p ≡ q) × (c ≡ b)) ⊎ ((q ≢ p) × (f q ≡ some c))
which p b f q c h = elim (Bool-cases (p == q)) [
  | inl e ↦
      let same : p ≡ q = ground arith in
      let at : update f p (some b) q ≡ some b = rw e refl in
      let here : some b ≡ some c = sym at ∙ h in inl (same, cc)
  | inr n ↦
      let at : update f p (some b) q ≡ f q = rw n refl in
      inr (λ k. absurd (ground arith), sym at ∙ h)
]

Hired-Sound :
    (u : Ftp) (p : ℕ) (c b : Client)
    → Sound u
    → u.heap p ≡ some c
    → HasJob b
    → Spare (owns b) u
    → Sound (record u { heap = update u.heap p (some b) })
Hired-Sound u p c b s h j spare = record {
  jobs = λ q d e. elim (which p b u.heap q d e) [
    | inl (at, k) ↦ subst HasJob (sym k) j
    | inr (n, f) ↦ s.jobs q d f
  ];
  opens = λ q d e. elim (which p b u.heap q d e) [
    | inl (at, k) ↦ subst (λ x. IsOpen (owns x) u.dirs) (sym k) spare.0
    | inr (n, f) ↦ s.opens q d f
  ];
  apart = λ q q' a d d' e e' o o'. elim (which p b u.heap q d e) [
    | inl (at, k) ↦ elim (which p b u.heap q' d' e') [
      | inl (at', k') ↦ sym at ∙ at'
      | inr (n', f') ↦ absurd (spare.1 q' a d' f' (ap owns (sym k) ∙ o) o')
    ]
    | inr (n, f) ↦ elim (which p b u.heap q' d' e') [
      | inl (at', k') ↦ absurd (spare.1 q a d f (ap owns (sym k') ∙ o') o)
      | inr (n', f') ↦ s.apart q q' a d d' f f' o o'
    ]
  ];
  fresh = λ q d e. elim (which p b u.heap q d e) [
    | inl (at, k) ↦ subst (λ x. x < u.next) at (s.fresh p c h)
    | inr (n, f) ↦ s.fresh q d f
  ];
  fresh_dirs = s.fresh_dirs;
  size = s.size;
  live = λ q i. elim (Bool-cases (p == q)) [
    | inl e ↦ (b, rw e refl)
    | inr n ↦ let (d, f) = s.live q i in (d, rw n f)
  ];
  listed = λ q d e. elim (which p b u.heap q d e) [
    | inl (at, k) ↦ subst (λ x. In x u.clients) at (s.listed p c h)
    | inr (n, f) ↦ s.listed q d f
  ];
  tabled = s.tabled;
  count = s.count;
}

module _ ⦃os : Os⦄ where
  reply-Works :
      (p code : ℕ) (msg : Bytes) (j : Job) → Keeps (Busy p j) (Works p j) (write_reply p code msg)
  unfolding write_reply
  reply-Works p code msg j = Keeps-load λ c k.
      Keeps-Apart (send_exact-Apart c.socket (take (4 + length msg + 2) (reply_line code msg)))

  active-Works : (p : ℕ) (j : Job) → Keeps (Busy p j) (Works p j) (prepare_data_connection_active p)
  unfolding prepare_data_connection_active
  active-Works p j = Keeps-bind (Keeps-Apart (call-Apart Call.net_socket)) λ made.
      Keeps-S32 made.code
        (λ s. Keeps-then (Keeps-Apart (set_blocking-Apart (val s) false)) (
          Keeps-bind (Keeps-Apart (call-Apart (Call.net_bind (val s) (os.htons src_port)))) λ bound.
            Keeps-S32 bound.code
              (λ n.
                Keeps-then (Keeps-modify p j (λ c. record c { data_socket = val s }) (λ c. refl))
                  (Keeps-pure (val 0)))
              (λ e.
                Keeps-then (Keeps-Apart (call-Apart (Call.net_close (val s))))
                  (Keeps-pure (err e)))))
        (λ e. Keeps-pure (err e))

  passive-Works :
      (p : ℕ) (j : Job) → Keeps (Busy p j) (Works p j) (prepare_data_connection_passive p)
  unfolding prepare_data_connection_passive
  passive-Works p j =
      Keeps-then (Keeps-modify p j (λ c. record c { data_socket = c.passive_socket }) (λ c. refl))
        (Keeps-pure (val 0))

  handler-Works : (p : ℕ) (j : Job) → Keeps (Busy p j) (Works p j) (prepare_handler p)
  unfolding prepare_handler
  handler-Works p j =
      Keeps-load λ c k. Keeps-S32 c.passive_socket (λ s. passive-Works p j) (λ e. active-Works p j)

  expect_data-Live :
      (p : ℕ) (u : Ftp) (cb : Callback) (arg : Arg) (cl : Cleanup) (w : World)
      → IsJob (some cb) (some arg) (some cl)
      → Ready p u (owned (some arg)) w
      → After (λ _ w'. Stays p u w'.ftp) (expect_data p cb arg cl w)
  unfolding expect_data modify load store call
  expect_data-Live p u cb arg cl w j r =
      let (l, spare) = r in
      let s = l.0.0 in
      let c = l.0.1.0 in
      let h = l.0.1.1 in
      let later = unsigned (os.respond w.trace Call.gettime).code + os.secs_to_ticks 30 in
      let b : Client = record c {
        data_connection_connected = false;
        data_callback = some cb;
        data_connection_callback_arg = some arg;
        data_connection_cleanup = some cl;
        data_connection_timer = later;
      } in
      rw (h, load)
        (rw (h, store)
          (ended (
            (Hired-Sound w.ftp p c b s h j spare, (b, rw (==-refl p) refl)),
            Confined-trans l.1 (record { others = λ q n. rw n refl; table = refl; counted = refl }),
          )))

  reply-Ready :
      (p code : ℕ) (msg : Bytes) (u : Ftp) (o : Option ℕ) (w : World)
      → Ready p u o w
      → After (λ _ w'. Ready p u o w') (write_reply p code msg w)
  reply-Ready p code msg u o w r =
      Working-Ready p u o (write_reply p code msg) w (reply-Works p code msg) r

  error-Prepared :
      (p : ℕ) (u : Ftp) (o : Option ℕ) (x : S32) (w : World) → Ready p u o w → Prepared p u o x w
  error-Prepared p u o (val n) w r = r.0
  error-Prepared p u o (err e) w r = r

  handled-Prepared :
      (p : ℕ) (u : Ftp) (cb : Callback) (arg : Arg) (cl : Cleanup) (x : S32) (w : World)
      → IsJob (some cb) (some arg) (some cl)
      → Ready p u (owned (some arg)) w
      → After (Prepared p u (owned (some arg))) (
          (elim x as (λ _. M S32) [
            | err _ ↦ write_reply p 520 transfer_error
            | val n ↦ do expect_data p cb arg cl; pure (val n)
          ])
            w)
  handled-Prepared p u cb arg cl (err e) w j r =
      After-mono (reply-Ready p 520 transfer_error u (owned (some arg)) w r)
        λ x w' r'. error-Prepared p u (owned (some arg)) x w' r'
  handled-Prepared p u cb arg cl (val n) w j r =
      After-then (expect_data-Live p u cb arg cl w j r) λ _ w' l. ended l

  announced-Prepared :
      (p : ℕ) (u : Ftp) (cb : Callback) (arg : Arg) (cl : Cleanup) (x : S32) (w : World)
      → IsJob (some cb) (some arg) (some cl)
      → Ready p u (owned (some arg)) w
      → After (Prepared p u (owned (some arg))) (
          (elim x as (λ _. M S32) [
            | err e ↦ pure (err e)
            | val _ ↦ do
              prepared ← prepare_handler p
              elim prepared [
                | err _ ↦ write_reply p 520 transfer_error
                | val n ↦ do expect_data p cb arg cl; pure (val n)
              ]
          ])
            w)
  announced-Prepared p u cb arg cl (err e) w j r = ended r
  announced-Prepared p u cb arg cl (val n) w j r =
      After-then (Working-Ready p u (owned (some arg)) (prepare_handler p) w (handler-Works p) r)
        λ x w' r'. handled-Prepared p u cb arg cl x w' j r'

  pub prepare_data_connection-Prepared :
      (p : ℕ) (u : Ftp) (cb : Callback) (arg : Arg) (cl : Cleanup) (w : World)
      → IsJob (some cb) (some arg) (some cl)
      → Ready p u (owned (some arg)) w
      → After (Prepared p u (owned (some arg))) (prepare_data_connection p cb arg cl w)
  unfolding prepare_data_connection
  prepare_data_connection-Prepared p u cb arg cl w j r =
      After-then (reply-Ready p 150 (codes "Transferring data.") u (owned (some arg)) w r)
        λ x w' r'. announced-Prepared p u cb arg cl x w' j r'
