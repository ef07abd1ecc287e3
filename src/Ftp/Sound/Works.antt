-- ===== src/Ftp/Sound/Works.antt =====
-- Steps of a transfer, source/ftp.c: the client keeps its transfer, and iterators are moved, not closed.
use ftpii.Base.{
  ℕ, ◌≡◌, refl, sym, ap, subst, ◌∙◌, inl, inr, false, Option, none, some, arith, ◌==◌, ==-refl,
  Bool-cases,
}
use ftpii.World.{World, Ftp, Client, Callback, Arg, Cleanup, M, load, store, ◌>>=◌}
use ftpii.World.Keeps.{ended, After-mono, Frame, Keeps}
use ftpii.World.Apart.{Always, Apart}
use ftpii.Ftp.Reply.{modify}
use ftpii.Ftp.Job.{IsJob, owned, owns}
use ftpii.Ftp.Cleanup.Release.{IsOpen}
use ftpii.Ftp.Sound.{Sound}

-- A client's transfer.
pub record Job : Type 0 where
  pub callback : Option Callback
  pub arg : Option Arg
  pub cleanup : Option Cleanup

abbrev pub job : Client → Job
job c = record {
  callback = c.data_callback;
  arg = c.data_connection_callback_arg;
  cleanup = c.data_connection_cleanup;
}

-- The client at `p` is at work on `j`.
abbrev pub Busy : ℕ → Job → World → Type 0
Busy p j w =
    (IsOpen (owned j.arg) w.ftp.dirs) × ((c : Client) × (w.ftp.heap p ≡ some c) × (job c ≡ j))

pub record Works (p : ℕ) (j : Job) (w w' : World) : Type 0 where
  pub same : w'.ftp ≡ record w.ftp { heap = w'.ftp.heap; dirs = w'.ftp.dirs }
  pub others : (q : ℕ) → (p == q) ≡ false → w'.ftp.heap q ≡ w.ftp.heap q
  pub busy : Busy p j w → Busy p j w'
  pub moved :
      (d cursor : ℕ) → w.ftp.dirs d ≡ some cursor → (cursor' : ℕ) × (w'.ftp.dirs d ≡ some cursor')
  pub back :
      (d cursor : ℕ) → w'.ftp.dirs d ≡ some cursor → (cursor' : ℕ) × (w.ftp.dirs d ≡ some cursor')

Works-refl : (p : ℕ) (j : Job) (w : World) → Works p j w w
Works-refl p j w = record {
  same = refl;
  others = λ q n. refl;
  busy = λ b. b;
  moved = λ d cursor h. (cursor, h);
  back = λ d cursor h. (cursor, h);
}

Works-trans : (p : ℕ) (j : Job) (u v w : World) → Works p j u v → Works p j v w → Works p j u w
Works-trans p j u v w s t = record {
  same = t.same ∙ ap (λ (f : Ftp). record f { heap = w.ftp.heap; dirs = w.ftp.dirs }) s.same;
  others = λ q n. t.others q n ∙ s.others q n;
  busy = λ b. t.busy (s.busy b);
  moved = λ d cursor h. let (c, e) = s.moved d cursor h in t.moved d c e;
  back = λ d cursor h. let (c, e) = t.back d cursor h in s.back d c e;
}

instance pub Works-frame : {p : ℕ} {j : Job} → Frame (Busy p j) (Works p j)
Works-frame {p} {j} = record {
  here = Works-refl p j;
  onward = Works-trans p j;
  keep = λ v w r i. r.busy i;
}

Apart-Works : (p : ℕ) (j : Job) (w w' : World) → Apart w w' → Works p j w w'
Apart-Works p j w w' a =
    subst (λ f. Works p j w (record w' { ftp = f })) (sym a.ftp)
      (record {
        same = refl;
        others = λ q n. refl;
        busy = λ b. b;
        moved = λ d cursor h. (cursor, h);
        back = λ d cursor h. (cursor, h);
      })

pub Keeps-Apart :
    {A : Type 0} {p : ℕ} {j : Job} {m : M A} → Keeps Always Apart m → Keeps (Busy p j) (Works p j) m
Keeps-Apart {p} {j} k = record {
  run = λ w i. After-mono (k.run w tt) λ _ w' a. Apart-Works p j w w' a;
}

-- `client->…`
pub Keeps-load :
    {A : Type 0} {p : ℕ} {j : Job} {k : Client → M A}
    → ((c : Client) → job c ≡ j → Keeps (Busy p j) (Works p j) (k c))
    → Keeps (Busy p j) (Works p j) (load p >>= k)
unfolding load
Keeps-load h = record { run = λ w i. let (c, e, k) = i.1 in rw (e, load) ((h c k).run w i) }

-- An assignment to fields that are not the transfer's.
pub Keeps-modify :
    (p : ℕ) (j : Job) (f : Client → Client)
    → ((c : Client) → job (f c) ≡ job c)
    → Keeps (Busy p j) (Works p j) (modify p f)
unfolding modify
Keeps-modify p j f h = record {
  run = λ w i.
      let (c, e, k) = i.1 in
      rw (e, load)
        (rw (e, store)
          (ended (record {
            same = refl;
            others = λ q n. rw n refl;
            busy = λ b. (b.0, (f c, rw (==-refl p) refl, h c ∙ k));
            moved = λ d cursor e. (cursor, e);
            back = λ d cursor e. (cursor, e);
          })));
}

pub IsOpen-moved :
    (o : Option ℕ) (f g : ℕ → Option ℕ)
    → ((d cursor : ℕ) → f d ≡ some cursor → (cursor' : ℕ) × (g d ≡ some cursor'))
    → IsOpen o f
    → IsOpen o g
IsOpen-moved none f g h o = tt
IsOpen-moved (some d) f g h (cursor, e) = h d cursor e

-- Each client was there before, at the same work.
pub before :
    (p : ℕ) (c c' : Client) (f g : ℕ → Option Client)
    → f p ≡ some c
    → g p ≡ some c'
    → job c' ≡ job c
    → ((q : ℕ) → (p == q) ≡ false → g q ≡ f q)
    → (q : ℕ) (d : Client) → g q ≡ some d
    → (b : Client) × (f q ≡ some b) × (job d ≡ job b)
before p c c' f g h h' k others q d e = elim (Bool-cases (p == q)) [
  | inl same ↦
      let at : p ≡ q = ground arith in
      let two : some c' ≡ some d = sym h' ∙ ap g at ∙ e in
      let one : c' ≡ d = cc in (c, ap f (sym at) ∙ h, ap job (sym one) ∙ k)
  | inr n ↦ (d, sym (others q n) ∙ e, refl)
]

pub after :
    (p : ℕ) (c' : Client) (f g : ℕ → Option Client)
    → g p ≡ some c'
    → ((q : ℕ) → (p == q) ≡ false → g q ≡ f q)
    → (q : ℕ) (b : Client) → f q ≡ some b
    → (d : Client) × (g q ≡ some d)
after p c' f g h' others q b e = elim (Bool-cases (p == q)) [
  | inl same ↦ (c', subst (λ x. g x ≡ some c') (ground arith) h')
  | inr n ↦ (b, others q n ∙ e)
]

-- The invariant is kept by steps of a client's transfer.
pub Works-Sound :
    {p : ℕ} {c : Client} {w w' : World}
    → w.ftp.heap p ≡ some c
    → Works p (job c) w w'
    → Sound w.ftp
    → Sound w'.ftp
Works-Sound {p} {c} {w} {w'} h r s =
    let (o, rest) = r.busy (s.opens p c h, (c, h, refl)) in
    let (c', h', k) = rest in
    let was : (q : ℕ) (d : Client)
        → w'.ftp.heap q ≡ some d
        → (b : Client) × (w.ftp.heap q ≡ some b) × (job d ≡ job b) =
      before p c c' w.ftp.heap w'.ftp.heap h h' k r.others in
    subst Sound (sym r.same) (record {
      jobs = λ q d e.
          let (b, f, j) = was q d e in
          subst (λ (x : Job). IsJob x.callback x.arg x.cleanup) (sym j) (s.jobs q b f);
      opens = λ q d e.
          let (b, f, j) = was q d e in
          subst (λ (x : Job). IsOpen (owned x.arg) w'.ftp.dirs) (sym j)
            (IsOpen-moved (owns b) w.ftp.dirs w'.ftp.dirs r.moved (s.opens q b f));
      apart = λ q q' a d d' e e' m m'.
          let (b, f, j) = was q d e in
          let (b', f', j') = was q' d' e' in
          s.apart q q' a b b' f f' (ap (λ (x : Job). owned x.arg) (sym j) ∙ m)
            (ap (λ (x : Job). owned x.arg) (sym j') ∙ m');
      fresh = λ q d e. let (b, f, j) = was q d e in s.fresh q b f;
      fresh_dirs = λ a cursor e. let (cursor', f) = r.back a cursor e in s.fresh_dirs a cursor' f;
      size = s.size;
      live = λ q i. let (b, f) = s.live q i in after p c' w.ftp.heap w'.ftp.heap h' r.others q b f;
      listed = λ q d e. let (b, f, j) = was q d e in s.listed q b f;
      tabled = s.tabled;
      count = s.count;
    })
