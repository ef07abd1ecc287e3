-- ===== src/Ftp/Sound/Live.antt =====
-- Actions of source/ftp.c for one client that keep the invariant, and the client in the table.
use ftpii.Base.{ℕ, ◌≡◌, refl, sym, ap, ◌∙◌, ◌==◌, false, subst, Option, some, Bytes}
use ftpii.Os.{minus_one, val, Os}
use ftpii.World.{World, Ftp, Client, M, done, continue, load, ◌>>=◌}
use ftpii.World.Keeps.{
  After, ended, After-mono, Frame, Keeps, Keeps-bind, Keeps-then, Keeps-pure, Keeps-S32,
}
use ftpii.World.Apart.{Always, Apart}
use ftpii.Net.Frame.{send_exact-Apart, net_close_blocking-Apart}
use ftpii.Ftp.Reply.{get_errno, modify, reply_line, write_reply, write_error, close_passive_socket}
use ftpii.Ftp.Sound.{Sound}
use ftpii.Ftp.Sound.Works.{Job, job, Busy, Works, Works-Sound, Keeps-modify}
use ftpii.Base.{length, take, ◌+◌}

-- The state is sound, and the client is there.
abbrev pub LiveAt : ℕ → Ftp → Type 0
LiveAt p f = Sound f × ((c : Client) × (f.heap p ≡ some c))

abbrev pub Live : ℕ → World → Type 0
Live p w = LiveAt p w.ftp

-- No other client differs, nor the table, nor the count.
pub record Confined (p : ℕ) (u v : Ftp) : Type 0 where
  pub others : (q : ℕ) → (p == q) ≡ false → v.heap q ≡ u.heap q
  pub table : v.clients ≡ u.clients
  pub counted : v.num_clients ≡ u.num_clients

pub Confined-refl : (p : ℕ) (u : Ftp) → Confined p u u
Confined-refl p u = record { others = λ q n. refl; table = refl; counted = refl }

pub Confined-trans : {p : ℕ} {u v w : Ftp} → Confined p u v → Confined p v w → Confined p u w
Confined-trans s t = record {
  others = λ q n. t.others q n ∙ s.others q n;
  table = t.table ∙ s.table;
  counted = t.counted ∙ s.counted;
}

pub Works-Confined : (p : ℕ) (j : Job) (v w : World) → Works p j v w → Confined p v.ftp w.ftp
Works-Confined p j v w r = record {
  others = r.others;
  table = ap (λ (f : Ftp). f.clients) r.same;
  counted = ap (λ (f : Ftp). f.num_clients) r.same;
}

-- Since `u` nothing but the client at `p` and what is its own differs.
abbrev pub Stays : ℕ → Ftp → Ftp → Type 0
Stays p u f = LiveAt p f × Confined p u f

abbrev pub Lives : ℕ → World → World → Type 0
Lives p v w = (u : Ftp) → Stays p u v.ftp → Stays p u w.ftp

instance pub Lives-frame : {p : ℕ} → Frame (Live p) (Lives p)
Lives-frame {p} = record {
  here = λ w u l. l;
  onward = λ a v w s t u l. t u (s u l);
  keep = λ v w s l. (s v.ftp (l, Confined-refl p v.ftp)).0;
}

abbrev pub Serving : {A : Type 0} → ℕ → M A → Type 0
Serving p m = Keeps (Live p) (Lives p) m

pub Serving-Apart : {A : Type 0} {p : ℕ} {m : M A} → Keeps Always Apart m → Serving p m
Serving-Apart {p} k = record {
  run = λ w i. After-mono (k.run w tt) λ _ w' a u l. subst (λ f. Stays p u f) (sym a.ftp) l;
}

-- Steps that leave the client's transfer alone, whatever it is.
Serving-Works :
    {A : Type 0} {p : ℕ} {m : M A} → ((j : Job) → Keeps (Busy p j) (Works p j) m) → Serving p m
Serving-Works {p} k = record {
  run = λ w i.
      let (c, h) = i.1 in
      let b : Busy p (job c) w = (i.0.opens p c h, (c, h, refl)) in
      After-mono ((k (job c)).run w b) λ _ w' r u l.
        let (o, rest) = r.busy b in
        let (c', h', e) = rest in
        ((Works-Sound h r i.0, (c', h')), Confined-trans l.1 (Works-Confined p (job c) w w' r));
}

pub Serving-modify :
    (p : ℕ) (f : Client → Client) → ((c : Client) → job (f c) ≡ job c) → Serving p (modify p f)
Serving-modify p f h = Serving-Works λ j. Keeps-modify p j f h

loaded : (p : ℕ) (c : Client) (w : World) → w.ftp.heap p ≡ some c → load p w ≡ done c w
unfolding load
loaded p c w h = rw (h, load) refl

pub Serving-load :
    {A : Type 0} {p : ℕ} {k : Client → M A}
    → ((c : Client) → Serving p (k c))
    → Serving p (load p >>= k)
Serving-load {A} {p} {k} h = record {
  run = λ w i.
      let (c, e) = i.1 in
      subst (λ o. After (λ _ w'. Lives p w w') (continue o k)) (sym (loaded p c w e))
        ((h c).run w i);
}

pub Serving-run :
    {A : Type 0} (p : ℕ) (m : M A)
    → ((w : World) → Live p w → After (λ _ w'. Stays p w.ftp w'.ftp) (m w))
    → Serving p m
Serving-run p m k = record {
  run = λ w i. After-mono (k w i) λ _ w' l' u l. (l'.0, Confined-trans l.1 l'.1);
}

pub Live-run :
    {A : Type 0} {p : ℕ} {u : Ftp} {m : M A} (w : World)
    → Serving p m
    → Stays p u w.ftp
    → After (λ _ w'. Stays p u w'.ftp) (m w)
Live-run {u} w k l = After-mono (k.run w l.0) λ _ w' step. step u l

-- The port and the password are no part of the invariant.
pub Sound-statics :
    (f : Ftp) (port : ℕ) (password : Option Bytes)
    → Sound f
    → Sound (record f { passive_port = port; password = password })
Sound-statics f port password s = record {
  jobs = s.jobs;
  opens = s.opens;
  apart = s.apart;
  fresh = s.fresh;
  fresh_dirs = s.fresh_dirs;
  size = s.size;
  live = s.live;
  listed = s.listed;
  tabled = s.tabled;
  count = s.count;
}

pub Stays-statics :
    (p : ℕ) (u f : Ftp) (port : ℕ) (password : Option Bytes)
    → Stays p u f
    → Stays p u (record f { passive_port = port; password = password })
Stays-statics p u f port password l = (
  (Sound-statics f port password l.0.0, l.0.1),
  record { others = l.1.others; table = l.1.table; counted = l.1.counted },
)

module _ ⦃os : Os⦄ where
  pub write_reply-Live : (p code : ℕ) (msg : Bytes) → Serving p (write_reply p code msg)
  unfolding write_reply
  write_reply-Live p code msg = Serving-load λ c.
      Serving-Apart (send_exact-Apart c.socket (take (4 + length msg + 2) (reply_line code msg)))

  pub write_error-Live : (p : ℕ) → Serving p (write_error p)
  unfolding write_error
  write_error-Live p =
      Keeps-bind {m = get_errno} (record { run = λ w i. ended (λ u l. l) })
        λ e. write_reply-Live p 550 (os.strerror e)

  pub close_passive_socket-Live : (p : ℕ) → Serving p (close_passive_socket p)
  unfolding close_passive_socket
  close_passive_socket-Live p = Serving-load λ c.
      Keeps-S32 c.passive_socket
        (λ s.
          Keeps-then (Serving-Apart (net_close_blocking-Apart (val s)))
            (Serving-modify p (λ d. record d { passive_socket = minus_one }) (λ d. refl)))
        (λ e. Keeps-pure tt)
