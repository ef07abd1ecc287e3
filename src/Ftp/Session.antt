-- ===== src/Ftp/Session.antt =====
-- What a step of a command handler of source/ftp.c may do, and the steps that all handlers share.
use ftpii.Base.{
  fun_ext, Bool-cases, Option, arith, ℕ, ◌≡◌, refl, sym, ap, ◌∙◌, true, false, [], some, subst, inl,
  inr, ◌==◌, ==-refl, Bytes, take, length, ◌+◌,
}
use ftpii.Os.{Code, S32, val, err, minus_one, S32-sign, Call, Os}
use ftpii.World.{World, Ftp, Client, load, store, call, M, pure, ◌>>◌}
use ftpii.World.Triple.{Ensures, ended, Ensures-mono, Ensures-bind}
use ftpii.World.Frame.{Grows, Grows-trans, Talks, Talks-refl, Talks-weaken, Talks-trans, one_call}
use ftpii.Net.Transfer.{Writes, send_exact-Delivers, set_blocking-Quiet}
use ftpii.Net.{net_close_blocking}
use ftpii.Ftp.Reply.{modify, reply_line, write_reply, close_passive_socket}

-- The calls that talk on a socket which is there, or close one.
abbrev pub Network : Call → Type 0
Network (Call.net_write s b) = Unit {0}
Network (Call.net_getfl s) = Unit {0}
Network (Call.net_setfl s flags) = Unit {0}
Network (Call.net_close s) = Unit {0}
Network _ = ⊥

-- The step only talks on sockets; the client at `p` is then as `Q` says, and nothing else differs of the
-- statics of ftp.c, fs.c, dvd.c and reset.c: no other client, no table, no password, no device. (Errno
-- and the size of the network buffer may.)
pub record Serves (p : ℕ) (w w' : World) (Q : Client → Type 0) : Type 0 where
  pub grows : Grows Network w w'
  pub same : w'.ftp ≡ record w.ftp { heap = w'.ftp.heap }
  pub fs : w'.fs ≡ w.fs
  pub dvd : w'.dvd ≡ w.dvd
  pub reset : w'.reset ≡ w.reset
  pub others : (q : ℕ) → (p == q) ≡ false → w'.ftp.heap q ≡ w.ftp.heap q
  pub client : Client
  pub here : w'.ftp.heap p ≡ some client
  pub becomes : Q client

Writes→Network : (s : S32) (c : Call) → Writes s c → Network c
Writes→Network s (Call.net_write t b) h = tt
Writes→Network s (Call.net_getfl t) h = tt
Writes→Network s (Call.net_setfl t flags) h = tt
Writes→Network s _ h = absurd h

pub Serves-Talks :
    {p : ℕ} {w w' : World} {c : Client}
    → w.ftp.heap p ≡ some c
    → Talks Network w w'
    → Serves p w w' (λ d. d ≡ c)
Serves-Talks {p} {w} {w'} {c} h t = record {
  grows = t.grows;
  same = rw t.ftp refl;
  fs = t.fs;
  dvd = t.dvd;
  reset = t.reset;
  others = λ q n. rw t.ftp refl;
  client = c;
  here = rw t.ftp h;
  becomes = refl;
}

pub Serves_refl :
    {p : ℕ} {w : World} {c : Client} → w.ftp.heap p ≡ some c → Serves p w w (λ d. d ≡ c)
Serves_refl {w} h = Serves-Talks h (Talks-refl w)

pub Serves-trans :
    {p : ℕ} {u v w : World} {Q R : Client → Type 0}
    → Serves p u v Q
    → Serves p v w R
    → Serves p u w R
Serves-trans {p} {u} {v} {w} s t = record {
  grows = Grows-trans s.grows t.grows;
  same = t.same ∙ ap (λ (f : Ftp). record f { heap = w.ftp.heap }) s.same;
  fs = t.fs ∙ s.fs;
  dvd = t.dvd ∙ s.dvd;
  reset = t.reset ∙ s.reset;
  others = λ q n. t.others q n ∙ s.others q n;
  client = t.client;
  here = t.here;
  becomes = t.becomes;
}

pub Serves-mono :
    {p : ℕ} {w w' : World} {Q R : Client → Type 0}
    → Serves p w w' Q
    → ((c : Client) → Q c → R c)
    → Serves p w w' R
Serves-mono s k = record {
  grows = s.grows;
  same = s.same;
  fs = s.fs;
  dvd = s.dvd;
  reset = s.reset;
  others = s.others;
  client = s.client;
  here = s.here;
  becomes = k s.client s.becomes;
}

-- A step at a client that is as before leaves all as before.
pub Serves-unchanged :
    {p : ℕ} {w w' : World} {c : Client}
    → w.ftp.heap p ≡ some c
    → Serves p w w' (λ d. d ≡ c)
    → w'.ftp ≡ w.ftp
Serves-unchanged {p} {w} {w'} h s =
    s.same
    ∙ ap (λ (k : ℕ → Option Client). record w.ftp { heap = k })
        (fun_ext λ q. elim (Bool-cases (p == q)) [
          | inl e ↦
              let same : p ≡ q = ground arith in
              subst (λ x. w'.ftp.heap x ≡ w.ftp.heap x) same (s.here ∙ ap some s.becomes ∙ sym h)
          | inr n ↦ s.others q n
        ])

pub modify-Serves :
    (p : ℕ) (f : Client → Client) (c : Client) (w : World)
    → w.ftp.heap p ≡ some c
    → Ensures (modify p f w) (λ _ w'. Serves p w w' (λ d. d ≡ f c))
unfolding modify
modify-Serves p f c w h =
    rw (h, load)
      (rw (h, store)
        (ended (record {
          grows = record { new = []; grown = refl; made = tt };
          same = refl;
          fs = refl;
          dvd = refl;
          reset = refl;
          others = λ q n. rw n refl;
          client = f c;
          here = rw (==-refl p) refl;
          becomes = refl;
        })))

unfoldable forget_socket : S32 → Client → Client
forget_socket (val _) c = record c { passive_socket = minus_one }
forget_socket (err _) c = c

-- `client->passive_socket = -1`, where there is one
unfoldable pub without_passive : Client → Client
unfolding forget_socket
without_passive c = forget_socket c.passive_socket c

without_passive-val :
    (c : Client) (n : ℕ)
    → c.passive_socket ≡ val n
    → without_passive c ≡ record c { passive_socket = minus_one }
unfolding without_passive
without_passive-val c n e = ap (λ s. forget_socket s c) e

without_passive-err : (c : Client) (x : Code) → c.passive_socket ≡ err x → without_passive c ≡ c
unfolding without_passive
without_passive-err c x e = ap (λ s. forget_socket s c) e

module _ ⦃os : Os⦄ where
  pub write_reply-Serves :
      (p code : ℕ) (msg : Bytes) (c : Client) (w : World)
      → w.ftp.heap p ≡ some c
      → Ensures (write_reply p code msg w) (λ _ w'. Serves p w w' (λ d. d ≡ c))
  unfolding write_reply
  write_reply-Serves p code msg c w h =
      rw (h, load)
        (Ensures-mono
          (send_exact-Delivers c.socket (take (4 + length msg + 2) (reply_line code msg)) w)
          (λ r w' d. Serves-Talks h (Talks-weaken (Writes→Network c.socket) d.talks)))

  pub net_close_blocking-Talks :
      (s : S32) (w : World) → Ensures (net_close_blocking s w) (λ _ w'. Talks Network w w')
  unfolding net_close_blocking call
  net_close_blocking-Talks s w = Ensures-bind (set_blocking-Quiet s true w) λ _ w1 q.
      ended (
        Talks-trans (Talks-weaken (Writes→Network s) q.talks) (one_call (Call.net_close s) _ w1 tt))

  abbrev closing : ℕ → S32 → M (Unit {0})
  closing p s = elim s [
    | val n ↦ net_close_blocking (val n) >> modify p (λ d. record d { passive_socket = minus_one })
    | err _ ↦ pure tt
  ]

  pub close_passive_socket-Serves :
      (p : ℕ) (c : Client) (w : World)
      → w.ftp.heap p ≡ some c
      → Ensures (close_passive_socket p w) (λ _ w'. Serves p w w' (λ d. d ≡ without_passive c))
  unfolding close_passive_socket
  close_passive_socket-Serves p c w h =
      rw (h, load)
        (elim (S32-sign c.passive_socket) [
          | inl (n, e) ↦ rw (without_passive-val c n e) (
              subst
                (λ s.
                  Ensures (closing p s w)
                    (λ _ w'. Serves p w w' (λ d. d ≡ record c { passive_socket = minus_one })))
                (sym e)
                (Ensures-bind (net_close_blocking-Talks (val n) w) λ _ w1 t.
                  Ensures-mono (modify-Serves p _ c w1 (rw t.ftp h))
                    λ _ w2 s. Serves-trans (Serves-Talks h t) s))
          | inr (x, e) ↦ rw (without_passive-err c x e) (
              subst (λ s. Ensures (closing p s w) (λ _ w'. Serves p w w' (λ d. d ≡ c))) (sym e)
                (ended (Serves-Talks h (Talks-refl w))))
        ])
