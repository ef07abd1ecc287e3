-- ===== src/Net/Transfer.antt =====
-- What `send_exact` of source/net.c puts on the network.
use ftpii.Base.{
  ℕ, zero, suc, ◌+◌, ◌≤◌, ◌<◌, ◌≡◌, refl, sym, ap, ◌∙◌, Bool, true, false, List, [], ◌∷◌, ◌++◌,
  arith, inl, inr, ◌⊎◌, Bytes, ◌==◌, Bool-cases, if◌then◌else◌, length, take, drop, append-nil,
  append_assoc, take-take, take-append-drop, length-take, length-drop,
}
use ftpii.Os.{
  Code, S32, val, err, einval, enodata, S32-cases, S32-sign, Call, net_write, net_getfl, net_setfl,
  Answer, Event, Os,
}
use ftpii.World.{World}
use ftpii.World.Triple.{Ensures, ended, Ensures-mono, Ensures-bind}
use ftpii.World.Frame.{Talks, Talks-refl, Talks-trans}
use ftpii.Net.{
  max_net_buffer_size, retries, set_blocking, transfer_loop, transfer_exact, send_exact,
}

-- The calls that write to a socket, or set its blocking mode.
abbrev pub Writes : S32 → Call → Type 0
Writes s (net_write t b) = t ≡ s
Writes s (net_getfl t) = t ≡ s
Writes s (net_setfl t flags) = t ≡ s
Writes s _ = ⊥

-- What the network took in one call.
abbrev pub taken : Call → S32 → Bytes
taken (net_write s b) (val n) = take n b
taken _ _ = []

-- What the network took over a history, in the order of time.
abbrev pub sent : List Event → Bytes
sent [] = []
sent (e ∷ past) = sent past ++ taken e.call e.answer.code

pub sent-append : (new past : List Event) → sent (new ++ past) ≡ sent past ++ sent new
sent-append [] past = sym (append-nil (sent past))
sent-append (e ∷ new) past =
    rw (sent-append new past) (append_assoc (sent past) (sent new) (taken e.call e.answer.code))

-- The result `r` of sending `buf`: the network took a first part of it, in order, and on 0 the whole.
pub record Delivers (s : S32) (buf : Bytes) (w : World) (r : S32) (w' : World) : Type 0 where
  pub talks : Talks (Writes s) w w'
  pub unsent : Bytes
  pub splits : sent talks.grows.new ++ unsent ≡ buf
  pub complete : r ≡ val 0 → unsent ≡ []
  pub result : (r ≡ val 0) ⊎ ((e : Code) × (r ≡ err e))

-- The size is as it was, or has been cut to the smaller one.
abbrev pub retry_left : World → ℕ
retry_left w = if w.net_buffer_size == max_net_buffer_size then 1 else 0

abbrev after_call : World → Call → Answer → World
after_call w c a = record w { trace = record { call = c; answer = a } ∷ w.trace }

pub retries-eq : (x : Code) (n : ℕ) → retries x n ≡ true → n ≡ max_net_buffer_size
retries-eq einval n h = ground arith
retries-eq _ n h = cc

module _ ⦃os : Os⦄ where
  one_write :
      (s : S32) (b : Bytes) (w : World) (a : Answer) (n : ℕ)
      → Talks (Writes s) w (record w {
        trace = record { call = net_write s b; answer = a } ∷ w.trace;
        net_buffer_size = n;
      })
  one_write s b w a n = record {
    grows = record {
      new = record { call = net_write s b; answer = a } ∷ [];
      grown = refl;
      made = (refl, tt);
    };
    ftp = refl;
    fs = refl;
    dvd = refl;
    reset = refl;
  }

  -- What one round took, put in front of what the later rounds send.
  Delivers-cons :
      (s : S32) (b buf : Bytes) (w : World) (a : Answer) (n : ℕ) (r : S32) (w' : World)
      → let now = taken (net_write s b) a.code in
        (rest : Bytes)
        → buf ≡ now ++ rest
        → Delivers s rest
            (record w {
              trace = record { call = net_write s b; answer = a } ∷ w.trace;
              net_buffer_size = n;
            })
            r
            w'
        → Delivers s buf w r w'
  unfolding one_write Talks-trans
  Delivers-cons s b buf w a n r w' rest e d = record {
    talks = Talks-trans (one_write s b w a n) d.talks;
    unsent = d.unsent;
    splits =
        ap (λ x. x ++ d.unsent) (sent-append d.talks.grows.new _)
        ∙ append_assoc (taken (net_write s b) a.code) (sent d.talks.grows.new) d.unsent
        ∙ ap (λ x. taken (net_write s b) a.code ++ x) d.splits
        ∙ sym e;
    complete = d.complete;
    result = d.result;
  }

  Delivers-none : (s : S32) (buf : Bytes) (w : World) (e : Code) → Delivers s buf w (err e) w
  unfolding Talks-refl
  Delivers-none s buf w e = record {
    talks = Talks-refl w;
    unsent = buf;
    splits = refl;
    complete = λ h. cc;
    result = inr (e, refl);
  }

  taken_first :
      (past : List Event) (s : S32) (size n : ℕ) (buf : Bytes)
      → (os.respond past (net_write s (take size buf))).code ≡ val n
      → (take n (take size buf) ≡ take n buf) × (n ≤ length buf)
  taken_first past s size n buf e =
      let le = os.net_write-le past s (take size buf) n e in
      (take-take n size buf le, omega (arith, length-take size buf))

  first_part :
      (past : List Event) (s : S32) (size n b : ℕ) (buf : Bytes)
      → (os.respond past (net_write s (take size (b ∷ buf)))).code ≡ val (suc n)
      → b ∷ buf ≡ take (suc n) (take size (b ∷ buf)) ++ drop n buf
  first_part past s size n b buf e =
      rw (taken_first past s size (suc n) (b ∷ buf) e).0 (sym (take-append-drop (suc n) (b ∷ buf)))

  transfer_loop-Delivers :
      (fuel : ℕ) (s : S32) (buf : Bytes) (w : World)
      → length buf + retry_left w < fuel
      → Ensures (transfer_loop fuel s buf w) (Delivers s buf w)
  unfolding transfer_loop Talks-refl
  transfer_loop-Delivers zero s buf w h = absurd (omega arith)
  transfer_loop-Delivers (suc fuel) s [] w h = ended (record {
    talks = Talks-refl w;
    unsent = [];
    splits = refl;
    complete = λ _. refl;
    result = inl refl;
  })
  transfer_loop-Delivers (suc fuel) s (b ∷ buf) w h =
      elim (S32-cases (os.respond w.trace (net_write s (take w.net_buffer_size (b ∷ buf)))).code) [
        | inl e ↦ rw e (
            ended
              (Delivers-cons s _ _ w _ _ _ _ (b ∷ buf) refl (Delivers-none s (b ∷ buf) _ enodata)))
        | inr (inl (n, e)) ↦ rw e (
            Ensures-mono
              (transfer_loop-Delivers fuel s (drop n buf) _ (omega (arith, length-drop n buf)))
              (λ r w' d.
                Delivers-cons s _ _ w _ _ r w' (drop n buf)
                  (first_part w.trace s w.net_buffer_size n b buf e) d))
        | inr (inr (x, e)) ↦ elim (Bool-cases (retries x w.net_buffer_size)) [
          | inl again ↦
              rw (e, again)
                (Ensures-mono
                  (transfer_loop-Delivers fuel s (b ∷ buf) _
                    (ground (arith, retries-eq x w.net_buffer_size)))
                  (λ r w' d. Delivers-cons s _ _ w _ _ r w' (b ∷ buf) refl d))
          | inr stop ↦
              rw (e, stop)
                (ended
                  (Delivers-cons s _ _ w _ _ _ _ (b ∷ buf) refl (Delivers-none s (b ∷ buf) _ x)))
        ]
      ]

-- Calls on the socket that send nothing.
pub record Quiet (s : S32) (w w' : World) : Type 0 where
  pub talks : Talks (Writes s) w w'
  pub silent : sent talks.grows.new ≡ []

Delivers-Quiet :
    (s : S32) (buf : Bytes) (r : S32) (u v w x : World)
    → Quiet s u v
    → Delivers s buf v r w
    → Quiet s w x
    → Delivers s buf u r x
unfolding Talks-trans
Delivers-Quiet s buf r u v w x q d q' = record {
  talks = Talks-trans q.talks (Talks-trans d.talks q'.talks);
  unsent = d.unsent;
  splits =
      ap (λ z. z ++ d.unsent)
        (sent-append (q'.talks.grows.new ++ d.talks.grows.new) q.talks.grows.new
          ∙ rw (q.silent, sent-append q'.talks.grows.new d.talks.grows.new, q'.silent, append-nil))
      ∙ d.splits;
  complete = d.complete;
  result = d.result;
}

module _ ⦃os : Os⦄ where
  pub set_blocking-Quiet :
      (s : S32) (blocking : Bool) (w : World)
      → Ensures (set_blocking s blocking w) (λ _ w'. Quiet s w w')
  unfolding set_blocking Talks-refl
  set_blocking-Quiet s blocking w = elim (S32-sign (os.respond w.trace (net_getfl s)).code) [
    | inl (n, e) ↦ rw e (
        ended (record {
          talks = record {
            grows = record { new = _ ∷ _ ∷ []; grown = refl; made = (refl, (refl, tt)) };
            ftp = refl;
            fs = refl;
            dvd = refl;
            reset = refl;
          };
          silent = refl;
        }))
    | inr (x, e) ↦ rw e (
        ended (record {
          talks = record {
            grows = record { new = _ ∷ []; grown = refl; made = (refl, tt) };
            ftp = refl;
            fs = refl;
            dvd = refl;
            reset = refl;
          };
          silent = refl;
        }))
  ]

  -- `send_exact` always comes back. The network then holds a first part of the buffer, in order;
  -- it holds the whole buffer if the result is 0, and otherwise the result is an error. No other
  -- socket is touched, and none of the static variables of source/ftp.c, fs.c, dvd.c and reset.c.
  pub send_exact-Delivers :
      (s : S32) (buf : Bytes) (w : World) → Ensures (send_exact s buf w) (Delivers s buf w)
  unfolding send_exact transfer_exact
  send_exact-Delivers s buf w = Ensures-bind (set_blocking-Quiet s true w) λ _ w1 q.
      Ensures-bind (transfer_loop-Delivers (length buf + 2) s buf w1 (ground arith)) λ r w2 d.
        Ensures-bind (set_blocking-Quiet s false w2)
          λ _ w3 q'. ended (Delivers-Quiet s buf r w w1 w2 w3 q d q')
