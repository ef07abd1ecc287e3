-- ===== src/Net/Send.antt =====
-- What `send_from_file` of source/net.c sends: the next part of the file.
use ftpii.Base.{
  ℕ, zero, suc, ◌≤◌, ◌≡◌, ◌≢◌, refl, sym, ap, ◌∙◌, true, false, List, [], ◌∷◌, ◌++◌, arith, inl,
  inr, ◌⊎◌, Bytes, ltb, Bool-cases, length, append-nil, if◌then◌else◌,
}
use ftpii.Os.{
  Code, S32, val, err, eagain, minus_one, Call, net_write, net_getfl, net_setfl, fread, feof, truth,
  Event, Os,
}
use ftpii.World.{World, M, pure, call, ◌>>=◌}
use ftpii.World.Triple.{Ensures, ended, Ensures-bind}
use ftpii.World.Keeps.{Ensures-After}
use ftpii.World.Frame.{Talks, Talks-refl, Talks-trans, Talks-weaken}
use ftpii.Net.Transfer.{Writes, sent, sent-append, Delivers, send_exact-Delivers}
use ftpii.Net.Blocking.{Refused, Told, Told-since, send_exact-Told}
use ftpii.Net.{fread_buffer_size, send_exact, not_feof, send_from_file}

-- The calls that read from the file and write to the socket.
abbrev pub Streams : S32 → ℕ → Call → Type 0
Streams s f (fread g n) = g ≡ f
Streams s f (feof g) = g ≡ f
Streams s f (net_write t b) = t ≡ s
Streams s f (net_getfl t) = t ≡ s
Streams s f (net_setfl t flags) = t ≡ s
Streams s f _ = ⊥

Writes-Streams : (s : S32) (f : ℕ) (c : Call) → Writes s c → Streams s f c
Writes-Streams s f (net_write t b) h = h
Writes-Streams s f (net_getfl t) h = h
Writes-Streams s f (net_setfl t flags) h = h
Writes-Streams s f _ h = absurd h

-- The last call found the end of the file.
abbrev pub AtEnd : ℕ → List Event → Type 0
AtEnd f [] = ⊥
AtEnd f (e ∷ past) = (e.call ≡ feof f) × (truth e.answer.code ≡ true)

module _ ⦃os : Os⦄ where
  -- The next part of the file, as it is read from the state.
  abbrev pub part_of : ℕ → World → Bytes
  part_of f w = (os.respond w.trace (fread f fread_buffer_size)).payload

  -- The result `r` of sending the next part of the file: the network took a first part of it, in
  -- order. On 0 it took the whole, and the file is at its end; and where another round is asked for, it
  -- took the whole of a full buffer, or a write was answered so.
  pub record Sends (s : S32) (f : ℕ) (w : World) (r : S32) (w' : World) : Type 0 where
    pub talks : Talks (Streams s f) w w'
    pub unsent : Bytes
    pub splits : sent talks.grows.new ++ unsent ≡ part_of f w
    pub complete : r ≡ val 0 → (unsent ≡ []) × AtEnd f talks.grows.new
    pub more :
        r ≡ err eagain
        → ((unsent ≡ []) × (length (part_of f w) ≡ fread_buffer_size)) ⊎ Refused s w w'
    pub result : (r ≡ val 0) ⊎ ((e : Code) × (r ≡ err e))

  unfoldable read_first :
      (s : S32) (f : ℕ) (w : World)
      → Talks (Streams s f) w (record w {
        trace =
            record {
              call = fread f fread_buffer_size;
              answer = os.respond w.trace (fread f fread_buffer_size);
            }
            ∷ w.trace;
      })
  read_first s f w = record {
    grows = record { new = _ ∷ []; grown = refl; made = (refl, tt) };
    ftp = refl;
    fs = refl;
    dvd = refl;
    reset = refl;
  }

  unfoldable feof_last :
      (s : S32) (f : ℕ) (w : World)
      → Talks (Streams s f) w (record w {
        trace = record { call = feof f; answer = os.respond w.trace (feof f) } ∷ w.trace;
      })
  feof_last s f w = record {
    grows = record { new = _ ∷ []; grown = refl; made = (refl, tt) };
    ftp = refl;
    fs = refl;
    dvd = refl;
    reset = refl;
  }

  abbrev after_fread : ℕ → World → World
  after_fread f w = record w {
    trace =
        record {
          call = fread f fread_buffer_size;
          answer = os.respond w.trace (fread f fread_buffer_size);
        }
        ∷ w.trace;
  }

  nothing_read : (b : Bytes) → ltb 0 (length b) ≡ false → b ≡ []
  nothing_read [] h = refl
  nothing_read (c ∷ b) h = ground arith

  Delivers-nothing : (s : S32) (p : Bytes) (w : World) → p ≡ [] → Delivers s p w (val 0) w
  unfolding Talks-refl
  Delivers-nothing s p w e = record {
    talks = Talks-refl w;
    unsent = [];
    splits = sym e;
    complete = λ h. refl;
    result = inl refl;
  }

  send_part :
      (s : S32) (p : Bytes) (w : World)
      → Ensures
          ((if ltb 0 (length p) then send_exact s p else pure (val 0)) w)
          (λ r w'. Delivers s p w r w' × Told s w r w')
  send_part s p w = elim (Bool-cases (ltb 0 (length p))) [
    | inl y ↦ rw y (Ensures-After (send_exact-Delivers s p w) (send_exact-Told s p w))
    | inr n ↦
        rw n (ended (Delivers-nothing s p w (nothing_read p n), record { told = λ e. absurd (cc) }))
  ]

  -- What was delivered is a part of the file; the calls so far.
  unfoldable streamed :
      (s : S32) (f : ℕ) (w : World) (r : S32) (w' : World)
      → Delivers s (part_of f w) (after_fread f w) r w'
      → Talks (Streams s f) w w'
  unfolding read_first Talks-trans Talks-weaken
  streamed s f w r w' d = Talks-trans (read_first s f w) (Talks-weaken (Writes-Streams s f) d.talks)

  streamed_splits :
      (s : S32) (f : ℕ) (w : World) (r : S32) (w' : World)
      (d : Delivers s (part_of f w) (after_fread f w) r w')
      → sent (streamed s f w r w' d).grows.new ++ d.unsent ≡ part_of f w
  unfolding streamed
  streamed_splits s f w r w' d =
      ap (λ x. x ++ d.unsent) (sent-append d.talks.grows.new _) ∙ d.splits

  Sends-failed :
      (s : S32) (f : ℕ) (w : World) (e : Code) (w' : World)
      → Delivers s (part_of f w) (after_fread f w) (err e) w'
      → Told s (after_fread f w) (err e) w'
      → Sends s f w (err e) w'
  Sends-failed s f w e w' d k = record {
    talks = streamed s f w (err e) w' d;
    unsent = d.unsent;
    splits = streamed_splits s f w (err e) w' d;
    complete = λ h. cc;
    more = λ h. inr ((Told-since s (_ ∷ []) refl k).told h);
    result = inr (e, refl);
  }

  Sends-more :
      (s : S32) (f n : ℕ) (w w' : World)
      → Delivers s (part_of f w) (after_fread f w) (val n) w'
      → ltb (length (part_of f w)) fread_buffer_size ≡ false
      → Sends s f w (err eagain) w'
  Sends-more s f n w w' d k = record {
    talks = streamed s f w (val n) w' d;
    unsent = d.unsent;
    splits = streamed_splits s f w (val n) w' d;
    complete = λ h. cc;
    more = λ h. inl (whole d.result, full (os.fread-le w.trace f fread_buffer_size));
    result = inr (eagain, refl);
  }
    where
      whole : (val n ≡ val 0) ⊎ ((e : Code) × (val n ≡ err e)) → d.unsent ≡ []
      whole (inl e) = d.complete e
      whole (inr (x, e)) = cc

      full : length (part_of f w) ≤ fread_buffer_size → length (part_of f w) ≡ fread_buffer_size
      full h = ground arith

  not_feof-cases :
      (x : S32)
      → ((not_feof x ≡ minus_one) ⊎ (not_feof x ≡ val 0)) × (not_feof x ≡ val 0 → truth x ≡ true)
  not_feof-cases (val zero) = (inl refl, λ h. cc)
  not_feof-cases (val (suc n)) = (inr refl, λ h. refl)
  not_feof-cases (err e) = (inr refl, λ h. refl)

  no_more : (x : S32) → (x ≡ minus_one) ⊎ (x ≡ val 0) → x ≢ err eagain
  no_more x (inl e) h = cc
  no_more x (inr e) h = cc

  as_result : (x : S32) → (x ≡ minus_one) ⊎ (x ≡ val 0) → (x ≡ val 0) ⊎ ((e : Code) × (x ≡ err e))
  as_result x (inl e) = inr (_, e)
  as_result x (inr e) = inl e

  abbrev after_feof : ℕ → World → World
  after_feof f w = record w {
    trace = record { call = feof f; answer = os.respond w.trace (feof f) } ∷ w.trace;
  }

  Sends-last :
      (s : S32) (f n : ℕ) (w w' : World)
      → Delivers s (part_of f w) (after_fread f w) (val n) w'
      → Sends s f w (not_feof (os.respond w'.trace (feof f)).code) (after_feof f w')
  unfolding feof_last Talks-trans
  Sends-last s f n w w' d =
      let cases = not_feof-cases (os.respond w'.trace (feof f)).code in
      record {
        talks = Talks-trans (streamed s f w (val n) w' d) (feof_last s f w');
        unsent = d.unsent;
        splits = rw append-nil (streamed_splits s f w (val n) w' d);
        complete = λ h. (whole d.result, (refl, cases.1 h));
        more = λ h. absurd (no_more _ cases.0 h);
        result = as_result _ cases.0;
      }
    where
      whole : (val n ≡ val 0) ⊎ ((e : Code) × (val n ≡ err e)) → d.unsent ≡ []
      whole (inl e) = d.complete e
      whole (inr (x, e)) = cc

  Sends-rest :
      (s : S32) (f : ℕ) (w : World) (r : S32) (w' : World)
      → Delivers s (part_of f w) (after_fread f w) r w'
      → Told s (after_fread f w) r w'
      → Ensures
          ((elim r as (λ _. M S32) [
            | err e ↦ pure (err e)
            | val n ↦
                if ltb (length (part_of f w)) fread_buffer_size
                then (do eof ← call (Call.feof f); pure (not_feof eof.code))
                else pure (err eagain)
          ])
            w')
          (Sends s f w)
  unfolding call
  Sends-rest s f w (err e) w' d k = ended (Sends-failed s f w e w' d k)
  Sends-rest s f w (val n) w' d k =
      elim (Bool-cases (ltb (length (part_of f w)) fread_buffer_size)) [
        | inl y ↦ rw y (ended (Sends-last s f n w w' d))
        | inr m ↦ rw m (ended (Sends-more s f n w w' d m))
      ]

  -- `send_from_file` always comes back. It reads one buffer of the file, and the network takes a first
  -- part of what was read, in order. If the result is 0, it took all of it, and the file is at its end. If
  -- it is -EAGAIN, which asks for another round, it took all of a full buffer, or a write to the socket
  -- was answered with EAGAIN. Otherwise the result is an error. No other socket or file is touched.
  pub send_from_file-Sends :
      (s : S32) (f : ℕ) (w : World) → Ensures (send_from_file s f w) (Sends s f w)
  unfolding send_from_file call
  send_from_file-Sends s f w =
      Ensures-bind (send_part s (part_of f w) (after_fread f w))
        λ r w' t. Sends-rest s f w r w' t.0 t.1
