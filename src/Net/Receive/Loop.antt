-- ===== src/Net/Receive/Loop.antt =====
-- The loop of `recv_to_file`, source/net.c.
use ftpii.Base.{
  ℕ, zero, suc, ◌+◌, ◌≤◌, ◌<◌, ◌≡◌, refl, sym, ◌∙◌, true, false, if◌then◌else◌, List, [], ◌∷◌,
  arith, inl, inr, ◌⊎◌, Bytes, Bool-cases, length, append-nil,
}
use ftpii.Os.{Code, S32, val, err, minus_one, Call, net_read, fwrite, Answer, Event, Os}
use ftpii.World.{World, M, pure, call, ◌>>=◌, ◌>>◌}
use ftpii.World.Triple.{Ensures, ended, Ensures-mono}
use ftpii.World.Frame.{Talks}
use ftpii.Net.Transfer.{retry_left, retries-eq}
use ftpii.Net.{min_net_buffer_size, set_net_buffer_size, retries, short_write, recv_to_file}
use ftpii.Net.Receive.{Copies, brought, received, filed, took_all, Receives, Copied, Receives-then}

module _ ⦃os : Os⦄ where
  -- The peer sends a finite stream: of what is left, each read that brings something, with the write
  -- behind it, leaves less, and one that fails no more.
  pub record Finite (s : S32) (f : ℕ) : Type 0 where
    pub left : List Event → ℕ
    pub spent :
        (past : List Event) (size n : ℕ) (b : Answer)
        → let a = os.respond past (net_read s size) in
          a.code ≡ val (suc n)
          → left (
              record { call = fwrite f a.payload; answer = b }
              ∷ record { call = net_read s size; answer = a }
              ∷ past)
            < left past
    pub kept :
        (past : List Event) (size : ℕ) (e : Code)
        → let a = os.respond past (net_read s size) in
          a.code ≡ err e → left (record { call = net_read s size; answer = a } ∷ past) ≤ left past

  abbrev read_call : S32 → World → Answer
  read_call s w = os.respond w.trace (net_read s w.net_buffer_size)

  abbrev read_event : S32 → World → Event
  read_event s w = record { call = net_read s w.net_buffer_size; answer = read_call s w }

  abbrev write_event : S32 → ℕ → World → Event
  write_event s f w = record {
    call = fwrite f (read_call s w).payload;
    answer = os.respond (read_event s w ∷ w.trace) (fwrite f (read_call s w).payload);
  }

  -- The read alone, as the last call.
  Receives-read :
      (s : S32) (f : ℕ) (w : World) (r : S32)
      → brought (net_read s w.net_buffer_size) (read_call s w).code (read_call s w).payload ≡ []
      → (r ≡ val 0 → (read_call s w).code ≡ val 0)
      → (r ≡ val 0) ⊎ ((e : Code) × (r ≡ err e))
      → Receives s f w r (record w { trace = read_event s w ∷ w.trace })
  Receives-read s f w r e closed result = record {
    talks = record {
      grows = record { new = read_event s w ∷ []; grown = refl; made = (refl, tt) };
      ftp = refl;
      fs = refl;
      dvd = refl;
      reset = refl;
    };
    same = sym e;
    complete = λ h. ((refl, tt), (w.net_buffer_size, refl, closed h));
    result = result;
  }

  Copied-retry :
      (s : S32) (f n : ℕ) (w : World) (e : Code)
      → (read_call s w).code ≡ err e
      → Copied s f w (record w { trace = read_event s w ∷ w.trace; net_buffer_size = n })
  Copied-retry s f n w e h = record {
    talks = record {
      grows = record { new = read_event s w ∷ []; grown = refl; made = (refl, tt) };
      ftp = refl;
      fs = refl;
      dvd = refl;
      reset = refl;
    };
    same = rw h refl;
    whole = (refl, tt);
  }

  long_write :
      (b : Bytes) (n : ℕ) (x : S32) → length b ≡ n → short_write x n ≡ false → took_all b x ≡ true
  long_write b n (val m) e h = ground arith
  long_write b n (err x) e h = cc

  no_bytes : (b : Bytes) → length b ≡ 0 → b ≡ []
  no_bytes [] h = refl
  no_bytes (c ∷ b) h = absurd (omega arith)

  brought-val :
      (c n : ℕ) (s : S32) (x : S32) (payload : Bytes)
      → x ≡ val n
      → brought (net_read s c) x payload ≡ payload
  brought-val c n s x payload e = rw e refl

  unfoldable both_calls :
      (s : S32) (f : ℕ) (w : World)
      → Talks (Copies s f) w (record w { trace = write_event s f w ∷ read_event s w ∷ w.trace })
  both_calls s f w = record {
    grows = record {
      new = write_event s f w ∷ read_event s w ∷ [];
      grown = refl;
      made = (refl, (refl, tt));
    };
    ftp = refl;
    fs = refl;
    dvd = refl;
    reset = refl;
  }

  both_same :
      (s : S32) (f n : ℕ) (w : World)
      → (read_call s w).code ≡ val n
      → filed (both_calls s f w).grows.new ≡ received (both_calls s f w).grows.new
  unfolding both_calls
  both_same s f n w h = sym (
      append-nil _
      ∙ brought-val w.net_buffer_size n s (read_call s w).code (read_call s w).payload h)

  Receives-short :
      (s : S32) (f n : ℕ) (w : World)
      → (read_call s w).code ≡ val n
      → Receives s f w minus_one (record w { trace = write_event s f w ∷ read_event s w ∷ w.trace })
  Receives-short s f n w h = record {
    talks = both_calls s f w;
    same = both_same s f n w h;
    complete = λ e. cc;
    result = inr (_, refl);
  }

  Copied-round :
      (s : S32) (f n : ℕ) (w : World)
      → (read_call s w).code ≡ val n
      → short_write (write_event s f w).answer.code n ≡ false
      → Copied s f w (record w { trace = write_event s f w ∷ read_event s w ∷ w.trace })
  unfolding both_calls
  Copied-round s f n w h k = record {
    talks = both_calls s f w;
    same = both_same s f n w h;
    whole = (
      long_write (read_call s w).payload n (write_event s f w).answer.code
          (os.net_read-le w.trace s w.net_buffer_size n h).1 k,
      (refl, tt),
    );
  }

  onward_Receives :
      (s : S32) (f fuel : ℕ) (w w1 : World)
      → Copied s f w w1
      → Ensures (recv_to_file fuel s f w1) (Receives s f w1)
      → Ensures (recv_to_file fuel s f w1) (Receives s f w)
  onward_Receives s f fuel w w1 c h = Ensures-mono h λ r w' d. Receives-then s f w w1 r w' c d

  written_Receives :
      (s : S32) (f fuel n : ℕ) (w : World)
      → (read_call s w).code ≡ val n
      → Ensures
          (recv_to_file fuel s f
            (record w { trace = write_event s f w ∷ read_event s w ∷ w.trace }))
          (Receives s f (record w { trace = write_event s f w ∷ read_event s w ∷ w.trace }))
      → Ensures
          ((if short_write (write_event s f w).answer.code n
              then pure minus_one
              else recv_to_file fuel s f)
            (record w { trace = write_event s f w ∷ read_event s w ∷ w.trace }))
          (Receives s f w)
  written_Receives s f fuel n w e h =
      elim (Bool-cases (short_write (write_event s f w).answer.code n)) [
        | inl short ↦ rw short (ended (Receives-short s f n w e))
        | inr long ↦ rw long (onward_Receives s f fuel w _ (Copied-round s f n w e long) h)
      ]

  abbrev after_read : S32 → World → ℕ → World
  after_read s w n = record w { trace = read_event s w ∷ w.trace; net_buffer_size = n }

  failed_Receives :
      (s : S32) (f fuel : ℕ) (w : World) (x : Code)
      → (read_call s w).code ≡ err x
      → (retries x w.net_buffer_size ≡ true
          → Ensures
              (recv_to_file fuel s f (after_read s w min_net_buffer_size))
              (Receives s f (after_read s w min_net_buffer_size)))
      → Ensures
          ((if retries x w.net_buffer_size
              then (set_net_buffer_size min_net_buffer_size >> recv_to_file fuel s f)
              else pure (err x))
            (record w { trace = read_event s w ∷ w.trace }))
          (Receives s f w)
  failed_Receives s f fuel w x e h = elim (Bool-cases (retries x w.net_buffer_size)) [
    | inl again ↦
        rw again
          (onward_Receives s f fuel w _ (Copied-retry s f min_net_buffer_size w x e) (h again))
    | inr stop ↦ rw stop (ended (Receives-read s f w (err x) (rw e refl) (λ k. cc) (inr (x, refl))))
  ]

  round_Receives :
      (s : S32) (f fuel : ℕ) (w : World) (stream : Finite s f) (x : S32)
      → (read_call s w).code ≡ x
      → stream.left w.trace + retry_left w < suc fuel
      → ((w1 : World)
          → stream.left w1.trace + retry_left w1 < fuel
          → Ensures (recv_to_file fuel s f w1) (Receives s f w1))
      → Ensures
          ((elim x as (λ _. M S32) [
            | err e ↦
                if retries e w.net_buffer_size
                then (set_net_buffer_size min_net_buffer_size >> recv_to_file fuel s f)
                else pure (err e)
            | val zero ↦ pure (val 0)
            | val (suc n) ↦ do
              written ← call (Call.fwrite f (read_call s w).payload)
              if short_write written.code (suc n) then pure minus_one else recv_to_file fuel s f
          ])
            (record w { trace = read_event s w ∷ w.trace }))
          (Receives s f w)
  unfolding call
  round_Receives s f fuel w stream (val zero) e h ih = ended (
      Receives-read s f w (val 0)
        (brought-val w.net_buffer_size 0 s (read_call s w).code (read_call s w).payload e
          ∙ no_bytes (read_call s w).payload (os.net_read-le w.trace s w.net_buffer_size 0 e).1)
        (λ k. e) (inl refl))
  round_Receives s f fuel w stream (val (suc n)) e h ih = written_Receives s f fuel (suc n) w e (
      ih _
        (omega (arith, h, stream.spent w.trace w.net_buffer_size n (write_event s f w).answer e)))
  round_Receives s f fuel w stream (err x) e h ih = failed_Receives s f fuel w x e λ again. ih _ (
      ground
        (arith, h, retries-eq x w.net_buffer_size again, stream.kept w.trace w.net_buffer_size x e))

  -- Where the peer sends a finite stream, and the fuel is more than what is left of it, and one for the
  -- retry with a smaller buffer, `recv_to_file` comes back. What it wrote to the file is then what came
  -- from the network, in order; if the result is 0, the file took all of it, and the last read found
  -- the end of the stream; otherwise the result is an error. No other socket or file is touched.
  pub recv_to_file-Receives :
      (fuel : ℕ) (s : S32) (f : ℕ) (w : World) (stream : Finite s f)
      → stream.left w.trace + retry_left w < fuel
      → Ensures (recv_to_file fuel s f w) (Receives s f w)
  unfolding recv_to_file
  recv_to_file-Receives zero s f w stream h = absurd (omega arith)
  recv_to_file-Receives (suc fuel) s f w stream h =
      round_Receives s f fuel w stream (read_call s w).code refl h
        (λ w1 k. recv_to_file-Receives fuel s f w1 stream k)
