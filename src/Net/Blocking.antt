-- ===== src/Net/Blocking.antt =====
-- Where `send_exact` of source/net.c says that the socket would block.
use ftpii.Base.{
  ℕ, zero, suc, ◌+◌, ◌≡◌, refl, sym, ap, ◌∙◌, ◌⊎◌, true, false, List, [], ◌∷◌, ◌++◌, append_assoc,
  inl, inr, Bytes, Bool-cases, length, take, drop, if◌then◌else◌,
}
use ftpii.Os.{S32, val, err, enodata, eagain, Answer, net_write, Event, Os}
use ftpii.World.{World, M, pure, call, ◌>>◌}
use ftpii.World.Keeps.{After, waits, After-then, After-mono, After-Ensures}
use ftpii.Net.Transfer.{set_blocking-Quiet}
use ftpii.Net.{
  min_net_buffer_size, set_net_buffer_size, retries, transfer_loop, transfer_exact, send_exact,
}

-- One of the calls is a write to the socket that was answered with EAGAIN.
abbrev pub WouldBlock : S32 → List Event → Type 0
WouldBlock s [] = ⊥
WouldBlock s (e ∷ past) =
    (((b : Bytes) × (e.call ≡ net_write s b)) × (e.answer.code ≡ err eagain)) ⊎ WouldBlock s past

-- Between the two states a write to the socket was answered with EAGAIN.
pub record Refused (s : S32) (w w' : World) : Type 0 where
  pub new : List Event
  pub grown : w'.trace ≡ new ++ w.trace
  pub refused : WouldBlock s new

-- The result says that the socket would block only if a write was answered so.
pub record Told (s : S32) (w : World) (r : S32) (w' : World) : Type 0 where
  pub told : r ≡ err eagain → Refused s w w'

WouldBlock-first : (s : S32) (a b : List Event) → WouldBlock s a → WouldBlock s (a ++ b)
WouldBlock-first s [] b h = absurd h
WouldBlock-first s (e ∷ a) b (inl h) = inl h
WouldBlock-first s (e ∷ a) b (inr h) = inr (WouldBlock-first s a b h)

WouldBlock-later : (s : S32) (a b : List Event) → WouldBlock s b → WouldBlock s (a ++ b)
WouldBlock-later s [] b h = h
WouldBlock-later s (e ∷ a) b h = inr (WouldBlock-later s a b h)

-- With more calls before, and after.
pub Told-since :
    (s : S32) (a : List Event) {u v : World} {r : S32} {w : World}
    → v.trace ≡ a ++ u.trace
    → Told s v r w
    → Told s u r w
Told-since s a {u} {v} {r} {w} e t = record {
  told = λ h.
      let k = t.told h in
      record {
        new = k.new ++ a;
        grown = k.grown ∙ ap (◌++◌ k.new) e ∙ sym (append_assoc k.new a u.trace);
        refused = WouldBlock-first s k.new a k.refused;
      };
}

Told-until :
    (s : S32) (a : List Event) {u v : World} {r : S32} {w : World}
    → w.trace ≡ a ++ v.trace
    → Told s u r v
    → Told s u r w
Told-until s a {u} {v} {r} {w} e t = record {
  told = λ h.
      let k = t.told h in
      record {
        new = a ++ k.new;
        grown = e ∙ ap (◌++◌ a) k.grown ∙ sym (append_assoc a k.new u.trace);
        refused = WouldBlock-later s a k.new k.refused;
      };
}

Told-else : {s : S32} {w : World} {r : S32} {w' : World} → ¬ (r ≡ err eagain) → Told s w r w'
Told-else n = record { told = λ h. absurd (n h) }

module _ ⦃os : Os⦄ where
  -- After the write of `b` that was answered with `a`, in the state `v`.
  answered-Told :
      (x : S32) (fuel : ℕ) (s : S32) (b : Bytes) (a : Answer) (buf : Bytes) (size : ℕ) (w v : World)
      → a.code ≡ x
      → v.trace ≡ record { call = net_write s b; answer = a } ∷ w.trace
      → ((u : World) (t : Bytes) → After (Told s u) (transfer_loop fuel s t u))
      → After (Told s w) (
          (elim x as (λ _. M S32) [
            | val zero ↦ pure (err enodata)
            | val (suc n) ↦ transfer_loop fuel s (drop (suc n) buf)
            | err e ↦
                if retries e size
                then (set_net_buffer_size min_net_buffer_size >> transfer_loop fuel s buf)
                else pure (err e)
          ])
            v)
  answered-Told (val zero) fuel s b a buf size w v e g ih = After.ended (Told-else (λ h. cc))
  answered-Told (val (suc n)) fuel s b a buf size w v e g ih =
      After-mono (ih v _) λ r w' t. Told-since s (_ ∷ []) g t
  answered-Told (err c) fuel s b a buf size w v e g ih = elim (Bool-cases (retries c size)) [
    | inl y ↦ rw y (
        After-mono (ih (record v { net_buffer_size = min_net_buffer_size }) buf)
          λ r w' t. Told-since s (_ ∷ []) g t)
    | inr n ↦ rw n (
        After.ended (record {
          told = λ h. record { new = _ ∷ []; grown = g; refused = inl ((b, refl), e ∙ h) };
        }))
  ]

  loop-Told :
      (fuel : ℕ) (s : S32) (buf : Bytes) (w : World) → After (Told s w) (transfer_loop fuel s buf w)
  unfolding transfer_loop call
  loop-Told zero s buf w = waits
  loop-Told (suc fuel) s [] w = After.ended (Told-else (λ h. cc))
  loop-Told (suc fuel) s (b ∷ buf) w =
      answered-Told (os.respond w.trace (net_write s (take w.net_buffer_size (b ∷ buf)))).code fuel
        s (take w.net_buffer_size (b ∷ buf))
        (os.respond w.trace (net_write s (take w.net_buffer_size (b ∷ buf)))) (b ∷ buf)
        w.net_buffer_size w _ refl refl (λ u t. loop-Told fuel s t u)

  pub send_exact-Told : (s : S32) (buf : Bytes) (w : World) → After (Told s w) (send_exact s buf w)
  unfolding send_exact transfer_exact
  send_exact-Told s buf w = After-then (After-Ensures (set_blocking-Quiet s true w)) λ _ w1 q.
      After-then (loop-Told (length buf + 2) s buf w1) λ r w2 t.
        After-then (After-Ensures (set_blocking-Quiet s false w2)) λ _ w3 q'. After.ended (
          Told-until s q'.talks.grows.new q'.talks.grows.grown
            (Told-since s q.talks.grows.new q.talks.grows.grown t))
