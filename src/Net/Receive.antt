-- ===== src/Net/Receive.antt =====
-- What `recv_to_file` of source/net.c is to do: the bytes that come are the bytes that it writes.
pub mod Loop
use ftpii.Base.{
  ℕ, zero, suc, ◌+◌, ◌≤◌, ◌<◌, ◌≡◌, refl, sym, ap, ◌∙◌, Bool, true, false, ltb, leb, if◌then◌else◌,
  List, [], ◌∷◌, ◌++◌, arith, inl, inr, ◌⊎◌, Bytes, ◌==◌, Bool-cases, length, append-nil,
  append_assoc, All, All-append,
}
use ftpii.Os.{Code, S32, val, err, minus_one, S32-cases, Call, net_read, fwrite, Answer, Event, Os}
use ftpii.World.{World, M, pure, call, ◌>>=◌, ◌>>◌}
use ftpii.World.Triple.{Ensures, ended, Ensures-mono}
use ftpii.World.Frame.{Talks, Talks-refl, Talks-trans}
use ftpii.Net.Transfer.{retry_left, retries-eq}
use ftpii.Net.{min_net_buffer_size, set_net_buffer_size, retries, short_write, recv_to_file}

-- The calls that read from the socket and write to the file.
abbrev pub Copies : S32 → ℕ → Call → Type 0
Copies s f (net_read t n) = t ≡ s
Copies s f (fwrite g b) = g ≡ f
Copies s f _ = ⊥

-- What one call brought.
abbrev pub brought : Call → S32 → Bytes → Bytes
brought (net_read s n) (val k) payload = payload
brought _ _ payload = []

abbrev pub stored : Call → Bytes
stored (fwrite f b) = b
stored _ = []

-- What came from the network over a history, and what was written, in the order of time.
abbrev pub received : List Event → Bytes
received [] = []
received (e ∷ past) = received past ++ brought e.call e.answer.code e.answer.payload

abbrev pub filed : List Event → Bytes
filed [] = []
filed (e ∷ past) = filed past ++ stored e.call

-- `fwrite` took what it was given.
abbrev pub took_all : Bytes → S32 → Bool
took_all b (val m) = leb (length b) m
took_all b (err e) = false

abbrev pub whole_call : Call → S32 → Bool
whole_call (fwrite f b) code = took_all b code
whole_call _ code = true

abbrev pub IsWhole : Event → Type 0
IsWhole e = whole_call e.call e.answer.code ≡ true

received-append : (new past : List Event) → received (new ++ past) ≡ received past ++ received new
received-append [] past = sym (append-nil (received past))
received-append (e ∷ new) past =
    rw (received-append new past)
      (append_assoc (received past) (received new) (brought e.call e.answer.code e.answer.payload))

filed-append : (new past : List Event) → filed (new ++ past) ≡ filed past ++ filed new
filed-append [] past = sym (append-nil (filed past))
filed-append (e ∷ new) past =
    rw (filed-append new past) (append_assoc (filed past) (filed new) (stored e.call))

-- The last call is a `net_read` that found the end of what the peer sends.
abbrev pub Closed : S32 → List Event → Type 0
Closed s [] = ⊥
Closed s (e ∷ past) = (size : ℕ) × (e.call ≡ net_read s size) × (e.answer.code ≡ val 0)

Closed-append : (s : S32) (new past : List Event) → Closed s new → Closed s (new ++ past)
Closed-append s [] past h = absurd h
Closed-append s (e ∷ new) past h = h

-- The result `r` of receiving: what came is what was written, in order; and on 0 the file took all of
-- it, up to the end of what the peer sends.
pub record Receives (s : S32) (f : ℕ) (w : World) (r : S32) (w' : World) : Type 0 where
  pub talks : Talks (Copies s f) w w'
  pub same : filed talks.grows.new ≡ received talks.grows.new
  pub complete : r ≡ val 0 → All IsWhole talks.grows.new × Closed s talks.grows.new
  pub result : (r ≡ val 0) ⊎ ((e : Code) × (r ≡ err e))

-- Rounds that the loop goes on after.
pub record Copied (s : S32) (f : ℕ) (w w' : World) : Type 0 where
  pub talks : Talks (Copies s f) w w'
  pub same : filed talks.grows.new ≡ received talks.grows.new
  pub whole : All IsWhole talks.grows.new

pub Receives-then :
    (s : S32) (f : ℕ) (u v : World) (r : S32) (w : World)
    → Copied s f u v
    → Receives s f v r w
    → Receives s f u r w
unfolding Talks-trans
Receives-then s f u v r w c d = record {
  talks = Talks-trans c.talks d.talks;
  same =
      filed-append d.talks.grows.new c.talks.grows.new
      ∙ ap (λ x. x ++ filed d.talks.grows.new) c.same
      ∙ ap (λ x. received c.talks.grows.new ++ x) d.same
      ∙ sym (received-append d.talks.grows.new c.talks.grows.new);
  complete = λ h. (
    All-append IsWhole d.talks.grows.new c.talks.grows.new (d.complete h).0 c.whole,
    Closed-append s d.talks.grows.new c.talks.grows.new (d.complete h).1,
  );
  result = d.result;
}
