-- ===== src/Vrt/Memory.antt =====
-- Answers of source/vrt.c that need memory: the calls of `malloc`, and what it means that one failed.
use ftpii.Base.{
  ℕ, ◌≡◌, refl, ◌⊎◌, inl, inr, Bool, false, List, [], ◌∷◌, ◌++◌, Option, none, some, Bytes,
}
use ftpii.Os.{S32, val, err, S32-sign, Call, Event, Os}
use ftpii.World.{World}
use ftpii.World.Triple.{Ensures, ended}
use ftpii.World.Frame.{Talks, Talks-trans}
use ftpii.Vrt.{malloc}

abbrev pub Allocates : Call → Type 0
Allocates (Call.malloc n) = Unit {0}
Allocates _ = ⊥

abbrev pub Failed : S32 → Type 0
Failed (val n) = ⊥
Failed (err e) = Unit

-- A call of the history failed.
abbrev pub Starved : List Event → Type 0
Starved [] = ⊥
Starved (e ∷ es) = Failed e.answer.code ⊎ Starved es

abbrev Outcome : (Bytes → Type 0) → Type 0 → Option Bytes → Type 0
Outcome P N none = N
Outcome P N (some s) = P s

-- Only `malloc` was called; the answer is a string as `P` says, or NULL, for the reason `N` or for want
-- of memory.
pub record Answers (w w' : World) (P : Bytes → Type 0) (N : Type 0) (r : Option Bytes)
    : Type 0 where
  pub talks : Talks Allocates w w'
  pub outcome : Outcome P (N ⊎ Starved talks.grows.new) r

-- What `malloc` did.
pub record Memory (w w' : World) (ok : Bool) : Type 0 where
  pub talks : Talks Allocates w w'
  pub failed : ok ≡ false → Starved talks.grows.new

Starved-left : (new past : List Event) → Starved new → Starved (new ++ past)
Starved-left [] past h = absurd h
Starved-left (e ∷ new) past (inl h) = inl h
Starved-left (e ∷ new) past (inr h) = inr (Starved-left new past h)

Outcome-later :
    (P : Bytes → Type 0) (N : Type 0) (r : Option Bytes) (new past : List Event)
    → Outcome P (N ⊎ Starved new) r
    → Outcome P (N ⊎ Starved (new ++ past)) r
Outcome-later P N none new past (inl n) = inl n
Outcome-later P N none new past (inr s) = inr (Starved-left new past s)
Outcome-later P N (some s) new past h = h

pub Answers-later :
    {u v w : World} {P : Bytes → Type 0} {N : Type 0} {r : Option Bytes}
    → Talks Allocates u v
    → Answers v w P N r
    → Answers u w P N r
unfolding Talks-trans
Answers-later {r} t a = record {
  talks = Talks-trans t a.talks;
  outcome = Outcome-later _ _ r a.talks.grows.new t.grows.new a.outcome;
}

-- An answer of NULL is one whatever the strings are.
pub Answers-none :
    {u v : World} {P Q : Bytes → Type 0} {N O : Type 0}
    → Answers u v P N none
    → (N → O)
    → Answers u v Q O none
Answers-none a k = record {
  talks = a.talks;
  outcome = elim a.outcome [ inl n ↦ inl (k n) | inr s ↦ inr s ];
}

-- Another reason for NULL.
pub Answers-weaken :
    {u v : World} {P : Bytes → Type 0} {N O : Type 0} (r : Option Bytes)
    → Answers u v P N r
    → (N → O)
    → Answers u v P O r
Answers-weaken none a k = Answers-none a k
Answers-weaken (some s) a k = record { talks = a.talks; outcome = a.outcome }

pub Answers-Memory :
    {u v : World} {P : Bytes → Type 0} {N : Type 0} → Memory u v false → Answers u v P N none
Answers-Memory m = record { talks = m.talks; outcome = inr (m.failed refl) }

module _ ⦃os : Os⦄ where
  pub malloc-Memory : (n : ℕ) (w : World) → Ensures (malloc n w) (λ ok w'. Memory w w' ok)
  unfolding malloc
  malloc-Memory n w = elim (S32-sign (os.respond w.trace (Call.malloc n)).code) [
    | inl (k, e) ↦ rw e (
        ended (record {
          talks = record {
            grows = record { new = _ ∷ []; grown = refl; made = (tt, tt) };
            ftp = refl;
            fs = refl;
            dvd = refl;
            reset = refl;
          };
          failed = λ h. cc;
        }))
    | inr (x, e) ↦ rw e (
        ended (record {
          talks = record {
            grows = record { new = _ ∷ []; grown = refl; made = (tt, tt) };
            ftp = refl;
            fs = refl;
            dvd = refl;
            reset = refl;
          };
          failed = λ h. inl tt;
        }))
  ]
