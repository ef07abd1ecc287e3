-- ===== src/Vrt/Verdict.antt =====
-- Results of looking a file up, as in `vrt_stat` of source/vrt.c: the calls, and what it means that one
-- refused.
use ftpii.Base.{
  ◌≡◌, ◌⊎◌, inl, inr, Bool, true, false, List, [], ◌∷◌, ◌++◌, Option, none, some, Bytes,
}
use ftpii.Os.{Code, Call, Stat, Event}
use ftpii.World.{World}
use ftpii.World.Frame.{Talks, Talks-trans, Talks-weaken}
use ftpii.Vrt.Memory.{Allocates, Starved, Failed, Answers}

-- The calls that look a file up.
abbrev pub Looks : Call → Type 0
Looks (Call.malloc n) = Unit {0}
Looks (Call.stat path) = Unit {0}
Looks _ = ⊥

abbrev pub IsStat : Call → Type 0
IsStat (Call.stat path) = Unit
IsStat _ = ⊥

-- A call of the history failed, or it was a `stat` and found no directory.
abbrev pub Refused : List Event → Type 0
Refused [] = ⊥
Refused (e ∷ es) =
    Failed e.answer.code ⊎ (IsStat e.call × (e.answer.info.is_dir ≡ false)) ⊎ Refused es

-- Only `malloc` and `stat` were called. Where the result is not `ok`, there is the reason `N`, or a
-- call refused.
pub record Verdict (w w' : World) (N : Type 0) (ok : Bool) : Type 0 where
  pub talks : Talks Looks w w'
  pub reason : ok ≡ false → N ⊎ Refused talks.grows.new

abbrev pub is_some {ℓ} : {A : Type ℓ} → Option A → Bool
is_some none = false
is_some (some a) = true

abbrev pub found_dir : Option Stat → Bool
found_dir none = false
found_dir (some st) = st.is_dir

Allocates→Looks : (c : Call) → Allocates c → Looks c
Allocates→Looks (Call.malloc n) h = tt
Allocates→Looks _ h = absurd h

Starved→Refused : (es : List Event) → Starved es → Refused es
Starved→Refused [] h = absurd h
Starved→Refused (e ∷ es) (inl h) = inl h
Starved→Refused (e ∷ es) (inr h) = inr (inr (Starved→Refused es h))

Refused-left : (new past : List Event) → Refused new → Refused (new ++ past)
Refused-left [] past h = absurd h
Refused-left (e ∷ new) past (inl h) = inl h
Refused-left (e ∷ new) past (inr (inl h)) = inr (inl h)
Refused-left (e ∷ new) past (inr (inr h)) = inr (inr (Refused-left new past h))

pub Verdict-later :
    {u v w : World} {N : Type 0} {ok : Bool} → Talks Looks u v → Verdict v w N ok → Verdict u w N ok
unfolding Talks-trans
Verdict-later t a = record {
  talks = Talks-trans t a.talks;
  reason = λ no. elim (a.reason no) [
    | inl n ↦ inl n
    | inr r ↦ inr (Refused-left a.talks.grows.new t.grows.new r)
  ];
}

pub Verdict-errno :
    {u v : World} {N : Type 0} {ok : Bool} (e : Code)
    → Verdict u v N ok
    → Verdict u (record v { errno = e }) N ok
Verdict-errno e a = record {
  talks = record {
    grows = record {
      new = a.talks.grows.new;
      grown = a.talks.grows.grown;
      made = a.talks.grows.made;
    };
    ftp = a.talks.ftp;
    fs = a.talks.fs;
    dvd = a.talks.dvd;
    reset = a.talks.reset;
  };
  reason = a.reason;
}

pub Answers→Talks :
    {w w' : World} {P : Bytes → Type 0} {N : Type 0} {r : Option Bytes}
    → Answers w w' P N r
    → Talks Looks w w'
Answers→Talks a = Talks-weaken Allocates→Looks a.talks

pub Verdict-none :
    {w w' : World} {P : Bytes → Type 0} {N O : Type 0}
    → Answers w w' P N none
    → (N → O)
    → Verdict w w' O false
unfolding Talks-weaken
Verdict-none a k = record {
  talks = Talks-weaken Allocates→Looks a.talks;
  reason =
      λ _. elim a.outcome [ inl n ↦ inl (k n) | inr s ↦ inr (Starved→Refused a.talks.grows.new s) ];
}

pub Verdict-true : {w w' : World} {N : Type 0} → Talks Looks w w' → Verdict w w' N true
Verdict-true t = record { talks = t; reason = λ h. cc }
