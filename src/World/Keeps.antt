-- ===== src/World/Keeps.antt =====
-- What holds of an action however it ends: it follows no dead pointer, and where it comes back, the
-- state is related to the one before.
use ftpii.Base.{
  ◌≡◌, refl, subst, ℕ, zero, suc, List, [], ◌∷◌, Bool, true, false, Option, none, some,
  if◌then◌else◌,
}
use ftpii.Os.{S32, val, err, Code}
use ftpii.World.{World, continue, Out, done, fault, stuck, exited, M, pure, ◌>>=◌, ◌>>◌}
use ftpii.World.Triple.{Ensures}

-- The outcome is no fault, and a value that comes back, and its state, are as said.
pub data After {A : Type 0} (Q : A → World → Type 0) : Out A → Type 0 where
  ended : {a : A} {w : World} → Q a w → After Q (done a w)
  waits : After Q stuck
  leaves : {w : World} → After Q (exited w)

pub After-mono :
    {A : Type 0} {P Q : A → World → Type 0} {o : Out A}
    → After P o
    → ((a : A) (w : World) → P a w → Q a w)
    → After Q o
After-mono (ended h) k = ended (k _ _ h)
After-mono waits k = waits
After-mono leaves k = leaves

pub After-then :
    {A B : Type 0} {P : A → World → Type 0} {Q : B → World → Type 0} {o : Out A} {k : A → M B}
    → After P o
    → ((a : A) (w : World) → P a w → After Q (k a w))
    → After Q (continue o k)
After-then (ended h) k = k _ _ h
After-then waits k = waits
After-then leaves k = leaves

pub After-Ensures : {A : Type 0} {Q : A → World → Type 0} {o : Out A} → Ensures o Q → After Q o
After-Ensures h = rw h.ends (ended h.holds)

-- By a test, or an option, that is read.
pub After-if :
    {A : Type 0} {Q : A → World → Type 0} {w : World} (b : Bool) (m k : M A)
    → (b ≡ true → After Q (m w))
    → (b ≡ false → After Q (k w))
    → After Q ((if b then m else k) w)
After-if true m k s t = s refl
After-if false m k s t = t refl

pub After-Option :
    {A B : Type 0} {Q : B → World → Type 0} {w : World} (x : Option A) (m : M B) (k : A → M B)
    → (x ≡ none → After Q (m w))
    → ((a : A) → x ≡ some a → After Q (k a w))
    → After Q ((elim x as (λ _. M B) [ none ↦ m | some a ↦ k a ]) w)
After-Option none m k s t = s refl
After-Option (some a) m k s t = t a refl

-- Steps `R` of the state that compose, and keep the invariant `I`.
pub record Frame (I : World → Type 0) (R : World → World → Type 0) : Type 0 where
  pub here : (w : World) → R w w
  pub onward : (u v w : World) → R u v → R v w → R u w
  pub keep : (v w : World) → R v w → I v → I w

-- From a state as in `I`, the action makes such a step.
pub record Keeps {A : Type 0} (I : World → Type 0) (R : World → World → Type 0) (m : M A)
    : Type 0 where
  pub run : (w : World) → I w → After (λ _ w'. R w w') (m w)

module _ {I : World → Type 0} {R : World → World → Type 0} ⦃f : Frame I R⦄ where
  pub Keeps-pure : {A : Type 0} (a : A) → Keeps I R (pure a)
  Keeps-pure a = record { run = λ w i. ended (f.here w) }

  pub Keeps-bind :
      {A B : Type 0} {m : M A} {k : A → M B}
      → Keeps I R m
      → ((a : A) → Keeps I R (k a))
      → Keeps I R (m >>= k)
  Keeps-bind s t = record {
    run = λ w i.
        After-then (s.run w i)
          λ a u r. After-mono ((t a).run u (f.keep w u r i)) λ b v r'. f.onward w u v r r';
  }

  pub Keeps-then :
      {A B : Type 0} {m : M A} {k : M B} → Keeps I R m → Keeps I R k → Keeps I R (m >> k)
  Keeps-then s t = Keeps-bind s (λ _. t)

  pub Keeps-if :
      {A : Type 0} (b : Bool) {m k : M A}
      → Keeps I R m
      → Keeps I R k
      → Keeps I R (if b then m else k)
  Keeps-if true s t = s
  Keeps-if false s t = t

  pub Keeps-S32 :
      {A : Type 0} (x : S32) {m : ℕ → M A} {k : Code → M A}
      → ((n : ℕ) → Keeps I R (m n))
      → ((e : Code) → Keeps I R (k e))
      → Keeps I R (elim x as (λ _. M A) [ val n ↦ m n | err e ↦ k e ])
  Keeps-S32 (val n) s t = s n
  Keeps-S32 (err e) s t = t e

  pub Keeps-Option :
      {A B : Type 0} (x : Option A) {m : M B} {k : A → M B}
      → Keeps I R m
      → ((a : A) → Keeps I R (k a))
      → Keeps I R (elim x as (λ _. M B) [ none ↦ m | some a ↦ k a ])
  Keeps-Option none s t = s
  Keeps-Option (some a) s t = t a

  pub Keeps-S32_3 :
      {A : Type 0} (x : S32) {l : M A} {m : ℕ → M A} {k : Code → M A}
      → Keeps I R l
      → ((n : ℕ) → Keeps I R (m n))
      → ((e : Code) → Keeps I R (k e))
      → Keeps I R (elim x as (λ _. M A) [ val zero ↦ l | val (suc n) ↦ m n | err e ↦ k e ])
  Keeps-S32_3 (val zero) r s t = r
  Keeps-S32_3 (val (suc n)) r s t = s n
  Keeps-S32_3 (err e) r s t = t e

  pub Keeps-List :
      {A B : Type 0} (xs : List A) {m : M B} {k : A → List A → M B}
      → Keeps I R m
      → ((a : A) (rest : List A) → Keeps I R (k a rest))
      → Keeps I R (elim xs as (λ _. M B) [ [] ↦ m | a ∷ r ↦ k a r ])
  Keeps-List [] s t = s
  Keeps-List (a ∷ r) s t = t a r

  pub Keeps-path :
      {A B : Type 0} (x : Option (List A)) {l m : M B} {k : A → List A → M B}
      → Keeps I R l
      → Keeps I R m
      → ((a : A) (r : List A) → Keeps I R (k a r))
      → Keeps I R (elim x as (λ _. M B) [ none ↦ l | some [] ↦ m | some (a ∷ r) ↦ k a r ])
  Keeps-path none r s t = r
  Keeps-path (some []) r s t = s
  Keeps-path (some (a ∷ rest)) r s t = t a rest

After-done : {A : Type 0} {P : A → World → Type 0} {a : A} {w : World} → After P (done a w) → P a w
After-done (ended h) = h

-- What holds wherever an action comes back, of one that does.
pub Ensures-After :
    {A : Type 0} {P Q : A → World → Type 0} {o : Out A}
    → Ensures o Q
    → After P o
    → Ensures o (λ a w. Q a w × P a w)
Ensures-After {A} {P} h a = record {
  value = h.value;
  after = h.after;
  ends = h.ends;
  holds = (h.holds, After-done (subst (After P) h.ends a));
}

-- Whenever the outcome is a value, it and its state are as said.
pub record Upon {A : Type 0} (Q : A → World → Type 0) (o : Out A) : Type 0 where
  pub holds : (a : A) (w : World) → o ≡ done a w → Q a w

pub Upon-done :
    {A : Type 0} {Q : A → World → Type 0} (a : A) (w : World) → Q a w → Upon Q (done a w)
Upon-done {A} {Q} a w h = record { holds = λ b v e. subst (at h) e h }
  where
    at : Q a w → Out A → Type 0
    at k (done b v) = Q b v
    at k fault = Unit
    at k stuck = Unit
    at k (exited v) = Unit

pub Upon-bind :
    {A B : Type 0} {Q : B → World → Type 0} (o : Out A) (k : A → M B)
    → ((a : A) (w : World) → o ≡ done a w → Upon Q (k a w))
    → Upon Q (continue o k)
Upon-bind (done a w) k h = h a w refl
Upon-bind fault k h = record { holds = λ b v e. absurd (cc) }
Upon-bind stuck k h = record { holds = λ b v e. absurd (cc) }
Upon-bind (exited w) k h = record { holds = λ b v e. absurd (cc) }

pub Upon-if :
    {A : Type 0} {Q : A → World → Type 0} {w : World} (b : Bool) (m k : M A)
    → (b ≡ true → Upon Q (m w))
    → (b ≡ false → Upon Q (k w))
    → Upon Q ((if b then m else k) w)
Upon-if true m k s t = s refl
Upon-if false m k s t = t refl

pub After-Upon :
    {A : Type 0} {P Q : A → World → Type 0} {o : Out A}
    → After P o
    → Upon Q o
    → After (λ a w. P a w × Q a w) o
After-Upon (ended h) u = ended (h, u.holds _ _ refl)
After-Upon waits u = waits
After-Upon leaves u = leaves
