-- ===== src/World/Triple.antt =====
-- Total correctness: an action ends with a value, and the value and the state are as said.
use ftpii.Base.{ℕ, ◌∙◌, ◌≡◌, refl, if◌then◌else◌, Bool, true, false}
use ftpii.Os.{S32, val, err, Code, Call, Os}
use ftpii.World.{World, Out, done, M, continue, pure, call, posix, set_errno, ◌>>=◌, ◌>>◌}

-- The action ended, and `Q` holds of its value and its state.
pub record Ensures {A : Type 0} (o : Out A) (Q : A → World → Type 0) : Type 0 where
  pub value : A
  pub after : World
  pub ends : o ≡ done value after
  pub holds : Q value after

module _ {A : Type 0} where
  pub ended : {a : A} {w : World} {Q : A → World → Type 0} → Q a w → Ensures (done a w) Q
  ended {a} {w} h = record { value = a; after = w; ends = refl; holds = h }

  pub Ensures-mono :
      {o : Out A} {P Q : A → World → Type 0}
      → Ensures o P
      → ((a : A) (w : World) → P a w → Q a w)
      → Ensures o Q
  Ensures-mono h k = record {
    value = h.value;
    after = h.after;
    ends = h.ends;
    holds = k h.value h.after h.holds;
  }

  -- What an action that ended so is known to ensure holds of its outcome.
  pub Ensures-at :
      {o : Out A} {Q : A → World → Type 0} {a : A} {w : World} → Ensures o Q → o ≡ done a w → Q a w
  Ensures-at {o} {Q} {a} {w} h e =
      let value_eq : h.value ≡ a = cc in
      let after_eq : h.after ≡ w = cc in rw (← value_eq, ← after_eq) h.holds

  pub Ensures-if :
      {x y : Out A} {Q : A → World → Type 0} (b : Bool)
      → (b ≡ true → Ensures x Q)
      → (b ≡ false → Ensures y Q)
      → Ensures (if b then x else y) Q
  Ensures-if true h k = h refl
  Ensures-if false h k = k refl

-- A sequence: what the first action ensures is what the second may rest on.
pub Ensures-bind :
    {A B : Type 0} {o : Out A} {f : A → M B} {P : A → World → Type 0} {Q : B → World → Type 0}
    → Ensures o P
    → ((a : A) (w : World) → P a w → Ensures (f a w) Q)
    → Ensures (continue o f) Q
Ensures-bind h k = rw h.ends (k h.value h.after h.holds)

-- The action comes back from every state, and leaves the statics of source/ftp.c as they are.
pub record Ends {A : Type 0} (m : M A) : Type 0 where
  pub run : (w : World) → Ensures (m w) (λ _ w'. w'.ftp ≡ w.ftp)

pub Ends-pure : {A : Type 0} (a : A) → Ends (pure a)
Ends-pure a = record { run = λ w. ended refl }

pub Ends-bind :
    {A B : Type 0} {m : M A} {k : A → M B} → Ends m → ((a : A) → Ends (k a)) → Ends (m >>= k)
Ends-bind s t = record {
  run = λ w. Ensures-bind (s.run w) λ a v e. Ensures-mono ((t a).run v) λ b u e'. e' ∙ e;
}

pub Ends-then : {A B : Type 0} {m : M A} {k : M B} → Ends m → Ends k → Ends (m >> k)
Ends-then s t = Ends-bind s λ _. t

pub Ends-if : {A : Type 0} (b : Bool) {m k : M A} → Ends m → Ends k → Ends (if b then m else k)
Ends-if true s t = s
Ends-if false s t = t

pub Ends-S32 :
    {A : Type 0} (x : S32) {m : ℕ → M A} {k : Code → M A}
    → ((n : ℕ) → Ends (m n))
    → ((e : Code) → Ends (k e))
    → Ends (elim x as (λ _. M A) [ val n ↦ m n | err e ↦ k e ])
Ends-S32 (val n) s t = s n
Ends-S32 (err e) s t = t e

set_errno-Ends : (e : Code) → Ends (set_errno e)
set_errno-Ends e = record { run = λ w. ended refl }

module _ ⦃os : Os⦄ where
  pub call-Ends : (c : Call) → Ends (call c)
  unfolding call
  call-Ends c = record { run = λ w. ended refl }

  pub posix-Ends : (c : Call) → Ends (posix c)
  unfolding posix
  posix-Ends c =
      Ends-bind (call-Ends c)
        λ a. Ends-S32 a.code (λ n. Ends-pure a) (λ e. Ends-then (set_errno-Ends e) (Ends-pure a))
