-- ===== src/World/Posix.antt =====
-- What `posix` does to the state, whatever the answer is.
use ftpii.Base.{◌≡◌, refl, ◌∷◌}
use ftpii.Os.{Code, S32, val, err, Call, Answer, Os}
use ftpii.World.{World, M, pure, call, posix, set_errno, ◌>>◌}
use ftpii.World.Triple.{Ensures, ended}

-- The call with its answer is recorded, and errno may have been set.
pub record Recorded (c : Call) (a : Answer) (w w' : World) : Type 0 where
  pub errno : Code
  pub is_state : w' ≡ record w { errno = errno; trace = record { call = c; answer = a } ∷ w.trace }

after_call :
    (x : S32) (c : Call) (a : Answer) (w : World)
    → let u = record w { trace = record { call = c; answer = a } ∷ w.trace } in
      Ensures
        ((elim x as (λ _. M Answer) [ val n ↦ pure a | err e ↦ set_errno e >> pure a ]) u)
        (λ b w'. Recorded c b w w')
after_call (val n) c a w = ended (record { errno = w.errno; is_state = refl })
after_call (err e) c a w = ended (record { errno = e; is_state = refl })

pub posix_lem : ⦃os : Os⦄ → (c : Call) (w : World) → Ensures (posix c w) (λ a w'. Recorded c a w w')
unfolding posix call
posix_lem ⦃os⦄ c w = after_call (os.respond w.trace c).code c (os.respond w.trace c) w
