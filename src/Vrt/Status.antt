-- ===== src/Vrt/Status.antt =====
-- `vrt_stat` of source/vrt.c from a current directory.
use ftpii.Base.{
  ℕ, ◌≡◌, ◌≢◌, refl, sym, ◌∙◌, inl, inr, true, false, List, [], ◌∷◌, ◌++◌, Option, none, some,
  Bytes, subst, if◌then◌else◌,
}
use ftpii.Os.{S32-sign, Call, Answer, Stat, Partition, gcsda, Os}
use ftpii.World.Posix.{posix_lem}
use ftpii.World.{World, done, M, pure, posix, ◌>>=◌}
use ftpii.World.Triple.{Ensures, ended, Ensures-mono, Ensures-bind}
use ftpii.Path.Components.{names}
use ftpii.Path.Correct.{IsText}
use ftpii.Vrt.Memory.{Failed, Answers}
use ftpii.Vrt.Resolve.{Real}
use ftpii.Vrt.Cwd.{IsCwd, target, NoPath, to_real_path-Real}
use ftpii.Fs.Table.{prefix}
use ftpii.Vrt.{skip_slash, with_virtual_path, vrt_stat, returns}
use ftpii.Vrt.Verdict.{
  Refused, Verdict, found_dir, Verdict-later, Answers→Talks, Verdict-none, Verdict-true,
}

cons_ne : (b : ℕ) (s : Bytes) → b ∷ s ≢ []
cons_ne b s h = cc

module _ ⦃os : Os⦄ where
  abbrev stat_result : Answer → Option Stat
  stat_result a = if returns a.code then some a.info else none

  stat-Refused :
      (path : Bytes) (a : Answer)
      → found_dir (stat_result a) ≡ false
      → Refused (record { call = Call.stat path; answer = a } ∷ [])
  stat-Refused path a h = elim (S32-sign a.code) [
    | inl (n, e) ↦
        inr (inl (tt, subst (λ c. found_dir (if returns c then some a.info else none) ≡ false) e h))
    | inr (x, e) ↦ inl (subst Failed (sym e) tt)
  ]

  one_stat :
      (path : Bytes) (w : World) (N : Type 0)
      → Ensures
          ((posix (Call.stat path) >>= λ a. pure (stat_result a)) w)
          (λ r w'. Verdict w w' N (found_dir r))
  one_stat path w N = Ensures-bind (posix_lem (Call.stat path) w) λ a w1 h.
      subst (λ u. Ensures (done (stat_result a) u) (λ r w'. Verdict w w' N (found_dir r)))
        (sym h.is_state)
        (ended (record {
          talks = record {
            grows = record { new = _ ∷ []; grown = refl; made = (tt, tt) };
            ftp = refl;
            fs = refl;
            dvd = refl;
            reset = refl;
          };
          reason = λ bad. inr (stat-Refused path a bad);
        }))

  prefix-cons : (p : Partition) (s : Bytes) → [] ≢ prefix p ++ s
  prefix-cons gcsda s h = cc
  prefix-cons _ s h = cc

  -- Only the root has the empty device path.
  Real-nil : (st : List Bytes) → Real st [] → st ≡ []
  Real-nil st (inl h) = h.0
  Real-nil st (inr h) = absurd (prefix-cons h.0.partition (skip_slash (names h.0.below)) h.0.real)

  append-cons_ne : (below : List Bytes) (top : Bytes) → below ++ top ∷ [] ≢ []
  append-cons_ne [] top h = cc
  append-cons_ne (x ∷ below) top h = cc

  Real-cons : (st : List Bytes) (b : ℕ) (s : Bytes) → Real st (b ∷ s) → st ≢ []
  Real-cons st b s (inl h) e = absurd (cons_ne b s h.1)
  Real-cons st b s (inr h) e = append-cons_ne h.0.below h.0.top (sym h.0.splits ∙ e)

  -- The continuation of `with_virtual_path` behind `to_real_path`.
  device_stat :
      (st : List Bytes) (w : World) (N : Type 0) (r : Option Bytes) (w1 : World)
      → st ≢ []
      → Answers w w1 (Real st) N r
      → Ensures
          ((elim r as (λ _. M (Option Stat)) [
            | none ↦ pure none
            | some [] ↦ pure none
            | some (b ∷ s) ↦ posix (Call.stat (b ∷ s)) >>= λ a. pure (stat_result a)
          ])
            w1)
          (λ r w'. Verdict w w' N (found_dir r))
  device_stat st w N none w1 n a = ended (Verdict-none a (λ x. x))
  device_stat st w N (some []) w1 n a = absurd (n (Real-nil st a.outcome))
  device_stat st w N (some (b ∷ s)) w1 n a =
      Ensures-mono (one_stat (b ∷ s) w1 N) λ r w' v. Verdict-later (Answers→Talks a) v

  -- The continuation of `vrt_stat` behind its own call of `to_real_path`.
  after_real_path :
      (cwd path : Bytes) (g : Stat) (w : World) (c : IsCwd cwd) (r : Option Bytes) (w1 : World)
      → IsText path
      → Answers w w1 (Real (target c.at path)) (NoPath cwd path (target c.at path)) r
      → Ensures
          ((elim r as (λ _. M (Option Stat)) [
            | none ↦ pure none
            | some [] ↦ pure (some (record g { is_dir = true; size = 31337 }))
            | some (_ ∷ _) ↦
                with_virtual_path cwd
                  (λ real. posix (Call.stat real) >>= λ a. pure (stat_result a))
                  path
                  none
          ])
            w1)
          (λ r w'. Verdict w w' (NoPath cwd path (target c.at path)) (found_dir r))
  unfolding with_virtual_path
  after_real_path cwd path g w c none w1 t a = ended (Verdict-none a (λ x. x))
  after_real_path cwd path g w c (some []) w1 t a = ended (Verdict-true (Answers→Talks a))
  after_real_path cwd path g w c (some (b ∷ s)) w1 t a =
      Ensures-bind (to_real_path-Real cwd path w1 c t) λ r w2 a'.
        Ensures-mono (device_stat (target c.at path) w1 _ r w2 (Real-cons _ b s a.outcome) a')
          λ r' w' v. Verdict-later (Answers→Talks a) v

  pub vrt_stat-Verdict :
      (cwd path : Bytes) (g : Stat) (w : World) (c : IsCwd cwd)
      → IsText path
      → Ensures
          (vrt_stat cwd path g w)
          (λ r w'. Verdict w w' (NoPath cwd path (target c.at path)) (found_dir r))
  unfolding vrt_stat
  vrt_stat-Verdict cwd path g w c t =
      Ensures-bind (to_real_path-Real cwd path w c t)
        λ r w1 a. after_real_path cwd path g w c r w1 t a
