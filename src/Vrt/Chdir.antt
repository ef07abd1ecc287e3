-- ===== src/Vrt/Chdir.antt =====
-- `vrt_chdir` of source/vrt.c from a current directory.
use ftpii.Base.{
  ◌≡◌, refl, ap, ◌∙◌, inl, inr, List, [], ◌∷◌, ◌++◌, Option, none, some, Bytes, Bool-cases, All,
  subst, not, if◌then◌else◌, ◌≤◌, length, length-append, equal, arith,
}
use mathlib.Core.Bool.{true≢false}
use ftpii.Os.{Stat, enomem, enotdir, Os}
use ftpii.World.{World, M, pure, ◌>>=◌, ◌>>◌, set_errno}
use ftpii.World.Triple.{Ensures, ended, Ensures-bind}
use ftpii.World.Frame.{Talks}
use ftpii.Path.Components.{names, render}
use ftpii.Path.Correct.{IsText}
use ftpii.Path.Normal.{IsPlain, dir_path}
use ftpii.Vrt.Memory.{Answers}
use ftpii.Vrt.Cwd.{IsCwd, target, target-IsPlain, TooLong, NoPath, virtual_abspath-Absolute}
use ftpii.Vrt.{virtual_abspath, as_cwd, vrt_chdir}
use ftpii.Vrt.Verdict.{
  Looks, Verdict, is_some, found_dir, Verdict-later, Verdict-errno, Answers→Talks, Verdict-none,
  Verdict-true,
}
use ftpii.Vrt.Status.{vrt_stat-Verdict}

module _ ⦃os : Os⦄ where
  two_bytes : (s : Bytes) → 2 ≤ length s → as_cwd s ≡ s ++ b'/' ∷ []
  two_bytes [] h = absurd (omega arith)
  two_bytes (c ∷ []) h = absurd (omega arith)
  two_bytes (c ∷ d ∷ s) h = refl

  length-names : (seg : Bytes) (st : List Bytes) → IsPlain seg → 2 ≤ length (names (seg ∷ st))
  unfolding equal
  length-names [] st h = absurd (true≢false h.ne_nil)
  length-names (c ∷ seg) st h = omega (arith, length-append (names st) (b'/' ∷ c ∷ seg))

  as_cwd-dir_path : (st : List Bytes) → All IsPlain st → as_cwd (render st) ≡ dir_path st
  as_cwd-dir_path [] h = refl
  as_cwd-dir_path (seg ∷ st) h = two_bytes (names (seg ∷ st)) (length-names seg st h.0)

  -- What `vrt_chdir` stores, where it stores a directory.
  abbrev pub Landed : List Bytes → Option Bytes → Type 0
  Landed st none = Unit {0}
  Landed st (some cwd) = cwd ≡ dir_path st

  abspath_of :
      (cwd path : Bytes) (w : World) (c : IsCwd cwd)
      → IsText path
      → Ensures
          (virtual_abspath cwd path w)
          (λ r w'. Answers w w' (λ s. s ≡ render (target c.at path)) (TooLong cwd path) r)
  abspath_of cwd path w c t = rw c.is_path (virtual_abspath-Absolute c.at path w c.plain c.text t)

  -- The continuation of `vrt_chdir` behind `virtual_abspath`.
  store_cwd :
      (cwd path : Bytes) (st : List Bytes) (w w1 : World) (r : Option Bytes) (w2 : World)
      → All IsPlain st
      → Talks Looks w w1
      → Answers w1 w2 (λ s. s ≡ render st) (TooLong cwd path) r
      → Ensures
          ((elim r as (λ _. M (Option Bytes)) [
            | none ↦ set_errno enomem >> pure none
            | some s ↦ pure (some (as_cwd s))
          ])
            w2)
          (λ r w'. Verdict w w' (NoPath cwd path st) (is_some r) × Landed st r)
  store_cwd cwd path st w w1 none w2 h t a =
      ended (Verdict-later t (Verdict-errno enomem (Verdict-none a (λ long. inr (inl long)))), tt)
  store_cwd cwd path st w w1 (some s) w2 h t a =
      ended (
        Verdict-later t (Verdict-true (Answers→Talks a)),
        ap as_cwd a.outcome ∙ as_cwd-dir_path st h,
      )

  -- The continuation of `vrt_chdir` behind `vrt_stat`.
  enter_dir :
      (cwd path : Bytes) (w : World) (c : IsCwd cwd) (r : Option Stat) (w1 : World)
      → IsText path
      → Verdict w w1 (NoPath cwd path (target c.at path)) (found_dir r)
      → Ensures
          ((elim r as (λ _. M (Option Bytes)) [
            | none ↦ pure none
            | some found ↦
                if not found.is_dir
                then (set_errno enotdir >> pure none)
                else (virtual_abspath cwd path >>= λ abspath. elim abspath [
                  | none ↦ set_errno enomem >> pure none
                  | some s ↦ pure (some (as_cwd s))
                ])
          ])
            w1)
          (λ r w'.
            Verdict w w' (NoPath cwd path (target c.at path)) (is_some r)
            × Landed (target c.at path) r)
  enter_dir cwd path w c none w1 t v = ended (v, tt)
  enter_dir cwd path w c (some found) w1 t v = elim (Bool-cases found.is_dir) [
    | inr file ↦ rw file (
        ended (
          Verdict-errno enotdir (subst (Verdict w w1 (NoPath cwd path (target c.at path))) file v),
          tt,
        ))
    | inl dir ↦ rw dir (
        Ensures-bind (abspath_of cwd path w1 c t) λ r w2 a.
          store_cwd cwd path (target c.at path) w w1 r w2 (target-IsPlain c.at path c.plain) v.talks
            a)
  ]

  -- Let `cwd` be a current directory, and `path` a C string. What `vrt_chdir` stores in `cwd` is the
  -- current directory of what `path` means. It stores nothing only where there is no device path for
  -- that, a call of `malloc` or `stat` failed, or `stat` found no directory. It calls nothing else,
  -- and changes errno only.
  pub vrt_chdir-Landed :
      (cwd path : Bytes) (g : Stat) (w : World) (c : IsCwd cwd)
      → IsText path
      → Ensures (vrt_chdir cwd path g w) (λ r w'.
        Verdict w w' (NoPath cwd path (target c.at path)) (is_some r) × Landed (target c.at path) r)
  unfolding vrt_chdir
  vrt_chdir-Landed cwd path g w c t =
      Ensures-bind (vrt_stat-Verdict cwd path g w c t) λ r w1 v. enter_dir cwd path w c r w1 t v
