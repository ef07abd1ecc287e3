-- ===== src/Vrt/Cwd.antt =====
-- The current directory of a client, and what a path that the client sends means there.
use ftpii.Base.{
  ◌⊎◌, ◌<◌, subst, Bool, true, ◌+◌, ◌≡◌, ◌≢◌, refl, ◌∙◌, false, List, [], ◌∷◌, ◌++◌, Option, none,
  some, arith, inl, inr, Bytes, ◌==◌, ltb, Bool-cases, if◌then◌else◌, length, All, All-append,
  contains,
}
use native.Mathlib.Decide.{ℕ_discrete}
use ftpii.Os.{Os, enoent}
use ftpii.World.{World, M, pure, ◌>>=◌}
use ftpii.World.Triple.{Ensures, ended, Ensures-mono, Ensures-bind}
use ftpii.World.Frame.{Talks-refl, errno_only}
use ftpii.Path.Components.{names, render, split_from, follow, resolve}
use ftpii.Path.Correct.{IsText, normalise-render}
use ftpii.Path.Normal.{
  IsPlain, dir_path, normalise-dir_path, resolve-IsPlain, follow-IsPlain, split_from-IsName,
}
use ftpii.Path.Text.{names-IsText, follow_split-IsText, resolve-IsText}
use ftpii.Path.{normalise}
use ftpii.Vrt.Memory.{
  Answers, Answers-later, Answers-none, Answers-weaken, Answers-Memory, Memory, malloc-Memory,
}
use ftpii.Vrt.Resolve.{Real, Unreal, real_path_of-Real}
use ftpii.Vrt.{begins, virtual_abspath, real_path_of, to_real_path}

-- A current directory as `vrt_chdir` leaves it: the path of the directory `at`, with a slash behind.
pub record IsCwd (cwd : Bytes) : Type 0 where
  pub at : List Bytes
  pub plain : All IsPlain at
  pub text : All IsText at
  pub is_path : cwd ≡ dir_path at

-- The directory or file that a client's path means from the directory `at`.
abbrev pub target : List Bytes → Bytes → List Bytes
target at [] = follow at (split_from [] [])
target at (c ∷ path) = if c == b'/' then resolve path else follow at (split_from [] (c ∷ path))

pub target-IsPlain :
    (at : List Bytes) (path : Bytes) → All IsPlain at → All IsPlain (target at path)
target-IsPlain at [] h = follow-IsPlain at (split_from [] []) h (split_from-IsName [] [] tt)
target-IsPlain at (c ∷ path) h = ground (
  arith,
  resolve-IsPlain path,
  follow-IsPlain at (split_from [] (c ∷ path)) h (split_from-IsName [] (c ∷ path) tt),
)

pub target-IsText :
    (at : List Bytes) (path : Bytes) → All IsText at → IsText path → All IsText (target at path)
target-IsText at [] h t = follow_split-IsText at [] h t
target-IsText at (c ∷ path) h t =
    ground (arith, resolve-IsText path t.1, follow_split-IsText at (c ∷ path) h t)

dir_path-IsText :
    (at : List Bytes) (path : Bytes) → All IsText at → IsText path → IsText (dir_path at ++ path)
dir_path-IsText at path h t =
    All-append (λ x. x ≢ 0) (dir_path at) path
      (All-append (λ x. x ≢ 0) (names at) (b'/' ∷ []) (names-IsText at h) (ground arith)) t

-- `virtual_abspath` refuses to put such a path behind the current directory.
abbrev pub TooLong : ⦃os : Os⦄ → Bytes → Bytes → Type 0
TooLong ⦃os⦄ cwd path = (begins b'/' path ≡ false) × (os.maxpathlen < length cwd + length path + 1)

-- Why `to_real_path` may answer NULL where there is memory.
abbrev pub NoPath : ⦃os : Os⦄ → Bytes → Bytes → List Bytes → Type 0
NoPath cwd path st = (contains b':' path ≡ true) ⊎ TooLong cwd path ⊎ Unreal st

module _ ⦃os : Os⦄ where
  -- What `virtual_abspath` ensures where the path means `st`.
  abbrev Absolute : Bytes → Bytes → List Bytes → World → Option Bytes → World → Type 0
  Absolute cwd path st w r w' = Answers w w' (λ s. s ≡ render st) (TooLong cwd path) r

  allocated :
      (cwd path s : Bytes) (st : List Bytes) (w w' : World) (ok : Bool)
      → s ≡ render st
      → Memory w w' ok
      → Absolute cwd path st w (if ok then some s else none) w'
  allocated cwd path s st w w' true e m = record { talks = m.talks; outcome = e }
  allocated cwd path s st w w' false e m = Answers-Memory m

  relative_abspath :
      (cwd path : Bytes) (st : List Bytes) (w : World)
      → begins b'/' path ≡ false
      → normalise (cwd ++ path) ≡ render st
      → Ensures (virtual_abspath cwd path w) (Absolute cwd path st w)
  unfolding virtual_abspath
  relative_abspath cwd path st w b e =
      rw b (elim (Bool-cases (ltb os.maxpathlen (length cwd + length path + 1))) [
        | inl long ↦
            rw long (ended (record { talks = Talks-refl w; outcome = inl (b, ground arith) }))
        | inr fits ↦ rw fits (
            Ensures-bind (malloc-Memory _ w) λ got w1 m. elim (Bool-cases got) [
              | inr no_memory ↦
                  rw no_memory (ended (Answers-Memory (subst (Memory w w1) no_memory m)))
              | inl memory ↦ rw memory (
                  Ensures-bind (malloc-Memory _ w1) λ ok w2 m'.
                    ended (Answers-later m.talks (allocated cwd path _ st w1 w2 ok e m')))
            ])
      ])

  rooted_abspath :
      (cwd path : Bytes) (st : List Bytes) (w : World)
      → normalise (b'/' ∷ path) ≡ render st
      → Ensures (virtual_abspath cwd (b'/' ∷ path) w) (Absolute cwd (b'/' ∷ path) st w)
  unfolding virtual_abspath begins
  rooted_abspath cwd path st w e =
      Ensures-bind (malloc-Memory _ w)
        λ ok w1 m. ended (allocated cwd (b'/' ∷ path) _ st w w1 ok e m)

  -- Let `at` be a directory, and `path` a C string. `virtual_abspath` answers the path of what `path`
  -- means from `at`. It answers NULL only where the two together are longer than MAXPATHLEN or a call
  -- of `malloc` failed, and it calls nothing else.
  pub virtual_abspath-Absolute :
      (at : List Bytes) (path : Bytes) (w : World)
      → All IsPlain at
      → All IsText at
      → IsText path
      → Ensures
          (virtual_abspath (dir_path at) path w)
          (λ r w'. Answers w w' (λ s. s ≡ render (target at path)) (TooLong (dir_path at) path) r)
  virtual_abspath-Absolute at [] w h h' t =
      relative_abspath (dir_path at) [] (target at []) w (unfold begins in refl)
        (normalise-dir_path at [] h (dir_path-IsText at [] h' t))
  virtual_abspath-Absolute at (c ∷ path) w h h' t = elim (ℕ_discrete c b'/') [
    | yes e ↦ rw e (rooted_abspath (dir_path at) path (resolve path) w (normalise-render path t.1))
    | no e ↦
        relative_abspath (dir_path at) (c ∷ path) (target at (c ∷ path)) w
          (unfold begins in ground arith)
          (normalise-dir_path at (c ∷ path) h (dir_path-IsText at (c ∷ path) h' t) ∙ ground arith)
  ]

  after_abspath :
      (cwd path : Bytes) (st : List Bytes) (w : World) (r : Option Bytes) (w1 : World)
      → All IsPlain st
      → Absolute cwd path st w r w1
      → Ensures
          ((elim r as (λ _. M (Option Bytes)) [ none ↦ pure none | some path ↦ real_path_of path ])
            w1)
          (λ s w'. Answers w w' (Real st) (TooLong cwd path ⊎ Unreal st) s)
  after_abspath cwd path st w none w1 h a = ended (Answers-none a inl)
  after_abspath cwd path st w (some s) w1 h a = rw a.outcome (
      Ensures-mono (real_path_of-Real st w1 h)
        λ s w' p. Answers-later a.talks (Answers-weaken s p inr))

  without_colon :
      (cwd path : Bytes) (w : World) (c : IsCwd cwd)
      → IsText path
      → Ensures
          ((virtual_abspath cwd path >>= λ abspath. elim abspath [
            | none ↦ pure none
            | some path ↦ real_path_of path
          ])
            w)
          (λ r w'.
            Answers w w' (Real (target c.at path)) (TooLong cwd path ⊎ Unreal (target c.at path)) r)
  without_colon cwd path w c t = rw c.is_path (
      Ensures-bind (virtual_abspath-Absolute c.at path w c.plain c.text t) λ r w1 a.
        after_abspath (dir_path c.at) path (target c.at path) w r w1
          (target-IsPlain c.at path c.plain) a)

  -- Let `cwd` be a current directory, and `path` a C string. `to_real_path` answers the device path
  -- that stands for what `path` means from `cwd`; it fits in MAXPATHLEN bytes. It answers NULL only
  -- where `path` holds a colon, its first name is no device, a path is longer than MAXPATHLEN, or a
  -- call of `malloc` failed, and it calls nothing else.
  pub to_real_path-Real :
      (cwd path : Bytes) (w : World) (c : IsCwd cwd)
      → IsText path
      → Ensures
          (to_real_path cwd path w)
          (λ r w'. Answers w w' (Real (target c.at path)) (NoPath cwd path (target c.at path)) r)
  unfolding to_real_path
  to_real_path-Real cwd path w c t = elim (Bool-cases (contains b':' path)) [
    | inl colon ↦
        rw colon (ended (record { talks = errno_only enoent w; outcome = inl (inl refl) }))
    | inr ok ↦ rw ok (
        Ensures-mono (without_colon cwd path _ c t)
          λ r w' a. Answers-later (errno_only enoent w) (Answers-weaken r a inr))
  ]
