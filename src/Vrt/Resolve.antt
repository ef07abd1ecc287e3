-- ===== src/Vrt/Resolve.antt =====
-- `to_real_path` of source/vrt.c: which device path stands for a directory or file.
use ftpii.Base.{
  ◌≤◌, ℕ, ◌+◌, ◌<◌, ◌≡◌, refl, sym, ap, subst, true, false, List, [], ◌∷◌, ◌++◌, Option, none, some,
  arith, inl, inr, ◌⊎◌, Bytes, ltb, Bool-cases, Option-cases, if◌then◌else◌, length, All, All-right,
  length-append, equal, equal_nocase,
}
use mathlib.Core.Bool.{false≢true}
use ftpii.Os.{Partition, Os, enodev}
use ftpii.World.{World, pure, ◌>>=◌}
use ftpii.World.Triple.{Ensures, ended, Ensures-bind}
use ftpii.World.Frame.{Talks-refl, errno_only}
use ftpii.Fs.Table.{virtual_partitions, alias, prefix}
use ftpii.Path.Components.{IsName, names, render}
use ftpii.Path.Normal.{IsPlain}
use ftpii.Vrt.{skip_slash, find_partition, malloc, real_path_of}
use ftpii.Vrt.Memory.{Answers, Answers-Memory, Memory, malloc-Memory}
use ftpii.Vrt.Alias.{
  Follows-names, render-append_one, matches_alias-first, find_partition-matches,
  find_partition-absent,
}

-- The device path `s` stands for the directory or file `st`: its first name is a device, and the
-- names below it follow the device's prefix.
pub record StandsFor (st : List Bytes) (s : Bytes) : Type 0 where
  pub partition : Partition
  pub top : Bytes
  pub below : List Bytes
  pub splits : st ≡ below ++ top ∷ []
  pub same_device : equal_nocase (alias partition) (b'/' ∷ top) ≡ true
  pub real : s ≡ prefix partition ++ skip_slash (names below)

-- The root, whose device path is the empty string, or a path that fits in MAXPATHLEN bytes.
abbrev pub Real : ⦃os : Os⦄ → List Bytes → Bytes → Type 0
Real ⦃os⦄ st s = ((st ≡ []) × (s ≡ [])) ⊎ (StandsFor st s × (length s < os.maxpathlen))

-- No device is the first name of `st`.
pub record Absent (st : List Bytes) : Type 0 where
  pub top : Bytes
  pub below : List Bytes
  pub splits : st ≡ below ++ top ∷ []
  pub no_device : (p : Partition) → equal_nocase (alias p) (b'/' ∷ top) ≡ false

-- No device path stands for `st`, or the one that does is too long.
abbrev pub Unreal : ⦃os : Os⦄ → List Bytes → Type 0
Unreal ⦃os⦄ st = Absent st ⊎ ((s : Bytes) × StandsFor st s × (os.maxpathlen ≤ length s))

last_name :
    (seg : Bytes) (st : List Bytes)
    → (below : List Bytes) × (top : Bytes) × (seg ∷ st ≡ below ++ top ∷ [])
last_name seg [] = ([], seg, refl)
last_name seg (x ∷ st) = let (below, top, e) = last_name x st in (seg ∷ below, top, ap (◌∷◌ seg) e)

stands :
    (p : Partition) (below : List Bytes) (top : Bytes)
    → equal_nocase (alias p) (b'/' ∷ top) ≡ true
    → StandsFor (below ++ top ∷ []) (prefix p ++ skip_slash (names below))
stands p below top same = record {
  partition = p;
  top = top;
  below = below;
  splits = refl;
  same_device = same;
  real = refl;
}

module _ ⦃os : Os⦄ where
  -- What `real_path_of` ensures of the directory or file `st`.
  abbrev Answered : List Bytes → World → Option Bytes → World → Type 0
  Answered st w r w' = Answers w w' (Real st) (Unreal st) r

  -- The branch of `real_path_of` at a row of the table.
  at_partition-Real :
      (p : Partition) (below : List Bytes) (top : Bytes) (w : World)
      → equal_nocase (alias p) (b'/' ∷ top) ≡ true
      → ltb os.maxpathlen (length (prefix p) + length (skip_slash (names below)) + 1) ≡ false
      → Ensures
          ((malloc (length (prefix p) + length (skip_slash (names below)) + 1) >>= λ ok.
              pure (if ok then some (prefix p ++ skip_slash (names below)) else none))
            w)
          (Answered (below ++ top ∷ []) w)
  at_partition-Real p below top w same fit = Ensures-bind (malloc-Memory _ w) λ ok w1 m.
      elim (Bool-cases ok) [
        | inl e ↦ rw e (
            ended (record {
              talks = m.talks;
              outcome = inr (
                stands p below top same,
                ground (arith, length-append (prefix p) (skip_slash (names below))),
              );
            }))
        | inr e ↦ rw e (ended (Answers-Memory (subst (Memory w w1) e m)))
      ]

  real_path_of-first :
      (below : List Bytes) (c : ℕ) (top : Bytes) (w : World)
      → IsName (c ∷ top)
      → Ensures
          (real_path_of (b'/' ∷ ((c ∷ top) ++ names below)) w)
          (Answered (below ++ (c ∷ top) ∷ []) w)
  unfolding real_path_of equal
  real_path_of-first below c top w n =
      elim (Option-cases (find_partition (b'/' ∷ ((c ∷ top) ++ names below)) virtual_partitions)) [
        | inl e ↦ rw e (
            ended (record {
              talks = errno_only enodev w;
              outcome = inl (
                  inl (record {
                    top = c ∷ top;
                    below = below;
                    splits = refl;
                    no_device =
                        find_partition-absent (c ∷ top) (names below) (Follows-names below) e;
                  }));
            }))
        | inr (p, e) ↦
            let (same, below_eq) =
              matches_alias-first p (c ∷ top) (names below) n (Follows-names below) (
                find_partition-matches (b'/' ∷ ((c ∷ top) ++ names below)) virtual_partitions p
                  e) in
            rw (e, below_eq)
              (elim (Bool-cases
                (ltb os.maxpathlen (length (prefix p) + length (skip_slash (names below)) + 1))) [
                  | inl long ↦ rw long (
                      ended (record {
                        talks = Talks-refl w;
                        outcome = inl (
                            inr (
                              _,
                              stands p below (c ∷ top) same,
                              ground (arith, length-append (prefix p) (skip_slash (names below))),
                            ));
                      }))
                  | inr fit ↦ rw fit (at_partition-Real p below (c ∷ top) w same fit)
                ])
      ]

  real_path_of-top :
      (below : List Bytes) (top : Bytes) (w : World)
      → IsPlain top
      → Ensures (real_path_of (b'/' ∷ (top ++ names below)) w) (Answered (below ++ top ∷ []) w)
  unfolding equal
  real_path_of-top below [] w p = absurd (false≢true (sym p.ne_nil))
  real_path_of-top below (c ∷ top) w p = real_path_of-first below c top w p.is_name

  pub real_path_of-Real :
      (st : List Bytes) (w : World)
      → All IsPlain st
      → Ensures (real_path_of (render st) w) (λ r w'. Answers w w' (Real st) (Unreal st) r)
  real_path_of-Real [] w h =
      unfold real_path_of equal in
      ended (record { talks = Talks-refl w; outcome = inl (refl, refl) })
  real_path_of-Real (seg ∷ st) w h =
      let (below, top, e) = last_name seg st in
      let plain : IsPlain top = (All-right IsPlain below (top ∷ []) (subst (All IsPlain) e h)).0 in
      subst (λ z. Ensures (real_path_of (render z) w) (Answered z w)) (sym e)
        (rw (render-append_one below top) (real_path_of-top below top w plain))
