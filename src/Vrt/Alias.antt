-- ===== src/Vrt/Alias.antt =====
-- Which row of the table `to_real_path` of source/vrt.c takes for a path.
use ftpii.Base.{
  ◌∙◌, ℕ, ◌≡◌, refl, sym, Bool, true, false, ◌&&◌, ◌||◌, List, [], ◌∷◌, ◌++◌, none, some, arith,
  inl, inr, Bytes, ◌==◌, Bool-cases, length, drop, All, append_assoc, append-nil, equal_nocase,
  starts_with_nocase, to_lower,
}
use mathlib.Core.Bool.{true≢false}
use ftpii.Os.{Partition, gcsda, gcsdb, sd, usb, dvd, wod, fst, nand, isfs, otp, seeprom}
use ftpii.Fs.Table.{virtual_partitions, alias}
use ftpii.Path.Components.{IsName, names, render}
use ftpii.Vrt.{begins, matches_alias, find_partition}

-- An alias without its slash.
abbrev device_name : Partition → Bytes
device_name p = drop 1 (alias p)

alias-device_name : (p : Partition) → (alias p ≡ b'/' ∷ device_name p) × IsName (device_name p)
alias-device_name gcsda = (refl, ground arith)
alias-device_name _ = (refl, ground arith)

-- Only `/` is `/` up to letter case.
to_lower-slash : (x : ℕ) → (to_lower x == 47) ≡ true → x ≡ b'/'
unfolding to_lower
to_lower-slash x h = ground arith

-- What follows the first name: nothing, or a slash.
abbrev pub Follows : Bytes → Type 0
Follows [] = Unit
Follows (c ∷ _) = c ≡ b'/'

equal_nocase-first :
    (a top tail : Bytes)
    → IsName a
    → Follows tail
    → equal_nocase a (top ++ tail) ≡ true
    → (equal_nocase a top ≡ true) × (tail ≡ [])
unfolding equal_nocase
equal_nocase-first [] [] [] n f h = (refl, refl)
equal_nocase-first [] [] (c ∷ tail) n f h = cc
equal_nocase-first [] (t ∷ top) tail n f h = cc
equal_nocase-first (x ∷ a) [] [] n f h = cc
equal_nocase-first (x ∷ a) [] (c ∷ tail) n f h = ground (arith, to_lower-slash x)
equal_nocase-first (x ∷ a) (t ∷ top) tail n f h =
    ground (arith, equal_nocase-first a top tail n.1 f)

starts_with-first :
    (a top tail : Bytes)
    → IsName a
    → IsName top
    → Follows tail
    → starts_with_nocase a (top ++ tail) ≡ true
    → begins b'/' (drop (length a) (top ++ tail)) ≡ true
    → (equal_nocase a top ≡ true) × (drop (length a) (top ++ tail) ≡ tail)
unfolding starts_with_nocase equal_nocase begins
starts_with-first [] [] tail n m f h b = (refl, refl)
starts_with-first [] (t ∷ top) tail n m f h b = ground arith
starts_with-first (x ∷ a) [] [] n m f h b = cc
starts_with-first (x ∷ a) [] (c ∷ tail) n m f h b = ground (arith, to_lower-slash x)
starts_with-first (x ∷ a) (t ∷ top) tail n m f h b =
    ground (arith, starts_with-first a top tail n.1 m.1 f)

-- The names below the first one, which stands last in the list.
names-append_one :
    (below : List Bytes) (top : Bytes) → names (below ++ top ∷ []) ≡ b'/' ∷ (top ++ names below)
names-append_one [] top = rw append-nil
names-append_one (seg ∷ below) top =
    rw (names-append_one below top, append_assoc top (names below) (b'/' ∷ seg)) refl

Follows-append : (st : List Bytes) (ys : Bytes) → Follows ys → Follows (names st ++ ys)
Follows-append [] ys h = h
Follows-append (seg ∷ st) ys h =
    rw (append_assoc (names st) (b'/' ∷ seg) ys) (Follows-append st (b'/' ∷ (seg ++ ys)) refl)

pub Follows-names : (st : List Bytes) → Follows (names st)
Follows-names [] = tt
Follows-names (seg ∷ st) = Follows-append st (b'/' ∷ seg) refl

pub render-append_one :
    (below : List Bytes) (top : Bytes) → render (below ++ top ∷ []) ≡ b'/' ∷ (top ++ names below)
render-append_one [] top = rw append-nil
render-append_one (seg ∷ below) top = names-append_one (seg ∷ below) top

drop-equal_nocase : (a b : Bytes) → equal_nocase a b ≡ true → drop (length a) b ≡ []
unfolding equal_nocase
drop-equal_nocase [] [] h = refl
drop-equal_nocase [] (y ∷ b) h = cc
drop-equal_nocase (x ∷ a) [] h = refl
drop-equal_nocase (x ∷ a) (y ∷ b) h = ground (arith, drop-equal_nocase a b)

-- the test of the loop, at the alias `/a`
abbrev fits : Bytes → Bytes → Bool
fits a path =
    equal_nocase (b'/' ∷ a) path
    || (starts_with_nocase (b'/' ∷ a) path && begins b'/' (drop (length (b'/' ∷ a)) path))

fits-first :
    (a top tail : Bytes)
    → IsName a
    → IsName top
    → Follows tail
    → fits a (b'/' ∷ (top ++ tail)) ≡ true
    → (equal_nocase (b'/' ∷ a) (b'/' ∷ top) ≡ true) × (drop (length a) (top ++ tail) ≡ tail)
unfolding equal_nocase starts_with_nocase
fits-first a top tail n m f h = ground (
  arith,
  equal_nocase-first a top tail n f,
  starts_with-first a top tail n m f,
  drop-equal_nocase a (top ++ tail),
)

-- A row of the table fits a path only if its alias is the first name, up to letter case; the rest
-- of the path is then the names below.
pub matches_alias-first :
    (p : Partition) (top tail : Bytes)
    → IsName top
    → Follows tail
    → matches_alias (b'/' ∷ (top ++ tail)) p ≡ true
    → (equal_nocase (alias p) (b'/' ∷ top) ≡ true)
      × (drop (length (alias p)) (b'/' ∷ (top ++ tail)) ≡ tail)
unfolding matches_alias
matches_alias-first gcsda top tail m f h =
    fits-first (device_name gcsda) top tail (alias-device_name gcsda).1 m f h
matches_alias-first p top tail m f h =
    fits-first (device_name p) top tail (alias-device_name p).1 m f h

pub find_partition-matches :
    (path : Bytes) (ps : List Partition) (p : Partition)
    → find_partition path ps ≡ some p
    → matches_alias path p ≡ true
unfolding find_partition
find_partition-matches path [] p h = cc
find_partition-matches path (q ∷ ps) p h = elim (Bool-cases (matches_alias path q)) [
  | inl e ↦ ground (arith)
  | inr e ↦ find_partition-matches path ps p (rw e at h)
]

starts_with-same :
    (a top tail : Bytes)
    → equal_nocase a top ≡ true
    → (starts_with_nocase a (top ++ tail) ≡ true) × (drop (length a) (top ++ tail) ≡ tail)
unfolding starts_with_nocase equal_nocase
starts_with-same [] [] tail h = (refl, refl)
starts_with-same [] (t ∷ top) tail h = cc
starts_with-same (x ∷ a) [] tail h = cc
starts_with-same (x ∷ a) (t ∷ top) tail h = ground (arith, starts_with-same a top tail)

-- The converse of `matches_alias-first`.
matches_alias-same :
    (p : Partition) (top tail : Bytes)
    → Follows tail
    → equal_nocase (alias p) (b'/' ∷ top) ≡ true
    → matches_alias (b'/' ∷ (top ++ tail)) p ≡ true
unfolding matches_alias begins
matches_alias-same p top [] f h = rw (append-nil top, h)
matches_alias-same p top (c ∷ tail) f h =
    let (starts, rest) = starts_with-same (alias p) (b'/' ∷ top) (c ∷ tail) h in
    rw (starts, rest, f) (ground arith)

find_partition-none :
    (path : Bytes) (ps : List Partition)
    → find_partition path ps ≡ none
    → All (λ p. matches_alias path p ≡ false) ps
unfolding find_partition
find_partition-none path [] h = tt
find_partition-none path (q ∷ ps) h = elim (Bool-cases (matches_alias path q)) [
  | inl e ↦ ground arith
  | inr e ↦ (e, find_partition-none path ps (rw e at h))
]

every_row : (P : Partition → Type 0) → All P virtual_partitions → (p : Partition) → P p
every_row P h gcsda = h.0
every_row P h gcsdb = h.1.0
every_row P h sd = h.1.1.0
every_row P h usb = h.1.1.1.0
every_row P h dvd = h.1.1.1.1.0
every_row P h wod = h.1.1.1.1.1.0
every_row P h fst = h.1.1.1.1.1.1.0
every_row P h nand = h.1.1.1.1.1.1.1.0
every_row P h isfs = h.1.1.1.1.1.1.1.1.0
every_row P h otp = h.1.1.1.1.1.1.1.1.1.0
every_row P h seeprom = h.1.1.1.1.1.1.1.1.1.1.0

-- Where the loop finds no row, no device is the first name.
pub find_partition-absent :
    (top tail : Bytes)
    → Follows tail
    → find_partition (b'/' ∷ (top ++ tail)) virtual_partitions ≡ none
    → (p : Partition) → equal_nocase (alias p) (b'/' ∷ top) ≡ false
find_partition-absent top tail f h p = elim (Bool-cases (equal_nocase (alias p) (b'/' ∷ top))) [
  | inr differs ↦ differs
  | inl same ↦ absurd (
      true≢false (
        sym (matches_alias-same p top tail f same)
        ∙ every_row (λ p. matches_alias (b'/' ∷ (top ++ tail)) p ≡ false)
            (find_partition-none (b'/' ∷ (top ++ tail)) virtual_partitions h) p))
]
