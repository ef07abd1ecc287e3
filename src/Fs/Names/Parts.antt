-- ===== src/Fs/Names/Parts.antt =====
-- `dirname` and `basename` of source/fs.c on a path that is taken apart at its last slash.
use ftpii.Base.{
  ℕ, zero, suc, ◌+◌, ◌-◌, ◌<◌, ◌≤◌, ◌≡◌, ◌≢◌, refl, sym, ap, ◌∙◌, [], ◌∷◌, ◌++◌, none, some, arith,
  Bytes, get_elem?, get_elem?-append, Option-cases, inl, inr, length, length-append, take, drop,
}
use ftpii.Os.{Os}
use ftpii.Path.Components.{IsName}
use ftpii.Fs.Names.{last_slash, dirname, basename}

get_elem?-behind :
    (a : Bytes) (x : ℕ) (b : Bytes) (k : ℕ)
    → get_elem? (a ++ x ∷ b) (suc (length a + k)) ≡ get_elem? b k
get_elem?-behind [] x b k = ap (get_elem? b) (omega arith)
get_elem?-behind (c ∷ a) x b k =
    let e : suc (length a) + k ≡ suc (length a + k) = omega arith in rw e (get_elem?-behind a x b k)

get_elem?-IsName : (b : Bytes) (k c : ℕ) → IsName b → get_elem? b k ≡ some c → c ≢ b'/'
get_elem?-IsName [] k c h e = cc
get_elem?-IsName (x ∷ b) zero c h e = ground (arith)
get_elem?-IsName (x ∷ b) (suc k) c h e = get_elem?-IsName b k c h.1 e

-- One round that does not stop.
last_slash-suc :
    (i : ℕ) (path : Bytes)
    → ((c : ℕ) → get_elem? path i ≡ some c → c ≢ b'/')
    → last_slash (suc i) path ≡ last_slash i path
unfolding last_slash
last_slash-suc i path h = elim (Option-cases (get_elem? path i)) [
  | inl e ↦ rw (last_slash, e) refl
  | inr (c, e) ↦ rw (last_slash, e) (ground (arith, h c e))
]

last_slash-at :
    (i : ℕ) (path : Bytes) → get_elem? path i ≡ some b'/' → last_slash (suc i) path ≡ some i
unfolding last_slash
last_slash-at i path e = rw (last_slash, e) refl

last_slash-behind :
    (a b : Bytes) (k : ℕ)
    → IsName b
    → last_slash (suc (length a + k)) (a ++ b'/' ∷ b) ≡ some (length a)
last_slash-behind a b zero h =
    let e : length a + 0 ≡ length a = omega arith in
    rw e (last_slash-at (length a) (a ++ b'/' ∷ b) (get_elem?-append a b'/' b))
last_slash-behind a b (suc k) h =
    let e : length a + suc k ≡ suc (length a + k) = omega arith in
    rw e (
      last_slash-suc (suc (length a + k)) (a ++ b'/' ∷ b)
        (λ c f. get_elem?-IsName b k c h (sym (get_elem?-behind a b'/' b k) ∙ f))
      ∙ last_slash-behind a b k h)

last_slash-IsName : (b : Bytes) (k : ℕ) → IsName b → last_slash k b ≡ none
last_slash-IsName b zero h = unfold last_slash in refl
last_slash-IsName b (suc k) h =
    last_slash-suc k b (λ c e. get_elem?-IsName b k c h e) ∙ last_slash-IsName b k h

length-parts : (a b : Bytes) → length (a ++ b'/' ∷ b) ≡ suc (length a + length b)
length-parts a b = omega (arith, length-append a (b'/' ∷ b))

take_all : (s : Bytes) (n : ℕ) → length s ≤ n → take n s ≡ s
take_all [] zero h = refl
take_all [] (suc n) h = refl
take_all (c ∷ s) zero h = absurd (omega arith)
take_all (c ∷ s) (suc n) h = ap (◌∷◌ c) (take_all s n (omega arith))

take-left : (a b : Bytes) → take (length a) (a ++ b) ≡ a
take-left [] [] = refl
take-left [] (c ∷ b) = refl
take-left (x ∷ a) b = ap (◌∷◌ x) (take-left a b)

drop-left : (a b : Bytes) (x : ℕ) → drop (length a + 1) (a ++ x ∷ b) ≡ b
drop-left [] b x = refl
drop-left (y ∷ a) b x =
    let e : suc (length a) + 1 ≡ suc (length a + 1) = omega arith in rw e (drop-left a b x)

module _ ⦃os : Os⦄ where
  -- For a path that MAXPATHLEN bytes hold with its terminator and whose last name has no slash,
  -- `dirname` gives what stands before the last slash, and `basename` what stands behind it.
  pub dirname-basename :
      (a b : Bytes)
      → IsName b
      → length (a ++ b'/' ∷ b) < os.maxpathlen
      → (dirname (a ++ b'/' ∷ b) ≡ a) × (basename (a ++ b'/' ∷ b) ≡ b)
  unfolding dirname basename
  dirname-basename a b h fits =
      let slash : last_slash (length (a ++ b'/' ∷ b)) (a ++ b'/' ∷ b) ≡ some (length a) =
        rw (length-parts a b) (last_slash-behind a b (length b) h) in
      let whole = take_all (a ++ b'/' ∷ b) (os.maxpathlen - 1) (omega arith) in
      (
        rw (dirname, whole, slash) (rw whole (take-left a (b'/' ∷ b))),
        rw (basename, slash) (drop-left a b b'/'),
      )

  -- On a path without a slash the one gives nothing, and the other the whole.
  pub dirname-basename_none :
      (b : Bytes) → IsName b → length b < os.maxpathlen → (dirname b ≡ []) × (basename b ≡ b)
  unfolding dirname basename
  dirname-basename_none b h fits = (
    rw (dirname, take_all b (os.maxpathlen - 1) (omega arith), last_slash-IsName b (length b) h)
        refl,
    rw (basename, last_slash-IsName b (length b) h) refl,
  )
