-- ===== src/Path/Normal.antt =====
-- Normal paths, relative paths and lengths: what the rest of source/vrt.c relies on.
use ftpii.Base.{
  subst, ℕ, suc, ◌+◌, ◌≤◌, ◌≡◌, ◌≢◌, refl, sym, ap, ◌∙◌, false, List, [], ◌∷◌, ◌++◌, arith, Bytes,
  equal, length, All, All-append, append_assoc, append-nil, length-append, inl, inr, Bool-cases,
}
use native.Mathlib.Decide.{ℕ_discrete}
use ftpii.Path.Components.{IsName, enter, names, parent, render, split_from, follow, resolve}
use ftpii.Path.Correct.{IsText, normalise-render, split_from_slash, split_from_byte}
use ftpii.Path.Text.{render-IsText, resolve-IsText}
use ftpii.Path.{normalise}

-- A name that stands in a normal path: it is not empty, has no slash, and is neither `.` nor `..`.
pub record IsPlain (seg : Bytes) : Type 0 where
  pub is_name : IsName seg
  pub ne_nil : equal seg [] ≡ false
  pub ne_dot : equal seg (b'.' ∷ []) ≡ false
  pub ne_dotdot : equal seg (b'.' ∷ b'.' ∷ []) ≡ false

-- `cwd` as `vrt_chdir` writes it: the directory's names, and a slash behind them.
abbrev pub dir_path : List Bytes → Bytes
dir_path st = names st ++ b'/' ∷ []

parent-IsPlain : (st : List Bytes) → All IsPlain st → All IsPlain (parent st)
parent-IsPlain [] h = tt
parent-IsPlain (_ ∷ st) h = h.1

pub enter-IsPlain :
    (st : List Bytes) (seg : Bytes) → All IsPlain st → IsName seg → All IsPlain (enter st seg)
unfolding enter
enter-IsPlain st seg h n = elim (Bool-cases (equal seg [])) [
  | inl a ↦ rw a h
  | inr a ↦ elim (Bool-cases (equal seg (b'.' ∷ []))) [
    | inl b ↦ rw (a, b) h
    | inr b ↦ elim (Bool-cases (equal seg (b'.' ∷ b'.' ∷ []))) [
      | inl c ↦ rw (a, b, c) (parent-IsPlain st h)
      | inr c ↦ rw (a, b, c) (record { is_name = n; ne_nil = a; ne_dot = b; ne_dotdot = c }, h)
    ]
  ]
]

pub follow-IsPlain :
    (st segs : List Bytes) → All IsPlain st → All IsName segs → All IsPlain (follow st segs)
unfolding follow
follow-IsPlain st [] h n = h
follow-IsPlain st (seg ∷ segs) h n =
    follow-IsPlain (enter st seg) segs (enter-IsPlain st seg h n.0) n.1

pub split_from-IsName : (seg cs : Bytes) → IsName seg → All IsName (split_from seg cs)
unfolding split_from
split_from-IsName seg [] n = (n, tt)
split_from-IsName seg (c ∷ cs) n = elim (ℕ_discrete c b'/') [
  | yes e ↦ rw e (n, split_from-IsName [] cs tt)
  | no e ↦
      rw (split_from_byte c seg cs e)
        (split_from-IsName (seg ++ c ∷ []) cs (All-append (λ x. x ≢ b'/') seg (c ∷ []) n (e, tt)))
]

split_from-append :
    (seg xs ys : Bytes) → split_from seg (xs ++ b'/' ∷ ys) ≡ split_from seg xs ++ split_from [] ys
unfolding split_from
split_from-append seg [] ys = refl
split_from-append seg (c ∷ xs) ys =
    ground (arith, split_from-append [] xs ys, split_from-append (seg ++ c ∷ []) xs ys)

split_from-name : (seg cs : Bytes) → IsName cs → split_from seg cs ≡ (seg ++ cs) ∷ []
unfolding split_from
split_from-name seg [] n = rw append-nil
split_from-name seg (c ∷ cs) n =
    split_from_byte c seg cs n.0
    ∙ split_from-name (seg ++ c ∷ []) cs n.1
    ∙ ap (λ s. s ∷ []) (append_assoc seg (c ∷ []) cs)

follow-append : (st xs ys : List Bytes) → follow st (xs ++ ys) ≡ follow (follow st xs) ys
unfolding follow
follow-append st [] ys = refl
follow-append st (seg ∷ xs) ys = follow-append (enter st seg) xs ys

enter_plain : (st : List Bytes) (seg : Bytes) → IsPlain seg → enter st seg ≡ seg ∷ st
unfolding enter
enter_plain st seg h = rw (h.ne_nil, h.ne_dot, h.ne_dotdot)

follow_one :
    (st : List Bytes) (seg path : Bytes)
    → IsPlain seg
    → follow st (split_from [] (seg ++ b'/' ∷ path)) ≡ follow (seg ∷ st) (split_from [] path)
unfolding follow
follow_one st seg path h =
    rw (split_from-append [] seg path, split_from-name [] seg h.is_name)
      (ap (λ d. follow d (split_from [] path)) (enter_plain st seg h))

-- Behind the path of a directory the other names are followed from that directory.
resolve-dir_path :
    (st : List Bytes) (path : Bytes)
    → All IsPlain st
    → (rest : Bytes) × (dir_path st ++ path ≡ b'/' ∷ rest)
      × (resolve rest ≡ follow st (split_from [] path))
unfolding resolve
resolve-dir_path [] path h = (path, refl, refl)
resolve-dir_path (seg ∷ st) path h =
    let (rest, e, r) = resolve-dir_path st (seg ++ b'/' ∷ path) h.1 in
    (rest, (simp append_assoc) ∙ e, r ∙ follow_one st seg path h.0)

-- A path behind a current directory is followed from that directory.
pub normalise-dir_path :
    (st : List Bytes) (path : Bytes)
    → All IsPlain st
    → IsText (dir_path st ++ path)
    → normalise (dir_path st ++ path) ≡ render (follow st (split_from [] path))
normalise-dir_path st path h t =
    let (rest, e, r) = resolve-dir_path st path h in rw (e, normalise-render rest (rw e at t).1, r)

-- Wherever an absolute path leads, the names on the way there are plain.
pub resolve-IsPlain : (rest : Bytes) → All IsPlain (resolve rest)
unfolding resolve
resolve-IsPlain rest = follow-IsPlain [] (split_from [] rest) tt (split_from-IsName [] rest tt)

-- How long the path of the directory can get.
enter-length :
    (st : List Bytes) (seg : Bytes)
    → length (names (enter st seg)) ≤ length (names st) + (1 + length seg)
unfolding enter
enter-length [] seg = ground arith
enter-length (x ∷ st) seg =
    ground (arith, length-append (names st) (b'/' ∷ x), length-append (names (x ∷ st)) (b'/' ∷ seg))

pub follow-length :
    (st : List Bytes) (seg cs : Bytes)
    → length (names (follow st (split_from seg cs)))
      ≤ length (names st) + (1 + length seg + length cs)
unfolding follow
follow-length st seg [] = unfold split_from in omega (arith, enter-length st seg)
follow-length st seg (c ∷ cs) = elim (ℕ_discrete c b'/') [
  | yes e ↦
      rw (e, split_from_slash seg cs)
        (omega (arith, follow-length (enter st seg) [] cs, enter-length st seg))
  | no e ↦
      rw (split_from_byte c seg cs e)
        (omega (arith, follow-length st (seg ++ c ∷ []) cs, length-append seg (c ∷ [])))
]

length-render : (st : List Bytes) (n : ℕ) → length (names st) ≤ suc n → length (render st) ≤ suc n
length-render [] n h = omega arith
length-render (seg ∷ st) n h = h

-- Normalising never makes an absolute path that is a C string longer, so the buffer of `strlen(path) + 1` bytes holds
-- the result.
pub length-normalise :
    (rest : Bytes) → IsText rest → length (normalise (b'/' ∷ rest)) ≤ length (b'/' ∷ rest)
unfolding resolve
length-normalise rest t =
    rw (normalise-render rest t)
      (length-render (resolve rest) (length rest) (omega (arith, follow-length [] [] rest)))

follow_last :
    (st : List Bytes) (seg : Bytes) → IsPlain seg → follow st (split_from [] seg) ≡ seg ∷ st
unfolding follow
follow_last st seg h = rw (split_from-name [] seg h.is_name) (enter_plain st seg h)

pub resolve-render :
    (st : List Bytes)
    → All IsPlain st
    → (rest : Bytes) × (render st ≡ b'/' ∷ rest) × (resolve rest ≡ st)
unfolding resolve follow
resolve-render [] h = ([], refl, unfold split_from enter in refl)
resolve-render (seg ∷ st) h =
    let (rest, e, r) = resolve-dir_path st seg h.1 in
    (rest, sym (append_assoc (names st) (b'/' ∷ []) seg) ∙ e, r ∙ follow_last st seg h.0)

-- Where the absolute path `/rest` is a C string, normalising what it normalises to changes nothing.
pub normalise_idem :
    (rest : Bytes) → IsText rest → normalise (normalise (b'/' ∷ rest)) ≡ normalise (b'/' ∷ rest)
normalise_idem rest t =
    let (rest', e, r) = resolve-render (resolve rest) (resolve-IsPlain rest) in
    let n : normalise (b'/' ∷ rest) ≡ b'/' ∷ rest' = normalise-render rest t ∙ e in
    let u : IsText (b'/' ∷ rest') =
      subst IsText e (render-IsText (resolve rest) (resolve-IsText rest t)) in
    rw n (normalise-render rest' u.1 ∙ ap render r ∙ e)
