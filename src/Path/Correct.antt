-- ===== src/Path/Correct.antt =====
-- The one-pass normaliser of source/vrt.c against the directory that a path's names lead to.
use ftpii.Base.{
  ℕ, ◌<◌, ◌≡◌, ◌≢◌, refl, ap, ◌∙◌, List, [], ◌∷◌, ◌++◌, arith, Bytes, equal, length, All,
  All-append, append_assoc, length-append_one, split_last, get_elem?-append, length-append,
  take-append, inl, inr,
}
use native.Mathlib.Decide.{ℕ_discrete}
use ftpii.Path.Components.{IsName, enter, names, render, split_from, follow, resolve}
use ftpii.Path.Steps.{holding, step_byte, step_slash, last_switch}
use ftpii.Path.{Machine, scan, strip, normalise}

-- A C string has no byte 0 in it.
abbrev pub IsText : Bytes → Type 0
IsText = All (λ c. c ≢ 0)

-- A name that a path can hold.
abbrev pub IsProper : Bytes → Type 0
IsProper seg = IsName seg × (seg ≢ [])

names_of_proper : (st : List Bytes) → All IsProper st → All IsName st
names_of_proper [] h = tt
names_of_proper (seg ∷ st) h = (h.0.0, names_of_proper st h.1)

pub enter-IsProper :
    (st : List Bytes) (seg : Bytes) → All IsProper st → IsName seg → All IsProper (enter st seg)
unfolding enter equal
enter-IsProper [] [] h n = ground arith
enter-IsProper (x ∷ st) [] h n = ground arith
enter-IsProper [] (c ∷ seg) h n = ground arith
enter-IsProper (x ∷ st) (c ∷ seg) h n = ground arith

-- No slash stands at the end: nothing is dropped.
strip-ne :
    (path : Bytes) (c : ℕ)
    → c ≢ b'/'
    → strip (length (path ++ c ∷ [])) (path ++ c ∷ []) ≡ path ++ c ∷ []
unfolding strip
strip-ne path c h = rw (length-append_one path c) (ground (arith, get_elem?-append path c []))

-- A slash at the end is dropped, unless the path is that slash.
strip-slash :
    (path : Bytes)
    → 0 < length path
    → strip (length (path ++ b'/' ∷ [])) (path ++ b'/' ∷ []) ≡ strip (length path) path
unfolding strip
strip-slash path h =
    rw (length-append_one path b'/')
      (ground (arith, get_elem?-append path b'/' [], take-append path (b'/' ∷ [])))

strip-names :
    (seg : Bytes) (st : List Bytes)
    → IsProper seg
    → strip (length (names (seg ∷ st))) (names (seg ∷ st)) ≡ names (seg ∷ st)
strip-names [] st h = absurd (h.1 refl)
strip-names (c ∷ seg) st h =
    let (init, d, e, n) = split_last (λ x. x ≢ b'/') c seg h.0 in
    rw (e, ← append_assoc (names st) (b'/' ∷ init) (d ∷ []))
      (strip-ne (names st ++ b'/' ∷ init) d n)

strip_dir :
    (st : List Bytes)
    → All IsProper st
    → let path = names st ++ b'/' ∷ [] in strip (length path) path ≡ render st
strip_dir [] h = unfold strip in refl
strip_dir (seg ∷ st) h =
    strip-slash (names (seg ∷ st)) (omega (arith, length-append (names st) (b'/' ∷ seg)))
    ∙ strip-names seg st h.0

-- The end of the scan, and the loop behind it.
finish :
    (st : List Bytes) (seg : Bytes)
    → All IsProper st
    → IsName seg
    → let m = scan [] (holding st seg) in
      strip (length m.normalised_path) m.normalised_path ≡ render (enter st seg)
finish st seg h n = elim (last_switch st seg (names_of_proper st h)) [
  | inl e ↦ unfold scan in rw e (strip_dir (enter st seg) (enter-IsProper st seg h n))
  | inr (ne, e, p) ↦ unfold scan in rw (p, e) (strip-names seg st (n, ne))
]

scan_slash :
    (cs : Bytes) (st : List Bytes) (seg : Bytes)
    → All IsProper st
    → scan (b'/' ∷ cs) (holding st seg) ≡ scan cs (holding (enter st seg) [])
unfolding scan
scan_slash cs st seg h = ap (scan cs) (step_slash st seg (names_of_proper st h))

scan_byte :
    (c : ℕ) (cs : Bytes) (st : List Bytes) (seg : Bytes)
    → c ≢ b'/'
    → c ≢ 0
    → scan (c ∷ cs) (holding st seg) ≡ scan cs (holding st (seg ++ c ∷ []))
unfolding scan
scan_byte c cs st seg h z = ap (scan cs) (step_byte st seg c h z)

pub split_from_slash : (seg cs : Bytes) → split_from seg (b'/' ∷ cs) ≡ seg ∷ split_from [] cs
unfolding split_from
split_from_slash seg cs = refl

pub split_from_byte :
    (c : ℕ) (seg cs : Bytes) → c ≢ b'/' → split_from seg (c ∷ cs) ≡ split_from (seg ++ c ∷ []) cs
unfolding split_from
split_from_byte c seg cs h = ground arith

abbrev stripped : Machine → Bytes
stripped m = strip (length m.normalised_path) m.normalised_path

scan-holding :
    (cs : Bytes) (st : List Bytes) (seg : Bytes)
    → IsText cs
    → All IsProper st
    → IsName seg
    → stripped (scan cs (holding st seg)) ≡ render (follow st (split_from seg cs))
scan-holding [] st seg t h n = unfold follow split_from in finish st seg h n
scan-holding (c ∷ cs) st seg t h n = elim (ℕ_discrete c b'/') [
  | yes e ↦
      rw (e, scan_slash cs st seg h, split_from_slash seg cs)
        (scan-holding cs (enter st seg) [] t.1 (enter-IsProper st seg h n) tt
          ∙ unfold follow in refl)
  | no e ↦
      rw (scan_byte c cs st seg e t.0, split_from_byte c seg cs e)
        (scan-holding cs st (seg ++ c ∷ []) t.1 h
          (All-append (λ x. x ≢ b'/') seg (c ∷ []) n (e, tt)))
]

-- The normaliser of `virtual_abspath` turns an absolute path that is a C string into the path of the directory that its names lead to
-- from the root: an empty name and `.` stay, `..` goes to the parent, and the root is its own
-- parent.
pub normalise-render :
    (rest : Bytes) → IsText rest → normalise (b'/' ∷ rest) ≡ render (resolve rest)
unfolding normalise resolve scan
normalise-render rest t = scan-holding rest [] [] t tt tt

follow-IsProper :
    (st : List Bytes) (segs : List Bytes)
    → All IsProper st
    → All IsName segs
    → All IsProper (follow st segs)
unfolding follow
follow-IsProper st [] h n = h
follow-IsProper st (seg ∷ segs) h n =
    follow-IsProper (enter st seg) segs (enter-IsProper st seg h n.0) n.1
