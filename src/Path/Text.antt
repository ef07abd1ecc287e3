-- ===== src/Path/Text.antt =====
-- Paths are C strings: no operation on them brings in a byte 0.
use ftpii.Base.{◌≢◌, List, [], ◌∷◌, ◌++◌, All, All-append, All-right, All-left, Bytes, arith}
use ftpii.Path.Components.{enter, names, render, split_from, follow, resolve, parent}
use ftpii.Path.Correct.{IsText}

parent-IsText : (st : List Bytes) → All IsText st → All IsText (parent st)
parent-IsText [] h = tt
parent-IsText (_ ∷ st) h = h.1

enter-IsText :
    (st : List Bytes) (seg : Bytes) → All IsText st → IsText seg → All IsText (enter st seg)
unfolding enter
enter-IsText st seg h t = ground (arith, parent-IsText st h)

follow-IsText :
    (st segs : List Bytes) → All IsText st → All IsText segs → All IsText (follow st segs)
unfolding follow
follow-IsText st [] h t = h
follow-IsText st (seg ∷ segs) h t =
    follow-IsText (enter st seg) segs (enter-IsText st seg h t.0) t.1

split_from-IsText : (seg cs : Bytes) → IsText seg → IsText cs → All IsText (split_from seg cs)
unfolding split_from
split_from-IsText seg [] h t = (h, tt)
split_from-IsText seg (c ∷ cs) h t = ground (
  arith,
  split_from-IsText [] cs tt t.1,
  split_from-IsText (seg ++ c ∷ []) cs (All-append (λ x. x ≢ 0) seg (c ∷ []) h (t.0, tt)) t.1,
)

pub names-IsText : (st : List Bytes) → All IsText st → IsText (names st)
names-IsText [] h = tt
names-IsText (seg ∷ st) h =
    All-append (λ x. x ≢ 0) (names st) (b'/' ∷ seg) (names-IsText st h.1) (ground arith, h.0)

pub render-IsText : (st : List Bytes) → All IsText st → IsText (render st)
render-IsText [] h = ground arith
render-IsText (seg ∷ st) h = names-IsText (seg ∷ st) h

pub IsText-names : (st : List Bytes) → IsText (names st) → All IsText st
IsText-names [] t = tt
IsText-names (seg ∷ st) t = (
  (All-right (λ x. x ≢ 0) (names st) (b'/' ∷ seg) t).1,
  IsText-names st (All-left (λ x. x ≢ 0) (names st) (b'/' ∷ seg) t),
)

-- Followed from a directory of such names, or from the root.
pub follow_split-IsText :
    (st : List Bytes) (path : Bytes)
    → All IsText st
    → IsText path
    → All IsText (follow st (split_from [] path))
follow_split-IsText st path h t =
    follow-IsText st (split_from [] path) h (split_from-IsText [] path tt t)

pub resolve-IsText : (rest : Bytes) → IsText rest → All IsText (resolve rest)
unfolding resolve
resolve-IsText rest t = follow_split-IsText [] rest tt t
