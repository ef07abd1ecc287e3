-- ===== src/Ftp/Events/Control/Cut.antt =====
-- The lines of the buffer of `process_control_events`, source/ftp.c, and what stands behind them.
use ftpii.Base.{
  ℕ, ◌<◌, ◌≡◌, refl, ap, ◌∙◌, inl, inr, true, false, ◌&&◌, List, [], ◌∷◌, ◌++◌, Option, none, some,
  arith, Bytes, ◌==◌, Bool-cases, length,
}
use ftpii.Ftp.Events.Control.Lines.{find_crlf, onto_line}

-- The lines of a text, each up to its CR LF, and what stands behind the last of them.
abbrev pub onto : ℕ → List Bytes × Bytes → List Bytes × Bytes
onto c ([], rest) = ([], c ∷ rest)
onto c (line ∷ lines, rest) = ((c ∷ line) ∷ lines, rest)

pub cut : Bytes → List Bytes × Bytes
cut [] = ([], [])
cut (c ∷ []) = ([], c ∷ [])
cut (c ∷ d ∷ s) = elim (c == b'\r' && d == b'\n') [
  | true ↦ ([] ∷ (cut s).0, (cut s).1)
  | false ↦ onto c (cut (d ∷ s))
]

-- The text that lines and what stands behind them are of.
abbrev pub glue : List Bytes → Bytes → Bytes
glue [] rest = rest
glue (line ∷ lines) rest = line ++ b'\r' ∷ b'\n' ∷ glue lines rest

glue-onto : (c : ℕ) (t : List Bytes × Bytes) → glue (onto c t).0 (onto c t).1 ≡ c ∷ glue t.0 t.1
glue-onto c ([], rest) = refl
glue-onto c (line ∷ lines, rest) = refl

pub glue-cut : (s : Bytes) → glue (cut s).0 (cut s).1 ≡ s
unfolding cut
glue-cut [] = refl
glue-cut (c ∷ []) = refl
glue-cut (c ∷ d ∷ s) = elim (Bool-cases (c == b'\r' && d == b'\n')) [
  | inl e ↦ rw (e, cut) (ground (arith, glue-cut s))
  | inr n ↦ rw (n, cut) (glue-onto c (cut (d ∷ s)) ∙ ap (◌∷◌ c) (glue-cut (d ∷ s)))
]

-- The first line as `find_crlf` finds it.
abbrev pub First : Bytes → Option (Bytes × Bytes) → Type 0
First s none = cut s ≡ ([], s)
First s (some (line, rest)) =
    (cut s ≡ (line ∷ (cut rest).0, (cut rest).1))
    × (length rest < length s)
    × ((t : Bytes) → find_crlf (s ++ t) ≡ some (line, rest ++ t))

First-onto :
    (c d : ℕ) (s : Bytes) (o : Option (Bytes × Bytes))
    → (c == b'\r' && d == b'\n') ≡ false
    → First (d ∷ s) o
    → First (c ∷ d ∷ s) (onto_line c o)
unfolding onto_line cut find_crlf
First-onto c d s none n h = rw (n, cut) (ap (onto c) h)
First-onto c d s (some (line, rest)) n h = (
  rw (n, cut) (ap (onto c) h.0),
  omega (arith, h.1),
  λ t. rw (n, find_crlf) (ap (onto_line c) (h.2 t)),
)

pub find_crlf-First : (s : Bytes) → First s (find_crlf s)
unfolding find_crlf cut
find_crlf-First [] = refl
find_crlf-First (c ∷ []) = refl
find_crlf-First (c ∷ d ∷ s) = elim (Bool-cases (c == b'\r' && d == b'\n')) [
  | inl found ↦
      rw (found, find_crlf) (rw (found, cut) refl, omega arith, λ t. rw (found, find_crlf) refl)
  | inr other ↦
      rw (other, find_crlf) (First-onto c d s (find_crlf (d ∷ s)) other (find_crlf-First (d ∷ s)))
]
