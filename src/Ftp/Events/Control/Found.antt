-- ===== src/Ftp/Events/Control/Found.antt =====
-- What `strstr(next, CRLF)` finds, source/ftp.c.
use ftpii.Base.{
  ℕ, ◌≤◌, ◌≡◌, ◌≢◌, ap, false, ◌&&◌, [], ◌∷◌, ◌++◌, Option, none, some, arith, Bytes, ◌==◌, length,
  inl, inr, Bool-cases,
}
use ftpii.Ftp.Events.Control.Lines.{find_crlf, onto_line}

abbrev crlf_between : Bytes → Bytes → Bytes
crlf_between line rest = line ++ b'\r' ∷ b'\n' ∷ rest

-- The line ends at a CR LF of the text, and no line of the text is shorter; or the text has no CR LF.
abbrev pub Finds : Bytes → Option (Bytes × Bytes) → Type 0
Finds s none = (l r : Bytes) → s ≢ l ++ b'\r' ∷ b'\n' ∷ r
Finds s (some (line, rest)) =
    (s ≡ line ++ b'\r' ∷ b'\n' ∷ rest)
    × ((l r : Bytes) → s ≡ l ++ b'\r' ∷ b'\n' ∷ r → length line ≤ length l)

no_crlf-nil : (l r : Bytes) → [] ≢ l ++ b'\r' ∷ b'\n' ∷ r
no_crlf-nil [] r e = cc
no_crlf-nil (x ∷ l) r e = cc

no_crlf-single : (c : ℕ) (l r : Bytes) → c ∷ [] ≢ l ++ b'\r' ∷ b'\n' ∷ r
no_crlf-single c [] r e = cc
no_crlf-single c (x ∷ l) r e = no_crlf-nil l r (cc)

onto-no_crlf :
    (c d : ℕ) (s : Bytes)
    → (c == b'\r' && d == b'\n') ≡ false
    → ((l r : Bytes) → d ∷ s ≢ l ++ b'\r' ∷ b'\n' ∷ r)
    → (l r : Bytes) → c ∷ d ∷ s ≢ l ++ b'\r' ∷ b'\n' ∷ r
onto-no_crlf c d s n h [] r e = ground arith
onto-no_crlf c d s n h (x ∷ l) r e = h l r (cc)

onto-shortest :
    (c d : ℕ) (s line : Bytes)
    → (c == b'\r' && d == b'\n') ≡ false
    → ((l r : Bytes) → d ∷ s ≡ l ++ b'\r' ∷ b'\n' ∷ r → length line ≤ length l)
    → (l r : Bytes) → c ∷ d ∷ s ≡ l ++ b'\r' ∷ b'\n' ∷ r
    → length (c ∷ line) ≤ length l
onto-shortest c d s line n h [] r e = ground arith
onto-shortest c d s line n h (x ∷ l) r e =
    let k : d ∷ s ≡ l ++ b'\r' ∷ b'\n' ∷ r = cc in omega (arith, h l r k)

Finds-onto :
    (c d : ℕ) (s : Bytes) (o : Option (Bytes × Bytes))
    → (c == b'\r' && d == b'\n') ≡ false
    → Finds (d ∷ s) o
    → Finds (c ∷ d ∷ s) (onto_line c o)
unfolding onto_line
Finds-onto c d s none n h = onto-no_crlf c d s n h
Finds-onto c d s (some (line, rest)) n h = (ap (◌∷◌ c) h.0, onto-shortest c d s line n h.1)

-- The line that `process_control_events` takes ends at the first CR LF of the text, and there is none
-- exactly where the text has no CR LF.
pub find_crlf-Finds : (s : Bytes) → Finds s (find_crlf s)
unfolding find_crlf
find_crlf-Finds [] = no_crlf-nil
find_crlf-Finds (c ∷ []) = no_crlf-single c
find_crlf-Finds (c ∷ d ∷ s) = elim (Bool-cases (c == b'\r' && d == b'\n')) [
  | inl found ↦ rw found (ground arith, λ l r e. omega arith)
  | inr other ↦ rw other (Finds-onto c d s (find_crlf (d ∷ s)) other (find_crlf-Finds (d ∷ s)))
]
