-- ===== src/Dol/Sections.antt =====
-- The sections of an image, source/dol.c, and what copying them one after the other does to memory.
use ftpii.Base.{
  ℕ, zero, suc, ◌+◌, ◌<◌, ◌≤◌, ◌≡◌, refl, ap, ◌∙◌, true, false, inl, inr, ◌⊎◌, List, [], ◌∷◌, ◌++◌,
  arith, ◌==◌, if◌then◌else◌, All,
}
use ftpii.Dol.{
  Memory, text_pos, data_pos, text_start, data_start, text_size, data_size, bytes_at, store_bytes,
  skipped,
}

-- A section of the image, and where it goes.
pub record Section : Type 0 where
  pub at : ℕ
  pub pos : ℕ
  pub size : ℕ

-- The sections that are loaded, of `n` from `i` on, by the header at `dol`.
abbrev pub text_sections : Memory → ℕ → ℕ → ℕ → List Section
text_sections m dol i zero = []
text_sections m dol i (suc n) =
    let rest = text_sections m dol (i + 1) n in
    if skipped (text_size m dol i) (text_start m dol i)
    then rest
    else record { at = text_start m dol i; pos = dol + text_pos m dol i; size = text_size m dol i }
      ∷ rest

abbrev pub data_sections : Memory → ℕ → ℕ → ℕ → List Section
data_sections m dol i zero = []
data_sections m dol i (suc n) =
    let rest = data_sections m dol (i + 1) n in
    if skipped (data_size m dol i) (data_start m dol i)
    then rest
    else record { at = data_start m dol i; pos = dol + data_pos m dol i; size = data_size m dol i }
      ∷ rest

abbrev pub sections : Memory → ℕ → List Section
sections m dol = text_sections m dol 0 7 ++ data_sections m dol 0 11

-- The address is none of the section's.
abbrev pub Outside : ℕ → Section → Type 0
Outside i s = (i < s.at) ⊎ (s.at + s.size ≤ i)

-- No two sections of the list overlap.
abbrev pub Disjoint : List Section → Type 0
Disjoint [] = Unit
Disjoint (s ∷ ss) =
    All (λ (t : Section). (s.at + s.size ≤ t.at) ⊎ (t.at + t.size ≤ s.at)) ss × Disjoint ss

-- The section is taken from the `n` bytes of the image at `dol`, and goes elsewhere.
abbrev pub Misses : ℕ → ℕ → Section → Type 0
Misses dol n s = (s.pos + s.size ≤ dol + n) × ((s.at + s.size ≤ dol) ⊎ (dol + n ≤ s.at))

-- The section is in memory as it was in the image.
abbrev pub IsLoaded : Memory → Memory → Section → Type 0
IsLoaded image m s = (j : ℕ) → j < s.size → m (s.at + j) ≡ image (s.pos + j)

-- The sections copied in their order.
abbrev pub copied : Memory → List Section → (ℕ → ℕ) → ℕ → ℕ
copied image [] m = m
copied image (s ∷ ss) m = copied image ss (store_bytes s.at (bytes_at image s.pos s.size) m)

pub copied-append :
    (image : Memory) (xs ys : List Section) (m : ℕ → ℕ)
    → copied image (xs ++ ys) m ≡ copied image ys (copied image xs m)
copied-append image [] ys m = refl
copied-append image (x ∷ xs) ys m =
    copied-append image xs ys (store_bytes x.at (bytes_at image x.pos x.size) m)

pub store_bytes_else :
    (image : Memory) (at pos size : ℕ) (m : ℕ → ℕ) (i : ℕ)
    → (i < at) ⊎ (at + size ≤ i)
    → store_bytes at (bytes_at image pos size) m i ≡ m i
unfolding bytes_at
store_bytes_else image at pos zero m i h = refl
store_bytes_else image at pos (suc n) m i (inl h) =
    let e : (at == i) ≡ false = ground arith in
    rw e (store_bytes_else image (at + 1) (pos + 1) n m i (inl (omega arith)))
store_bytes_else image at pos (suc n) m i (inr h) =
    let e : (at == i) ≡ false = ground arith in
    rw e (store_bytes_else image (at + 1) (pos + 1) n m i (inr (omega arith)))

store_bytes_there :
    (image : Memory) (at pos size : ℕ) (m : ℕ → ℕ) (i j : ℕ)
    → i ≡ at + j
    → j < size
    → store_bytes at (bytes_at image pos size) m i ≡ image (pos + j)
unfolding bytes_at
store_bytes_there image at pos zero m i j e h = absurd (omega arith)
store_bytes_there image at pos (suc n) m i zero e h =
    let same : (at == i) ≡ true = ground arith in rw same (ap image (omega arith))
store_bytes_there image at pos (suc n) m i (suc j) e h =
    let other : (at == i) ≡ false = ground arith in
    rw other (
      store_bytes_there image (at + 1) (pos + 1) n m i j (omega arith) (omega arith)
      ∙ ap image (omega arith))

pub copied_else :
    (image : Memory) (ss : List Section) (m : ℕ → ℕ) (i : ℕ)
    → All (Outside i) ss
    → copied image ss m i ≡ m i
copied_else image [] m i h = refl
copied_else image (s ∷ ss) m i h =
    copied_else image ss (store_bytes s.at (bytes_at image s.pos s.size) m) i h.1
    ∙ store_bytes_else image s.at s.pos s.size m i h.0

apart-Outside :
    (s : Section) (j : ℕ) (ss : List Section)
    → j < s.size
    → All (λ (t : Section). (s.at + s.size ≤ t.at) ⊎ (t.at + t.size ≤ s.at)) ss
    → All (Outside (s.at + j)) ss
apart-Outside s j [] h k = tt
apart-Outside s j (t ∷ ts) h (inl a, k) = (inl (omega arith), apart-Outside s j ts h k)
apart-Outside s j (t ∷ ts) h (inr a, k) = (inr (omega arith), apart-Outside s j ts h k)

pub copied-IsLoaded :
    (image : Memory) (ss : List Section) (m : ℕ → ℕ)
    → Disjoint ss
    → All (IsLoaded image (copied image ss m)) ss
copied-IsLoaded image [] m d = tt
copied-IsLoaded image (s ∷ ss) m d = (
  λ j h.
      copied_else image ss (store_bytes s.at (bytes_at image s.pos s.size) m) (s.at + j)
        (apart-Outside s j ss h d.0)
      ∙ store_bytes_there image s.at s.pos s.size m (s.at + j) j refl h,
  copied-IsLoaded image ss (store_bytes s.at (bytes_at image s.pos s.size) m) d.1,
)
