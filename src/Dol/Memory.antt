-- ===== src/Dol/Memory.antt =====
-- What memory holds after `load_dol_image` of source/dol.c.
use ftpii.Base.{
  All-left, All-right, ◌*◌, ◌^◌, ℕ, zero, suc, ◌+◌, ◌<◌, ◌≤◌, ◌≡◌, refl, sym, ap, subst, ◌∙◌, false,
  inl, inr, List, ◌∷◌, none, arith, Bool-cases, All,
}
use ftpii.Os.{Os}
use ftpii.World.{World, Out, call}
use ftpii.World.Triple.{Ensures, ended, Ensures-bind}
use ftpii.Dol.Sections.{
  Section, text_sections, data_sections, sections, Outside, Misses, Disjoint, IsLoaded, copied,
  copied-append, store_bytes_else, copied_else, copied-IsLoaded,
}
use ftpii.Dol.{
  Memory, pointer, header_word, text_pos, data_pos, text_start, data_start, text_size, data_size,
  entry_point, bytes_at, store_bytes, skipped, memmove, copy_text, copy_data, copy_argv, load_text,
  load_data, load_dol_image,
}

-- The image and its header are as they were before.
abbrev Same : ℕ → ℕ → Memory → Memory → Type 0
Same dol n m0 m = (i : ℕ) → i < n → m (dol + i) ≡ m0 (dol + i)

header_word-Same :
    (dol n i : ℕ) (m0 m : Memory)
    → i < 57
    → 228 ≤ n
    → Same dol n m0 m
    → header_word m dol i ≡ header_word m0 dol i
unfolding header_word
header_word-Same dol n i m0 m h k same =
    let a = same (4 * i) (omega arith) in
    let b = same (4 * i + 1) (omega arith) in
    let c = same (4 * i + 2) (omega arith) in
    let d = same (4 * i + 3) (omega arith) in omega (arith, a, b, c, d)

bytes_at-Same :
    (dol n : ℕ) (m0 m : Memory) (k size : ℕ)
    → k + size ≤ n
    → Same dol n m0 m
    → bytes_at m (dol + k) size ≡ bytes_at m0 (dol + k) size
unfolding bytes_at
bytes_at-Same dol n m0 m k zero h same = refl
bytes_at-Same dol n m0 m k (suc size) h same =
    let next : dol + k + 1 ≡ dol + (k + 1) = omega arith in
    rw (same k (omega arith), next)
      (ap (◌∷◌ (m0 (dol + k))) (bytes_at-Same dol n m0 m (k + 1) size (omega arith) same))

store_bytes-Same :
    (dol n : ℕ) (m0 m : Memory) (s : Section)
    → Misses dol n s
    → Same dol n m0 m
    → Same dol n m0 (store_bytes s.at (bytes_at m0 s.pos s.size) m)
store_bytes-Same dol n m0 m s (h, inl k) same i l =
    store_bytes_else m0 s.at s.pos s.size m (dol + i) (inr (omega arith)) ∙ same i l
store_bytes-Same dol n m0 m s (h, inr k) same i l =
    store_bytes_else m0 s.at s.pos s.size m (dol + i) (inl (omega arith)) ∙ same i l

-- A section that is not skipped has a byte.
not_empty : (size start : ℕ) → skipped size start ≡ false → 0 < size
not_empty size start h = ground arith

module _ ⦃os : Os⦄ where
  -- The action comes back, and memory is then as the sections make it, with the image as it was.
  abbrev Puts : ℕ → ℕ → Memory → Memory → List Section → Out Memory → Type 0
  Puts dol n m0 m ss o = Ensures o (λ r _. (r ≡ copied m0 ss m) × Same dol n m0 r)

  module _ (dol n : ℕ) (m0 : Memory) (header : 228 ≤ n) (below : dol + n ≤ 2 ^ 32) where
    -- What is copied of a section is as it was before.
    source-Same :
        (m : Memory) (pos size : ℕ)
        → Same dol n m0 m
        → 0 < size
        → dol + pos + size ≤ dol + n
        → bytes_at m (pointer (dol + pos)) size ≡ bytes_at m0 (dol + pos) size
    source-Same m pos size same h k =
        let e : pointer (dol + pos) ≡ dol + pos = omega arith in
        rw e (bytes_at-Same dol n m0 m pos size (omega arith) same)

    text-Puts :
        (k i : ℕ) (m : Memory) (w : World)
        → Same dol n m0 m
        → i + k ≤ 7
        → All (Misses dol n) (text_sections m0 dol i k)
        → Puts dol n m0 m (text_sections m0 dol i k) (load_text m dol i k w)
    unfolding load_text copy_text memmove call
    text-Puts zero i m w same h g = ended (refl, same)
    text-Puts (suc k) i m w same h g =
        let start = header_word-Same dol n (18 + i) m0 m (omega arith) header same in
        let size = header_word-Same dol n (36 + i) m0 m (omega arith) header same in
        let pos = header_word-Same dol n i m0 m (omega arith) header same in
        elim (Bool-cases (skipped (text_size m0 dol i) (text_start m0 dol i))) [
          | inl e ↦
              rw (copy_text, size, start, e)
                (text-Puts k (i + 1) m w same (omega arith) (rw e at g))
          | inr e ↦
              let g' = rw e at g in
              let s : Section = record {
                at = text_start m0 dol i;
                pos = dol + text_pos m0 dol i;
                size = text_size m0 dol i;
              } in
              rw
                (
                  copy_text,
                  memmove,
                  call,
                  size,
                  start,
                  e,
                  pos,
                  source-Same m (text_pos m0 dol i) (text_size m0 dol i) same
                      (not_empty (text_size m0 dol i) (text_start m0 dol i) e) g'.0.0,
                )
                (text-Puts k (i + 1) (store_bytes s.at (bytes_at m0 s.pos s.size) m) _
                  (store_bytes-Same dol n m0 m s g'.0 same) (omega arith) g'.1)
        ]

    data-Puts :
        (k i : ℕ) (m : Memory) (w : World)
        → Same dol n m0 m
        → i + k ≤ 11
        → All (Misses dol n) (data_sections m0 dol i k)
        → Puts dol n m0 m (data_sections m0 dol i k) (load_data m dol i k w)
    unfolding load_data copy_data memmove call
    data-Puts zero i m w same h g = ended (refl, same)
    data-Puts (suc k) i m w same h g =
        let start = header_word-Same dol n (25 + i) m0 m (omega arith) header same in
        let size = header_word-Same dol n (43 + i) m0 m (omega arith) header same in
        let pos = header_word-Same dol n (7 + i) m0 m (omega arith) header same in
        elim (Bool-cases (skipped (data_size m0 dol i) (data_start m0 dol i))) [
          | inl e ↦
              rw (copy_data, size, start, e)
                (data-Puts k (i + 1) m w same (omega arith) (rw e at g))
          | inr e ↦
              let g' = rw e at g in
              let s : Section = record {
                at = data_start m0 dol i;
                pos = dol + data_pos m0 dol i;
                size = data_size m0 dol i;
              } in
              rw
                (
                  copy_data,
                  memmove,
                  call,
                  size,
                  start,
                  e,
                  pos,
                  source-Same m (data_pos m0 dol i) (data_size m0 dol i) same
                      (not_empty (data_size m0 dol i) (data_start m0 dol i) e) g'.0.0,
                )
                (data-Puts k (i + 1) (store_bytes s.at (bytes_at m0 s.pos s.size) m) _
                  (store_bytes-Same dol n m0 m s g'.0 same) (omega arith) g'.1)
        ]

  -- Let `n` bytes at `dol` hold an image, with its header of 228 bytes, below the end of the address space.
  -- Let each of its seven text and eleven data sections that is not empty, nor for the first 256 bytes of
  -- memory, be taken from within the image, and go to a place that neither meets the image nor another
  -- such section. Then `load_dol_image` without arguments always comes back with the entry point; each
  -- of these sections is in memory as it was in the image, and memory outside of them is as it was.
  pub load_dol_image-IsLoaded :
      (dol n : ℕ) (m : Memory) (w : World)
      → 228 ≤ n
      → dol + n ≤ 2 ^ 32
      → All (Misses dol n) (sections m dol)
      → Disjoint (sections m dol)
      → Ensures (load_dol_image m dol none w) (λ r _.
        (r.0 ≡ entry_point m dol)
        × All (IsLoaded m r.1) (sections m dol)
        × ((i : ℕ) → All (Outside i) (sections m dol) → r.1 i ≡ m i))
  unfolding load_dol_image copy_argv
  load_dol_image-IsLoaded dol n m w header below g d =
      let ts = text_sections m dol 0 7 in
      let ds = data_sections m dol 0 11 in
      Ensures-bind
        (text-Puts dol n m header below 7 0 m w (λ i h. refl) (omega arith)
          (All-left (Misses dol n) ts ds g))
        λ texts w1 (t, same).
          Ensures-bind
            (data-Puts dol n m header below 11 0 texts w1 same (omega arith)
              (All-right (Misses dol n) ts ds g))
            λ all w2 (u, same').
              let both : all ≡ copied m (sections m dol) m =
                u ∙ ap (copied m ds) t ∙ sym (copied-append m ts ds m) in
              ended (
                header_word-Same dol n 56 m all (omega arith) header same',
                subst (λ f. All (IsLoaded m f) (sections m dol)) (sym both)
                    (copied-IsLoaded m (sections m dol) m d),
                λ i h. ap (λ (f : Memory). f i) both ∙ copied_else m (sections m dol) m i h,
              )
