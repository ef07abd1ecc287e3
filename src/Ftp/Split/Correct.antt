-- ===== src/Ftp/Split/Correct.antt =====
-- The loop of `split`, source/ftp.c, against the fields of a line.
use ftpii.Base.{
  ℕ, zero, suc, ◌+◌, ◌≤◌, ◌<◌, ◌≡◌, ◌≢◌, refl, sym, ap, ◌∙◌, true, false, List, [], ◌∷◌, ◌++◌,
  arith, ◌==◌, ==-refl, if◌then◌else◌, Bytes, length, take, length-append, take-append,
  append_assoc, append-nil,
}
use native.Mathlib.Decide.{ℕ_discrete}
use mathlib.Core.List.{reverse, reverse-cons}
use ftpii.Ftp.Split.Fields.{skip, word, behind, trim_right, fields_at, fields}
use ftpii.Ftp.Split.{Splitting, keep, split_step, split_loop, trim, split}

suc-ne-zero : (n : ℕ) → (suc n == 0) ≡ false
suc-ne-zero n = ground arith

trim_right-append_sep : (sep : ℕ) (h : Bytes) → trim_right sep (h ++ sep ∷ []) ≡ trim_right sep h
unfolding trim_right
trim_right-append_sep sep [] = ground arith
trim_right-append_sep sep (c ∷ h) = rw (trim_right-append_sep sep h)

trim_right-append_ne :
    (sep : ℕ) (h : Bytes) (c : ℕ) → c ≢ sep → trim_right sep (h ++ c ∷ []) ≡ h ++ c ∷ []
unfolding trim_right
trim_right-append_ne sep [] c n = ground arith
trim_right-append_ne sep (x ∷ []) c n = ground arith
trim_right-append_ne sep (x ∷ y ∷ h) c n = rw (trim_right-append_ne sep (y ∷ h) c n)

abbrev cut : ℕ → Bytes → Bytes
cut zero h = h
cut (suc n) h = take (suc n) h

trim-cut : (n : ℕ) (h : Bytes) (ss : List Bytes) → trim n (h ∷ ss) ≡ cut n h ∷ ss
trim-cut zero h ss = refl
trim-cut (suc n) h ss = refl

-- In the last field: `trim_pos` is 0, or where the separators at the end of the field begin.
record Trims (sep : ℕ) (h : Bytes) (n : ℕ) : Type 0 where
  begun : 0 < length h
  inside : n ≤ length h
  ready : cut n h ≡ trim_right sep h

take-append_inside : (n : ℕ) (h : Bytes) (c : ℕ) → n ≤ length h → take n (h ++ c ∷ []) ≡ take n h
take-append_inside zero h c le = refl
take-append_inside (suc n) [] c le = absurd (omega arith)
take-append_inside (suc n) (x ∷ h) c le = ap (◌∷◌ x) (take-append_inside n h c (omega arith))

Trims-sep :
    (sep : ℕ) (h : Bytes) (n : ℕ)
    → Trims sep h n
    → Trims sep (h ++ sep ∷ []) (if n == 0 then length h else n)
Trims-sep sep [] n t = absurd (omega (arith, t.begun))
Trims-sep sep (x ∷ h) zero t = record {
  begun = omega arith;
  inside = omega (arith, length-append h (sep ∷ []));
  ready = take-append (x ∷ h) (sep ∷ []) ∙ t.ready ∙ sym (trim_right-append_sep sep (x ∷ h));
}
Trims-sep sep (x ∷ h) (suc n) t = rw (suc-ne-zero n) (record {
  begun = omega arith;
  inside = omega (arith, t.inside, length-append h (sep ∷ []));
  ready =
      take-append_inside (suc n) (x ∷ h) sep t.inside
      ∙ t.ready
      ∙ sym (trim_right-append_sep sep (x ∷ h));
})

Trims-ne : (sep : ℕ) (h : Bytes) (c : ℕ) → c ≢ sep → Trims sep (h ++ c ∷ []) 0
Trims-ne sep h c n = record {
  begun = omega (arith, length-append h (c ∷ []));
  inside = omega arith;
  ready = sym (trim_right-append_ne sep h c n);
}

abbrev reading : List Bytes → ℕ → Splitting
reading ss n = record { result = ss; trim_pos = n; in_word = true }

abbrev between : List Bytes → Splitting
between ss = record { result = ss; trim_pos = 0; in_word = false }

abbrev strings : Splitting → List Bytes
strings t = trim t.trim_pos t.result

module _ (sep maxsplit : ℕ) where
  last_sep :
      (h : Bytes) (ss : List Bytes) (n : ℕ)
      → length ss ≡ maxsplit
      → split_step sep maxsplit sep (reading (h ∷ ss) n)
        ≡ reading ((h ++ sep ∷ []) ∷ ss) (if n == 0 then length h else n)
  unfolding split_step keep
  last_sep h ss n l = ground arith

  last_byte :
      (c : ℕ) (h : Bytes) (ss : List Bytes) (n : ℕ)
      → c ≢ sep
      → split_step sep maxsplit c (reading (h ∷ ss) n) ≡ reading ((h ++ c ∷ []) ∷ ss) 0
  unfolding split_step keep
  last_byte c h ss n ne = ground arith

  word_sep :
      (w : Bytes) (ss : List Bytes)
      → length ss < maxsplit
      → split_step sep maxsplit sep (reading (w ∷ ss) 0) ≡ between (w ∷ ss)
  unfolding split_step keep
  word_sep w ss l = ground arith

  between_sep :
      (ss : List Bytes)
      → length ss ≤ maxsplit
      → split_step sep maxsplit sep (between ss) ≡ between ss
  unfolding split_step keep
  between_sep ss l = ground arith

  between_byte :
      (c : ℕ) (ss : List Bytes)
      → c ≢ sep
      → length ss ≤ maxsplit
      → split_step sep maxsplit c (between ss) ≡ reading ((c ∷ []) ∷ ss) 0
  unfolding split_step keep
  between_byte c ss ne l = ground arith

loop_step :
    (sep maxsplit c : ℕ) (s : Bytes) (t t' : Splitting)
    → split_step sep maxsplit c t ≡ t'
    → split_loop sep maxsplit (c ∷ s) t ≡ split_loop sep maxsplit s t'
unfolding split_loop
loop_step sep maxsplit c s t t' e = ap (split_loop sep maxsplit s) e

loop_done : (sep maxsplit : ℕ) (t : Splitting) → split_loop sep maxsplit [] t ≡ t
unfolding split_loop
loop_done sep maxsplit t = refl

last_field :
    (sep maxsplit : ℕ) (s h : Bytes) (ss : List Bytes) (n : ℕ)
    → length ss ≡ maxsplit
    → Trims sep h n
    → strings (split_loop sep maxsplit s (reading (h ∷ ss) n)) ≡ trim_right sep (h ++ s) ∷ ss
last_field sep maxsplit [] h ss n l t =
    unfold split_loop in
    trim-cut n h ss ∙ ap (λ x. x ∷ ss) (t.ready ∙ ap (trim_right sep) (sym (append-nil h)))
last_field sep maxsplit (c ∷ s) h ss n l t = elim (ℕ_discrete c sep) [
  | yes e ↦
      rw (e, loop_step sep maxsplit sep s _ _ (last_sep sep maxsplit h ss n l))
        (last_field sep maxsplit s (h ++ sep ∷ []) ss _ l (Trims-sep sep h n t)
          ∙ rw (append_assoc h (sep ∷ []) s))
  | no e ↦ rw (loop_step sep maxsplit c s _ _ (last_byte sep maxsplit c h ss n e)) (
      last_field sep maxsplit s (h ++ c ∷ []) ss 0 l (Trims-ne sep h c e)
      ∙ rw (append_assoc h (c ∷ []) s))
]

-- The fields, put on top of those found before.
abbrev onto : List Bytes → List Bytes → List Bytes
onto [] ss = ss
onto (f ∷ fs) ss = onto fs (f ∷ ss)

mutual
  unfolding fields_at skip word behind

  in_word_fields :
      (sep maxsplit : ℕ) (s w : Bytes) (ss : List Bytes) (m : ℕ)
      → length ss + suc m ≡ maxsplit
      → strings (split_loop sep maxsplit s (reading (w ∷ ss) 0))
        ≡ onto (fields_at sep m (skip sep (behind sep s))) ((w ++ word sep s) ∷ ss)
  in_word_fields sep maxsplit [] w ss m l =
      ap strings (loop_done sep maxsplit (reading (w ∷ ss) 0)) ∙ rw append-nil
  in_word_fields sep maxsplit (c ∷ s) w ss m l = elim (ℕ_discrete c sep) [
    | yes e ↦
        rw
          (
            e,
            loop_step sep maxsplit sep s _ _ (word_sep sep maxsplit w ss (omega arith)),
            ==-refl sep,
            append-nil,
          )
          (between_fields sep maxsplit s (w ∷ ss) m (omega arith) ∙ ground (arith))
    | no e ↦ rw (loop_step sep maxsplit c s _ _ (last_byte sep maxsplit c w ss 0 e)) (
        in_word_fields sep maxsplit s (w ++ c ∷ []) ss m l
        ∙ ground (arith, append_assoc w (c ∷ []) (word sep s)))
  ]

  between_fields :
      (sep maxsplit : ℕ) (s : Bytes) (ss : List Bytes) (m : ℕ)
      → length ss + m ≡ maxsplit
      → strings (split_loop sep maxsplit s (between ss)) ≡ onto (fields_at sep m (skip sep s)) ss
  between_fields sep maxsplit [] ss m l = ap strings (loop_done sep maxsplit (between ss))
  between_fields sep maxsplit (c ∷ s) ss zero l = elim (ℕ_discrete c sep) [
    | yes e ↦
        rw
          (
            e,
            loop_step sep maxsplit sep s _ _ (between_sep sep maxsplit ss (omega arith)),
            ==-refl sep,
          )
          (between_fields sep maxsplit s ss zero l)
    | no e ↦ rw (loop_step sep maxsplit c s _ _ (between_byte sep maxsplit c ss e (omega arith))) (
        last_field sep maxsplit s (c ∷ []) ss 0 (omega arith) (Trims-ne sep [] c e)
        ∙ ground (arith))
  ]
  between_fields sep maxsplit (c ∷ s) ss (suc m) l = elim (ℕ_discrete c sep) [
    | yes e ↦
        rw
          (
            e,
            loop_step sep maxsplit sep s _ _ (between_sep sep maxsplit ss (omega arith)),
            ==-refl sep,
          )
          (between_fields sep maxsplit s ss (suc m) l)
    | no e ↦
        rw (loop_step sep maxsplit c s _ _ (between_byte sep maxsplit c ss e (omega arith)))
          (in_word_fields sep maxsplit s (c ∷ []) ss m l ∙ ground (arith))
  ]

reverse-onto : (fs ss : List Bytes) → reverse (onto fs ss) ≡ reverse ss ++ fs
reverse-onto [] ss = sym (append-nil (reverse ss))
reverse-onto (f ∷ fs) ss =
    reverse-onto fs (f ∷ ss)
    ∙ ap (λ x. x ++ fs) (reverse-cons f ss)
    ∙ append_assoc (reverse ss) (f ∷ []) fs

-- `split` stores up to `maxsplit` words, which hold no separator, and then the rest of the line
-- with the separators at its two ends taken off.
pub split-fields : (s : Bytes) (sep maxsplit : ℕ) → split s sep maxsplit ≡ fields sep maxsplit s
unfolding split fields
split-fields s sep maxsplit =
    ap reverse (between_fields sep maxsplit s [] maxsplit (omega arith))
    ∙ reverse-onto (fields_at sep maxsplit (skip sep s)) []
