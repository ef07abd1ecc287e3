-- ===== src/Ftp/Cleanup/Table.antt =====
-- The table of clients, source/ftp.c: what taking a client out of it and entering one do to it.
use ftpii.Base.{
  ℕ, zero, suc, ◌<◌, ◌≤◌, ◌≡◌, ◌≢◌, refl, sym, ap, subst, ◌∙◌, ◌⊎◌, inl, inr, true, false, List, [],
  ◌∷◌, Option, none, some, arith, ◌==◌, Bool-cases, length, get_elem?,
}
use ftpii.Ftp.Cleanup.{clear_slot, fill_slot}

-- A slot of the table holds the client.
abbrev pub In : ℕ → List (Option ℕ) → Type 0
In p [] = ⊥
In p (none ∷ slots) = In p slots
In p (some q ∷ slots) = (q ≡ p) ⊎ In p slots

-- No client stands in two slots.
abbrev pub IsDistinct : List (Option ℕ) → Type 0
IsDistinct [] = Unit {0}
IsDistinct (none ∷ slots) = IsDistinct slots
IsDistinct (some q ∷ slots) = (¬ In q slots) × IsDistinct slots

abbrev pub occupied : List (Option ℕ) → ℕ
occupied [] = 0
occupied (none ∷ slots) = occupied slots
occupied (some q ∷ slots) = suc (occupied slots)

pub occupied-length : (slots : List (Option ℕ)) → occupied slots ≤ length slots
occupied-length [] = omega arith
occupied-length (none ∷ slots) = let h = occupied-length slots in omega arith
occupied-length (some q ∷ slots) = let h = occupied-length slots in omega arith

pub In-get_elem? :
    (i p : ℕ) (slots : List (Option ℕ)) → get_elem? slots i ≡ some (some p) → In p slots
In-get_elem? i p [] h = cc
In-get_elem? zero p (none ∷ slots) h = cc
In-get_elem? zero p (some q ∷ slots) h = inl (cc)
In-get_elem? (suc i) p (none ∷ slots) h = In-get_elem? i p slots h
In-get_elem? (suc i) p (some q ∷ slots) h = inr (In-get_elem? i p slots h)

pub length-clear_slot :
    (p : ℕ) (slots : List (Option ℕ)) → length (clear_slot p slots) ≡ length slots
unfolding clear_slot
length-clear_slot p [] = refl
length-clear_slot p (none ∷ slots) = let h = length-clear_slot p slots in omega arith
length-clear_slot p (some q ∷ slots) = let h = length-clear_slot p slots in ground arith

clear_slot-found :
    (p r : ℕ) (slots : List (Option ℕ))
    → (r == p) ≡ true
    → clear_slot p (some r ∷ slots) ≡ none ∷ slots
unfolding clear_slot
clear_slot-found p r slots e = rw e refl

clear_slot-later :
    (p r : ℕ) (slots : List (Option ℕ))
    → (r == p) ≡ false
    → clear_slot p (some r ∷ slots) ≡ some r ∷ clear_slot p slots
unfolding clear_slot
clear_slot-later p r slots e = rw e refl

pub In-clear_slot : (p q : ℕ) (slots : List (Option ℕ)) → In q (clear_slot p slots) → In q slots
unfolding clear_slot
In-clear_slot p q [] h = h
In-clear_slot p q (none ∷ slots) h = In-clear_slot p q slots h
In-clear_slot p q (some r ∷ slots) h = elim (Bool-cases (r == p)) [
  | inl e ↦ inr (subst (In q) (clear_slot-found p r slots e) h)
  | inr e ↦ elim (subst (In q) (clear_slot-later p r slots e) h) [
    | inl same ↦ inl same
    | inr more ↦ inr (In-clear_slot p q slots more)
  ]
]

pub clear_slot-keeps :
    (p q : ℕ) (slots : List (Option ℕ)) → q ≢ p → In q slots → In q (clear_slot p slots)
unfolding clear_slot
clear_slot-keeps p q [] n h = h
clear_slot-keeps p q (none ∷ slots) n h = clear_slot-keeps p q slots n h
clear_slot-keeps p q (some r ∷ slots) n h = elim (Bool-cases (r == p)) [
  | inl e ↦
      subst (In q) (sym (clear_slot-found p r slots e))
        (elim h [ inl same ↦ absurd (ground arith) | inr more ↦ more ])
  | inr e ↦
      subst (In q) (sym (clear_slot-later p r slots e))
        (elim h [ inl same ↦ inl same | inr more ↦ inr (clear_slot-keeps p q slots n more) ])
]

pub fill_slot-keeps : (p q : ℕ) (slots : List (Option ℕ)) → In q slots → In q (fill_slot p slots)
unfolding fill_slot
fill_slot-keeps p q [] h = h
fill_slot-keeps p q (none ∷ slots) h = inr h
fill_slot-keeps p q (some r ∷ slots) (inl same) = inl same
fill_slot-keeps p q (some r ∷ slots) (inr more) = inr (fill_slot-keeps p q slots more)

pub fill_slot-enters :
    (p : ℕ) (slots : List (Option ℕ)) → occupied slots < length slots → In p (fill_slot p slots)
unfolding fill_slot
fill_slot-enters p [] h = absurd (omega arith)
fill_slot-enters p (none ∷ slots) h = inl refl
fill_slot-enters p (some r ∷ slots) h = inr (fill_slot-enters p slots (omega arith))

pub clear_slot-removes :
    (p : ℕ) (slots : List (Option ℕ)) → IsDistinct slots → ¬ In p (clear_slot p slots)
unfolding clear_slot
clear_slot-removes p [] d h = h
clear_slot-removes p (none ∷ slots) d h = clear_slot-removes p slots d h
clear_slot-removes p (some r ∷ slots) d h = elim (Bool-cases (r == p)) [
  | inl e ↦
      let same : r ≡ p = ground arith in
      d.0 (subst (λ x. In x slots) (sym same) (subst (In p) (clear_slot-found p r slots e) h))
  | inr e ↦ elim (subst (In p) (clear_slot-later p r slots e) h) [
    | inl same ↦ absurd (ground arith)
    | inr more ↦ clear_slot-removes p slots d.1 more
  ]
]

pub clear_slot-IsDistinct :
    (p : ℕ) (slots : List (Option ℕ)) → IsDistinct slots → IsDistinct (clear_slot p slots)
unfolding clear_slot
clear_slot-IsDistinct p [] d = d
clear_slot-IsDistinct p (none ∷ slots) d = clear_slot-IsDistinct p slots d
clear_slot-IsDistinct p (some r ∷ slots) d = elim (Bool-cases (r == p)) [
  | inl e ↦ subst IsDistinct (sym (clear_slot-found p r slots e)) d.1
  | inr e ↦
      subst IsDistinct (sym (clear_slot-later p r slots e))
        (λ h. d.0 (In-clear_slot p r slots h), clear_slot-IsDistinct p slots d.1)
]

pub occupied-clear_slot :
    (p : ℕ) (slots : List (Option ℕ))
    → In p slots
    → suc (occupied (clear_slot p slots)) ≡ occupied slots
unfolding clear_slot
occupied-clear_slot p [] h = absurd h
occupied-clear_slot p (none ∷ slots) h = occupied-clear_slot p slots h
occupied-clear_slot p (some r ∷ slots) h = elim (Bool-cases (r == p)) [
  | inl e ↦ ap (λ s. suc (occupied s)) (clear_slot-found p r slots e)
  | inr e ↦ elim h [
    | inl same ↦ absurd (ground arith)
    | inr more ↦
        ap (λ s. suc (occupied s)) (clear_slot-later p r slots e)
        ∙ ap suc (occupied-clear_slot p slots more)
  ]
]

pub length-fill_slot : (p : ℕ) (slots : List (Option ℕ)) → length (fill_slot p slots) ≡ length slots
unfolding fill_slot
length-fill_slot p [] = refl
length-fill_slot p (none ∷ slots) = refl
length-fill_slot p (some q ∷ slots) = let h = length-fill_slot p slots in omega arith

pub In-fill_slot :
    (p q : ℕ) (slots : List (Option ℕ)) → In q (fill_slot p slots) → (p ≡ q) ⊎ In q slots
unfolding fill_slot
In-fill_slot p q [] h = inr h
In-fill_slot p q (none ∷ slots) h = h
In-fill_slot p q (some r ∷ slots) (inl same) = inr (inl same)
In-fill_slot p q (some r ∷ slots) (inr more) = elim (In-fill_slot p q slots more) [
  | inl e ↦ inl e
  | inr h ↦ inr (inr h)
]

pub fill_slot-IsDistinct :
    (p : ℕ) (slots : List (Option ℕ))
    → ¬ In p slots
    → IsDistinct slots
    → IsDistinct (fill_slot p slots)
unfolding fill_slot
fill_slot-IsDistinct p [] n d = d
fill_slot-IsDistinct p (none ∷ slots) n d = (n, d)
fill_slot-IsDistinct p (some r ∷ slots) n d = (
  λ h. elim (In-fill_slot p r slots h) [ inl e ↦ n (inl (sym e)) | inr more ↦ d.0 more ],
  fill_slot-IsDistinct p slots (λ h. n (inr h)) d.1,
)

pub occupied-fill_slot :
    (p : ℕ) (slots : List (Option ℕ))
    → occupied slots < length slots
    → occupied (fill_slot p slots) ≡ suc (occupied slots)
unfolding fill_slot
occupied-fill_slot p [] h = absurd (omega arith)
occupied-fill_slot p (none ∷ slots) h = refl
occupied-fill_slot p (some r ∷ slots) h = ap suc (occupied-fill_slot p slots (omega arith))

pub get_elem?-below :
    (i : ℕ) (slots : List (Option ℕ))
    → i < length slots
    → (slot : Option ℕ) × (get_elem? slots i ≡ some slot)
get_elem?-below i [] h = absurd (omega arith)
get_elem?-below zero (slot ∷ slots) h = (slot, refl)
get_elem?-below (suc i) (slot ∷ slots) h = get_elem?-below i slots (omega arith)

-- A slot that is empty stays so, and the client's own slot becomes so.
pub clear_slot-empties :
    (p i : ℕ) (slots : List (Option ℕ)) (slot : Option ℕ)
    → IsDistinct slots
    → get_elem? slots i ≡ some slot
    → (slot ≡ none) ⊎ (slot ≡ some p)
    → get_elem? (clear_slot p slots) i ≡ some none
unfolding clear_slot
clear_slot-empties p i [] slot d h e = cc
clear_slot-empties p zero (none ∷ slots) slot d h e = refl
clear_slot-empties p (suc i) (none ∷ slots) slot d h e = clear_slot-empties p i slots slot d h e
clear_slot-empties p zero (some r ∷ slots) slot d h e = elim (Bool-cases (r == p)) [
  | inl same ↦ ap (λ s. get_elem? s 0) (clear_slot-found p r slots same)
  | inr other ↦ elim e [
    | inl nothing ↦ absurd (cc)
    | inr mine ↦ let same : some r ≡ some p = cc in absurd (ground arith)
  ]
]
clear_slot-empties p (suc i) (some r ∷ slots) slot d h e = elim (Bool-cases (r == p)) [
  | inl same ↦ ap (λ s. get_elem? s (suc i)) (clear_slot-found p r slots same) ∙ elim e [
    | inl nothing ↦ h ∙ ap some nothing
    | inr mine ↦
        let eq : r ≡ p = ground arith in
        absurd (d.0 (subst (λ x. In x slots) (sym eq) (In-get_elem? i p slots (h ∙ ap some mine))))
  ]
  | inr other ↦
      ap (λ s. get_elem? s (suc i)) (clear_slot-later p r slots other)
      ∙ clear_slot-empties p i slots slot d.1 h e
]

pub occupied-zero :
    (slots : List (Option ℕ))
    → ((i : ℕ) → i < length slots → get_elem? slots i ≡ some none)
    → occupied slots ≡ 0
occupied-zero [] h = refl
occupied-zero (none ∷ slots) h = occupied-zero slots (λ i k. h (suc i) (omega arith))
occupied-zero (some q ∷ slots) h = let first = h zero (omega arith) in absurd (cc)

pub occupied-In : (q : ℕ) (slots : List (Option ℕ)) → In q slots → 1 ≤ occupied slots
occupied-In q [] h = absurd h
occupied-In q (none ∷ slots) h = occupied-In q slots h
occupied-In q (some r ∷ slots) h = omega arith
