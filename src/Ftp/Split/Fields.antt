-- ===== src/Ftp/Split/Fields.antt =====
-- What the fields of a line are: its first words, and then all the rest, with no separator at its
-- ends.
use ftpii.Base.{ℕ, zero, suc, List, [], ◌∷◌, ◌==◌, if◌then◌else◌, Bytes}

-- the line without the separators in front
unfoldable pub skip : ℕ → Bytes → Bytes
skip sep [] = []
skip sep (c ∷ s) = if c == sep then skip sep s else c ∷ s

-- the bytes up to the next separator, and those from it on
unfoldable pub word : ℕ → Bytes → Bytes
word sep [] = []
word sep (c ∷ s) = if c == sep then [] else c ∷ word sep s

unfoldable pub behind : ℕ → Bytes → Bytes
behind sep [] = []
behind sep (c ∷ s) = if c == sep then c ∷ s else behind sep s

abbrev pub trim_cons : ℕ → ℕ → Bytes → Bytes
trim_cons sep c [] = if c == sep then [] else c ∷ []
trim_cons sep c (x ∷ s) = c ∷ x ∷ s

-- the line without the separators at its end
unfoldable pub trim_right : ℕ → Bytes → Bytes
trim_right sep [] = []
trim_right sep (c ∷ s) = trim_cons sep c (trim_right sep s)

-- The fields of a line that starts with no separator: `maxsplit` words and the rest.
unfoldable pub fields_at : ℕ → ℕ → Bytes → List Bytes
fields_at sep maxsplit [] = []
fields_at sep zero (c ∷ s) = trim_right sep (c ∷ s) ∷ []
fields_at sep (suc maxsplit) (c ∷ s) =
    word sep (c ∷ s) ∷ fields_at sep maxsplit (skip sep (behind sep (c ∷ s)))

unfoldable pub fields : ℕ → ℕ → Bytes → List Bytes
fields sep maxsplit s = fields_at sep maxsplit (skip sep s)
