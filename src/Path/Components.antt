-- ===== src/Path/Components.antt =====
-- What a path means: the names between its slashes, followed one after another from the root.
use ftpii.Base.{◌≢◌, All, ◌||◌, List, [], ◌∷◌, ◌++◌, ◌==◌, if◌then◌else◌, Bytes, equal}

-- A name has no slash in it.
abbrev pub IsName : Bytes → Type 0
IsName = All (λ c. c ≢ b'/')

-- The names between the slashes, the empty ones included; `seg` is what was read of the first.
unfoldable pub split_from : Bytes → Bytes → List Bytes
split_from seg [] = seg ∷ []
split_from seg (c ∷ cs) =
    if c == b'/' then seg ∷ split_from [] cs else split_from (seg ++ c ∷ []) cs

-- The directory that holds the directory `st`; the root holds itself.
abbrev pub parent : List Bytes → List Bytes
parent [] = []
parent (_ ∷ st) = st

-- One name, followed from the directory `st`, whose names stand deepest first.
unfoldable pub enter : List Bytes → Bytes → List Bytes
unfolding equal
enter st seg =
    if equal seg [] || equal seg (b'.' ∷ [])
    then st
    else if equal seg (b'.' ∷ b'.' ∷ [])
    then parent st
    else seg ∷ st

unfoldable pub follow : List Bytes → List Bytes → List Bytes
follow st [] = st
follow st (seg ∷ segs) = follow (enter st seg) segs

-- Each name behind its slash, the deepest last; nothing for the root.
abbrev pub names : List Bytes → Bytes
names [] = []
names (seg ∷ st) = names st ++ b'/' ∷ seg

-- The path of a directory, from the root.
abbrev pub render : List Bytes → Bytes
render [] = b'/' ∷ []
render (seg ∷ st) = names (seg ∷ st)

-- Where the absolute path `/rest` leads.
unfoldable pub resolve : Bytes → List Bytes
unfolding follow enter split_from
resolve rest = follow [] (split_from [] rest)
