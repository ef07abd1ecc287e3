-- ===== src/Ftp/Events/Control/Lines.antt =====
-- `strstr(next, CRLF)` of source/ftp.c: the line before the first CR LF, and what stands behind it.
use ftpii.Base.{ℕ, ◌&&◌, [], ◌∷◌, Option, none, some, Bytes, ◌==◌, if◌then◌else◌}

-- `c` put in front of the line
unfoldable pub onto_line : ℕ → Option (Bytes × Bytes) → Option (Bytes × Bytes)
onto_line c none = none
onto_line c (some (line, rest)) = some (c ∷ line, rest)

unfoldable pub find_crlf : Bytes → Option (Bytes × Bytes)
unfolding onto_line
find_crlf [] = none
find_crlf (c ∷ []) = none
find_crlf (c ∷ d ∷ s) =
    if c == b'\r' && d == b'\n' then some ([], s) else onto_line c (find_crlf (d ∷ s))
