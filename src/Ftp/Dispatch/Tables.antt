-- ===== src/Ftp/Dispatch/Tables.antt =====
-- The tables of commands and of their handlers, source/ftp.c, read side by side.
use ftpii.Base.{ℕ, zero, suc, ◌≤◌, ◌≡◌, refl, List, [], ◌∷◌, some, Bytes, get_elem?, length, arith}
use ftpii.Os.{Os}
use ftpii.Ftp.Reply.{Handler}
use ftpii.Ftp.Dispatch.{
  find_command, site_commands, site_handlers, unauthenticated_commands, unauthenticated_handlers,
  authenticated_commands, authenticated_handlers,
}

find_command-le : (cmd : Bytes) (names : List Bytes) → find_command cmd names ≤ length names
unfolding find_command
find_command-le cmd [] = omega arith
find_command-le cmd (name ∷ names) = ground (arith, find_command-le cmd names)

-- The table has an entry at the index.
abbrev pub InBounds : List Handler → ℕ → Type 0
InBounds handlers i = (h : Handler) × (get_elem? handlers i ≡ some h)

below_length : (handlers : List Handler) (i : ℕ) → suc i ≤ length handlers → InBounds handlers i
below_length [] i h = absurd (omega arith)
below_length (x ∷ handlers) zero h = (x, refl)
below_length (x ∷ handlers) (suc i) h = below_length handlers i (omega arith)

one_more :
    (cmd : Bytes) (names : List Bytes) (handlers : List Handler)
    → length handlers ≡ suc (length names)
    → InBounds handlers (find_command cmd names)
one_more cmd names handlers e =
    below_length handlers (find_command cmd names) (omega (arith, find_command-le cmd names))

-- Whatever the command is, the index at which `dispatch_to_handler` reads a table of handlers is in
-- the table: of those for guests, of those after login, and of those of SITE.
pub dispatch-InBounds :
    ⦃os : Os⦄
    → (cmd : Bytes) (fuel : ℕ)
    → InBounds unauthenticated_handlers (find_command cmd unauthenticated_commands)
      × InBounds (authenticated_handlers fuel) (find_command cmd authenticated_commands)
      × InBounds (site_handlers fuel) (find_command cmd site_commands)
dispatch-InBounds cmd fuel = (
  one_more cmd unauthenticated_commands unauthenticated_handlers refl,
  one_more cmd authenticated_commands (authenticated_handlers fuel) refl,
  one_more cmd site_commands (site_handlers fuel) refl,
)
