-- ===== src/Path.antt =====
-- source/vrt.c, the body of `virtual_abspath` behind its allocations: the state machine that
-- normalises a path in one pass over its bytes, and the loop that drops trailing slashes.
pub mod Components
mod Steps
pub mod Correct
pub mod Normal
pub mod Text
mod Tests
use ftpii.Base.{
  ℕ, zero, suc, ◌+◌, ◌-◌, Bool, true, false, not, ◌&&◌, ◌||◌, List, [], ◌∷◌, ◌++◌, Option, none,
  some, ltb, ◌==◌, if◌then◌else◌, Bytes, length, take, get_elem?, last_index,
}

-- `u32 state`: 0 start, 1 slash, 2 dot, 3 dotdot
pub data State : Type 0 where
  start slash dot dotdot : State

-- The locals of the loop; `curr_dir` is an index into `normalised_path`.
pub record Machine : Type 0 where
  pub state : State
  pub normalised_path : Bytes
  pub curr_dir : ℕ

-- `*token == '/' || !*token`; the terminator is read as the byte 0.
abbrev pub ends_name : ℕ → Bool
ends_name c = c == b'/' || c == 0

-- what case 3 does at the end of a `..`, from `strrchr` on
unfoldable pub leave_to : Machine → Option ℕ → Machine
leave_to m (some prev_dir) = record m {
  state = slash;
  normalised_path = take (prev_dir + 1) m.normalised_path;
  curr_dir = prev_dir;
}
leave_to m none = record m { state = slash; normalised_path = m.normalised_path ++ b'/' ∷ [] }

-- case 3 at the end of a `..`: `*curr_dir = 0` cuts it off, and `strrchr` finds the parent.
unfoldable pub leave_dir : Machine → Machine
unfolding leave_to last_index
leave_dir m =
    let cut = take m.curr_dir m.normalised_path in
    leave_to (record m { normalised_path = cut }) (last_index b'/' cut)

-- the `switch`
unfoldable pub switch : State → ℕ → Machine → Machine
unfolding leave_dir
switch start c m =
    if c == b'/'
    then record m {
      state = slash;
      normalised_path = m.normalised_path ++ c ∷ [];
      curr_dir = length m.normalised_path;
    }
    else m
switch slash c m =
    if c == b'.'
    then record m { state = dot }
    else if not (c == b'/')
    then record m { state = start }
    else m
switch dot c m =
    if ends_name c
    then record m { state = slash; normalised_path = take (m.curr_dir + 1) m.normalised_path }
    else if c == b'.'
    then record m { state = dotdot }
    else record m { state = start }
switch dotdot c m = if ends_name c then leave_dir m else record m { state = start }

abbrev pub is_start : State → Bool
is_start start = true
is_start _ = false

-- `if (state == 0 || *token != '/') strncat(normalised_path, token, 1)`
unfoldable pub append_token : ℕ → Machine → Machine
append_token c m =
    if is_start m.state || not (c == b'/')
    then record m { normalised_path = m.normalised_path ++ c ∷ [] }
    else m

-- `while (1)`: at the terminator the switch runs once more, and then the loop breaks.
unfoldable pub scan : Bytes → Machine → Machine
unfolding switch append_token
scan [] m = switch m.state 0 m
scan (c ∷ token) m = scan token (append_token c (switch m.state c m))

-- `while (end > 1 && normalised_path[end - 1] == '/') normalised_path[--end] = 0`
unfoldable pub strip : ℕ → Bytes → Bytes
strip zero path = path
strip (suc end) path =
    let rest = strip end (take end path) in
    elim (get_elem? path end) [
      | some c ↦ if ltb 1 (suc end) && c == b'/' then rest else path
      | none ↦ path
    ]

-- From the initialisation of `normalised_path` to the label `end`.
unfoldable pub normalise : Bytes → Bytes
unfolding scan strip
normalise path =
    let m = scan path (record { state = start; normalised_path = []; curr_dir = 0 }) in
    strip (length m.normalised_path) m.normalised_path
