-- ===== src/Path/Steps.antt =====
-- The machine over one name: what it holds is the directory reached and the name read so far.
use ftpii.Base.{
  ℕ, ◌+◌, ◌≡◌, ◌≢◌, refl, List, [], ◌∷◌, ◌++◌, none, some, arith, ==_iff, if◌then◌else◌, Bytes,
  equal, length, take, All, append_assoc, last_index, length-append, take-append, take-append_one,
  ◌⊎◌,
}
use ftpii.Path.Components.{IsName, enter, names, parent}
use ftpii.Path.{
  State, start, slash, dot, dotdot, Machine, switch, append_token, leave_to, leave_dir,
}

-- The state that the name read so far puts the machine in.
abbrev state_of : Bytes → State
state_of seg =
    if equal seg []
    then slash
    else if equal seg (b'.' ∷ [])
    then dot
    else if equal seg (b'.' ∷ b'.' ∷ [])
    then dotdot
    else start

abbrev pub holding : List Bytes → Bytes → Machine
holding st seg = record {
  state = state_of seg;
  normalised_path = names st ++ b'/' ∷ seg;
  curr_dir = length (names st);
}

pub last_index-IsName : (seg : Bytes) → IsName seg → last_index b'/' seg ≡ none
unfolding last_index
last_index-IsName [] h = refl
last_index-IsName (c ∷ seg) h = ground (arith, last_index-IsName seg h.1, ==_iff c b'/')

pub last_index-names :
    (p seg : Bytes) → IsName seg → last_index b'/' (p ++ b'/' ∷ seg) ≡ some (length p)
unfolding last_index
last_index-names [] seg h = ground (arith, last_index-IsName seg h)
last_index-names (c ∷ p) seg h = ground (arith, last_index-names p seg h)

pub step_byte :
    (st : List Bytes) (seg : Bytes) (c : ℕ)
    → c ≢ b'/'
    → c ≢ 0
    → append_token c (switch (state_of seg) c (holding st seg)) ≡ holding st (seg ++ c ∷ [])
unfolding append_token switch equal
step_byte st [] c h z = ground (arith, append_assoc (names st) (b'/' ∷ []) (c ∷ []))
step_byte st (x ∷ []) c h z = ground (arith, append_assoc (names st) (b'/' ∷ (x ∷ [])) (c ∷ []))
step_byte st (x ∷ y ∷ []) c h z =
    ground (arith, append_assoc (names st) (b'/' ∷ (x ∷ y ∷ [])) (c ∷ []))
step_byte st (x ∷ y ∷ z' ∷ seg) c h z =
    ground (arith, append_assoc (names st) (b'/' ∷ (x ∷ y ∷ z' ∷ seg)) (c ∷ []))

pub leave_dir-holding :
    (s : State) (st : List Bytes) (seg : Bytes)
    → All IsName st
    → leave_dir (record (holding st seg) { state = s }) ≡ holding (parent st) []
unfolding leave_dir leave_to equal
leave_dir-holding s [] seg ns = refl
leave_dir-holding s (x ∷ st) seg ns = ground (
  arith,
  take-append (names (x ∷ st)) (b'/' ∷ seg),
  last_index-names (names st) x ns.0,
  take-append_one (names st) b'/' x,
)

cut_dot :
    (st : List Bytes) (x : ℕ)
    → take (length (names st) + 1) (names st ++ b'/' ∷ x ∷ []) ≡ names st ++ b'/' ∷ []
cut_dot st x = take-append_one (names st) b'/' (x ∷ [])

-- At a slash the name read so far is followed.
pub step_slash :
    (st : List Bytes) (seg : Bytes)
    → All IsName st
    → append_token b'/' (switch (state_of seg) b'/' (holding st seg)) ≡ holding (enter st seg) []
unfolding append_token switch equal enter
step_slash st [] ns = ground arith
step_slash st (x ∷ []) ns = ground (arith, cut_dot st x, length-append (names st) (b'/' ∷ x ∷ []))
step_slash st (x ∷ y ∷ []) ns = ground (arith, leave_dir-holding dotdot st (x ∷ y ∷ []) ns)
step_slash st (x ∷ y ∷ z ∷ seg) ns = ground arith

-- What stands in the buffer when the terminator has been read.
pub last_switch :
    (st : List Bytes) (seg : Bytes)
    → All IsName st
    → let m = switch (state_of seg) 0 (holding st seg) in
      (m.normalised_path ≡ names (enter st seg) ++ b'/' ∷ [])
      ⊎ ((seg ≢ []) × (enter st seg ≡ seg ∷ st) × (m.normalised_path ≡ names (seg ∷ st)))
unfolding switch equal enter
last_switch st [] ns = ground arith
last_switch st (x ∷ []) ns = ground (arith, cut_dot st x)
last_switch st (x ∷ y ∷ []) ns = ground (arith, leave_dir-holding dotdot st (x ∷ y ∷ []) ns)
last_switch st (x ∷ y ∷ z ∷ seg) ns = ground arith
