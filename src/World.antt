-- ===== src/World.antt =====
-- The program's state: the static variables of each source file, the clients that source/ftp.c
-- allocates, and the history of the calls that left the program. A function of the source is an
-- action `M A` on it.
pub mod Triple
pub mod Frame
pub mod Posix
pub mod Keeps
pub mod Apart
use ftpii.Base.{
  ℕ, ◌+◌, ◌≡◌, Bool, true, false, List, [], ◌∷◌, ◌++◌, Option, none, some, Bytes, ◌==◌,
  if◌then◌else◌,
}
use ftpii.Os.{Code, S32, Partition, Call, Answer, Event, Os}

-- `data_connection_callback`: the transfer that a data connection carries
pub data Callback : Type 0 where
  send_nlst send_list send_from_file recv_to_file : Callback

-- A `DIR_ITER`: one of the program's own, for the root, by its address, whose cursor the state keeps
-- until it is closed; or the library's, whose state is the library's: like a `FILE` it is known by the
-- calls on it, which the history keeps.
pub data Dir : Type 0 where
  virtual : ℕ → Dir
  device : ℕ → Dir

-- `void *data_connection_callback_arg`
pub data Arg : Type 0 where
  dir : Dir → Arg
  file : ℕ → Arg

pub data Cleanup : Type 0 where
  vrt_dirclose fclose : Cleanup

-- `struct client_struct`. The bytes of `buf` below `offset` are kept, so `offset` is its length.
pub record Client : Type 0 where
  pub socket : S32
  pub representation_type : ℕ
  pub passive_socket : S32
  pub data_socket : S32
  pub cwd : Bytes
  pub pending_rename : Bytes
  pub restart_marker : ℕ
  pub address_ip : ℕ
  pub address_port : ℕ
  pub authenticated : Bool
  pub buf : Bytes
  pub data_connection_connected : Bool
  pub data_callback : Option Callback
  pub data_connection_callback_arg : Option Arg
  pub data_connection_cleanup : Option Cleanup
  pub data_connection_timer : ℕ

-- The statics of source/ftp.c. `heap` holds the clients and `dirs` the cursors of the program's own
-- directory iterators; `next` is the next address to allocate at.
pub record Ftp : Type 0 where
  pub num_clients : ℕ
  pub passive_port : ℕ
  pub password : Option Bytes
  pub clients : List (Option ℕ)
  pub heap : ℕ → Option Client
  pub dirs : ℕ → Option ℕ
  pub next : ℕ

pub data MountState : Type 0 where
  mountstate_start mountstate_selectdevice mountstate_waitfordevice : MountState

-- The statics of source/fs.c; the constant columns of its table are in Fs.Table.
pub record FsState : Type 0 where
  pub inserted : Partition → Bool
  pub geckofail : Partition → Bool
  pub mountstate : MountState
  pub mount_partition : Option Partition
  pub mount_timer : ℕ
  pub device_check_timer : ℕ

-- The statics of source/dvd.c
pub record DvdState : Type 0 where
  pub mount_wait : Bool
  pub last_stopped : ℕ

-- The statics of source/reset.c
pub record ResetState : Type 0 where
  pub reset : Bool
  pub power : Bool

-- `trace` is the history, the newest call first; `net_buffer_size` is the static of source/net.c.
pub record World : Type 0 where
  pub trace : List Event
  pub errno : Code
  pub net_buffer_size : ℕ
  pub ftp : Ftp
  pub fs : FsState
  pub dvd : DvdState
  pub reset : ResetState

-- How an action ends: with a value, at a dead pointer, not within the fuel of its loop, or by leaving
-- the program.
pub data Out (A : Type 0) : Type 0 where
  done : A → World → Out A
  fault : Out A
  stuck : Out A
  exited : World → Out A

abbrev pub M : Type 0 → Type 0
M A = World → Out A

abbrev pub pure : {A : Type 0} → A → M A
pure a w = done a w

abbrev pub continue : {A B : Type 0} → Out A → (A → M B) → Out B
continue (done a w) f = f a w
continue fault f = fault
continue stuck f = stuck
continue (exited w) f = exited w

infixl 5 ◌>>=◌ ◌>>◌
abbrev pub ◌>>=◌ : {A B : Type 0} → M A → (A → M B) → M B
◌>>=◌ m f w = continue (m w) f

abbrev pub ◌>>◌ : {A B : Type 0} → M A → M B → M B
m >> k = m >>= λ _. k

-- A call leaves the program: the environment answers, and both are recorded.
unfoldable pub call : ⦃os : Os⦄ → Call → M Answer
call ⦃os⦄ c w =
    let a = os.respond w.trace c in
    done a (record w { trace = record { call = c; answer = a } ∷ w.trace })

abbrev pub set_errno : Code → M (Unit {0})
set_errno e w = done tt (record w { errno = e })

-- A call that sets errno where it fails.
unfoldable pub posix : ⦃os : Os⦄ → Call → M Answer
unfolding call
posix c = do a ← call c; elim a.code [ S32.val n ↦ pure a | S32.err e ↦ do set_errno e; pure a ]

-- `client->…` through a pointer
unfoldable pub load : ℕ → M Client
load p w = elim (w.ftp.heap p) [ some c ↦ done c w | none ↦ fault ]

abbrev pub update {ℓ} : {A : Type ℓ} → (ℕ → A) → ℕ → A → ℕ → A
update f p v q = if p == q then v else f q

-- `client->… = …`: the client at the address is overwritten.
unfoldable pub store : ℕ → Client → M (Unit {0})
store p c w = elim (w.ftp.heap p) [
  | some _ ↦ done tt (record w { ftp = record w.ftp { heap = update w.ftp.heap p (some c) } })
  | none ↦ fault
]
