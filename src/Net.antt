-- ===== src/Net.antt =====
-- source/net.c: blocking mode, and sending and receiving exactly what is asked.
pub mod Transfer
pub mod Receive
pub mod Blocking
pub mod Send
pub mod Start
pub mod Frame
use ftpii.Base.{
  ℕ, zero, suc, ◌+◌, ◌-◌, ◌/◌, ◌%◌, ◌≡◌, Bool, true, false, not, ◌&&◌, ◌||◌, List, [], ◌∷◌, ◌++◌,
  Option, none, some, Bytes, ◌==◌, ltb, if◌then◌else◌, length, take, drop, min, codes,
}
use ftpii.Os.{Code, S32, val, err, einval, enodata, eagain, minus_one, Call, Answer, Os}
use ftpii.World.{World, M, Out, pure, done, stuck, call, ◌>>=◌, ◌>>◌}

abbrev pub max_net_buffer_size : ℕ
max_net_buffer_size = 32768

abbrev pub min_net_buffer_size : ℕ
min_net_buffer_size = 4096

abbrev pub fread_buffer_size : ℕ
fread_buffer_size = 32768

-- `flags & ~4` and `flags | 4`
abbrev pub clear_4 : ℕ → ℕ
clear_4 flags = if (flags / 4) % 2 == 1 then flags - 4 else flags

abbrev pub set_4 : ℕ → ℕ
set_4 flags = if (flags / 4) % 2 == 1 then flags else flags + 4

abbrev pub net_buffer_size : M ℕ
net_buffer_size w = done w.net_buffer_size w

abbrev pub set_net_buffer_size : ℕ → M (Unit {0})
set_net_buffer_size n w = done tt (record w { net_buffer_size = n })

-- `bytes_transferred == -EINVAL && NET_BUFFER_SIZE == MAX_NET_BUFFER_SIZE`
abbrev pub retries : Code → ℕ → Bool
retries einval size = size == max_net_buffer_size
retries _ size = false

module _ ⦃os : Os⦄ where
  unfoldable pub set_blocking : S32 → Bool → M S32
  unfolding call
  set_blocking s blocking = do
    flags ← call (Call.net_getfl s)
    elim flags.code [
      | val n ↦ do
        a ← call (Call.net_setfl s (if blocking then clear_4 n else set_4 n))
        pure a.code
      | err e ↦ pure (err e)
    ]

  unfoldable pub net_close_blocking : S32 → M S32
  unfolding call
  net_close_blocking s = do set_blocking s true; a ← call (Call.net_close s); pure a.code

  -- `while (remaining)` of `transfer_exact`, whose one `transferrer` is `net_write`: `buf` is what is
  -- left to send. A round sends at least a byte or is the one retry.
  unfoldable pub transfer_loop : ℕ → S32 → Bytes → M S32
  unfolding call
  transfer_loop zero s buf w = stuck
  transfer_loop (suc fuel) s [] w = done (val 0) w
  transfer_loop (suc fuel) s (b ∷ buf) w =
      (do
        size ← net_buffer_size
        a ← call (Call.net_write s (take size (b ∷ buf)))
        elim a.code [
          | val zero ↦ pure (err enodata)
          | val (suc n) ↦ transfer_loop fuel s (drop (suc n) (b ∷ buf))
          | err e ↦
              if retries e size
              then (do set_net_buffer_size min_net_buffer_size; transfer_loop fuel s (b ∷ buf))
              else pure (err e)
        ])
        w

  -- `transfer_exact(s, buf, length, net_write)`
  unfoldable pub transfer_exact : S32 → Bytes → M S32
  transfer_exact s buf = do
    set_blocking s true
    result ← transfer_loop (length buf + 2) s buf
    set_blocking s false
    pure result

  unfoldable pub send_exact : S32 → Bytes → M S32
  send_exact s buf = transfer_exact s buf

  -- `result = -!feof(f)`
  abbrev pub not_feof : S32 → S32
  not_feof (val zero) = minus_one
  not_feof (val (suc _)) = val 0
  not_feof (err _) = val 0

  -- one buffer of the file; -EAGAIN asks for another round
  unfoldable pub send_from_file : S32 → ℕ → M S32
  unfolding call
  send_from_file s f = do
    read ← call (Call.fread f fread_buffer_size)
    result ← if ltb 0 (length read.payload) then send_exact s read.payload else pure (val 0)
    elim result [
      | err e ↦ pure (err e)
      | val n ↦
          if ltb (length read.payload) fread_buffer_size
          then (do eof ← call (Call.feof f); pure (not_feof eof.code))
          else pure (err eagain)
    ]

  -- `bytes_written < bytes_read`
  abbrev pub short_write : S32 → ℕ → Bool
  short_write (val m) n = ltb m n
  short_write (err _) n = true

  -- `while (1)` of `recv_to_file`, with fuel: the peer decides when it ends.
  unfoldable pub recv_to_file : ℕ → S32 → ℕ → M S32
  unfolding call
  recv_to_file zero s f w = stuck
  recv_to_file (suc fuel) s f w =
      (do
        size ← net_buffer_size
        a ← call (Call.net_read s size)
        elim a.code [
          | err e ↦
              if retries e size
              then (do set_net_buffer_size min_net_buffer_size; recv_to_file fuel s f)
              else pure (err e)
          | val zero ↦ pure (val 0)
          | val (suc n) ↦ do
            written ← call (Call.fwrite f a.payload)
            if short_write written.code (suc n) then pure minus_one else recv_to_file fuel s f
        ])
        w
