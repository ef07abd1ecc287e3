-- ===== src/Ftp/Events/Control.antt =====
-- `process_control_events` of source/ftp.c: reading command lines.
pub mod Lines
pub mod Cut
pub mod Rounds
pub mod Segments
pub mod Room
pub mod Fits
pub mod Found
pub mod Live
use ftpii.Base.{
  ℕ, zero, suc, ◌+◌, ◌-◌, Bool, true, false, [], ◌∷◌, ◌++◌, Option, none, some, Bytes, contains,
  ltb, length, if◌then◌else◌,
}
use ftpii.Os.{S32, val, err, Code, eagain, Call, Os}
use ftpii.World.{World, M, pure, stuck, call, load, ◌>>=◌, ◌>>◌}
use ftpii.Ftp.Reply.{ftp_buffer_size, modify}
use ftpii.Ftp.Files.{is_empty}
use ftpii.Ftp.Cleanup.{cleanup_client}
use ftpii.Ftp.Dispatch.{process_command}
use ftpii.Ftp.Events.Control.Lines.{find_crlf}

-- How the loop over the lines ends: with what is left of the buffer, or at `recv_loop_end`.
pub data Rest : Type 0 where
  keep : Bytes → Rest
  hang_up : Rest

-- How the outer loop's body ends: at `return`, at `recv_loop_end`, or with another round.
pub data Round : Type 0 where
  leave close again : Round

module _ ⦃os : Os⦄ where
  -- `client->data_callback` as a condition
  unfoldable pub transferring : ℕ → M Bool
  transferring client = do
    c ← load client
    elim c.data_callback [ none ↦ pure false | some _ ↦ pure true ]

  -- The body of the inner loop at a line: whether to go on.
  unfoldable pub process_line : ℕ → ℕ → Bytes → M Bool
  process_line fuel client line =
      if contains b'\n' line then pure false else if is_empty line then pure true else (do
        result ← process_command fuel client line
        elim result [ err _ ↦ pure false | val _ ↦ pure true ])

  -- The inner loop from `next` on. Its fuel is more than the bytes that are left.
  unfoldable pub process_lines : ℕ → ℕ → ℕ → Bytes → M Rest
  process_lines zero fuel client next w = stuck
  process_lines (suc rounds) fuel client next w =
      (elim (find_crlf next) as (λ _. M Rest) [
        | none ↦ pure (keep next)
        | some (line, rest) ↦ do
          busy ← transferring client
          if busy then pure (keep next) else (do
            ok ← process_line fuel client line
            if ok then process_lines rounds fuel client rest else pure hang_up)
      ])
        w

  -- What follows a read of the bytes `new`.
  unfoldable pub take_bytes : ℕ → ℕ → Bytes → M Round
  take_bytes fuel client new = do
    modify client (λ c. record c { buf = c.buf ++ new })
    if contains 0 new then pure close else (do
      c ← load client
      rest ← process_lines (length c.buf + 1) fuel client c.buf
      elim rest [
        | keep next ↦ do modify client (λ d. record d { buf = next }); pure again
        | hang_up ↦ pure close
      ])

  -- The body of the outer loop, its condition included.
  unfoldable pub control_round : ℕ → ℕ → M Round
  unfolding call
  control_round fuel client = do
    c ← load client
    if ltb (length c.buf) (ftp_buffer_size - 1)
        then (do
          busy ← transferring client
          if busy then pure leave else (do
            a ← call (Call.net_read c.socket (ftp_buffer_size - 1 - length c.buf))
            elim a.code [
              | err eagain ↦ pure leave
              | err _ ↦ pure close
              | val zero ↦ pure close
              | val (suc _) ↦ take_bytes fuel client a.payload
            ]))
        else pure close

  unfoldable pub process_control_events : ℕ → ℕ → M (Unit {0})
  process_control_events zero client w = stuck
  process_control_events (suc fuel) client w =
      (do
        round ← control_round fuel client
        elim round [
          | leave ↦ pure tt
          | close ↦ cleanup_client client
          | again ↦ process_control_events fuel client
        ])
        w
