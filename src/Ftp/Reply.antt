-- ===== src/Ftp/Reply.antt =====
-- Replies, and the client's fields, source/ftp.c.
pub mod Digits
pub mod Line
use ftpii.Base.{ℕ, ◌+◌, [], ◌∷◌, ◌++◌, Bytes, decimal, length, take}
use ftpii.Os.{Code, S32, val, err, minus_one, Os}
use ftpii.World.{Client, M, pure, done, load, store, ◌>>=◌, ◌>>◌}
use ftpii.Net.{send_exact, net_close_blocking}

abbrev pub crlf : Bytes
crlf = b'\r' ∷ b'\n' ∷ []

abbrev pub ftp_buffer_size : ℕ
ftp_buffer_size = 1024

-- `s32 (*ftp_command_handler)(client_t *client, char *args)`
abbrev pub Handler : Type 0
Handler = ℕ → Bytes → M S32

abbrev pub get_errno : M Code
get_errno w = done w.errno w

-- An assignment to fields of the client.
unfoldable pub modify : ℕ → (Client → Client) → M (Unit {0})
unfolding load store
modify p f = do c ← load p; store p (f c)

-- The line of a reply, before its length is counted.
unfoldable pub reply_line : ℕ → Bytes → Bytes
unfolding decimal
reply_line code msg = decimal code ++ (b' ' ∷ (msg ++ crlf))

module _ ⦃os : Os⦄ where
  -- `msglen` counts three digits and a space for the code.
  unfoldable pub write_reply : ℕ → ℕ → Bytes → M S32
  unfolding load
  write_reply client code msg = do
    c ← load client
    send_exact c.socket (take (4 + length msg + 2) (reply_line code msg))

  -- `write_reply(client, code, strerror(errno))`
  unfoldable pub write_error : ℕ → M S32
  write_error client = do e ← get_errno; write_reply client 550 (os.strerror e)

  unfoldable pub close_passive_socket : ℕ → M (Unit {0})
  unfolding load store modify
  close_passive_socket client = do
    c ← load client
    elim c.passive_socket [
      | val s ↦ do
        net_close_blocking (val s)
        modify client (λ d. record d { passive_socket = minus_one })
      | err _ ↦ pure tt
    ]
