-- ===== src/Ftp/Reply/Line.antt =====
-- The line that `write_reply` of source/ftp.c sends.
use ftpii.Base.{
  ℕ, zero, suc, ◌+◌, ◌≤◌, ◌<◌, ◌≡◌, refl, ap, [], ◌∷◌, ◌++◌, some, Bytes, arith, decimal, length,
  take, length-append,
}
use ftpii.Os.{Os}
use ftpii.World.{World, Client, load}
use ftpii.World.Triple.{Ensures}
use ftpii.Net.Transfer.{Delivers, send_exact-Delivers}
use ftpii.Ftp.Reply.Digits.{length-decimal}
use ftpii.Ftp.Reply.{crlf, reply_line, write_reply}

take_whole : (n : ℕ) (s : Bytes) → length s ≤ n → take n s ≡ s
take_whole zero [] h = refl
take_whole (suc n) [] h = refl
take_whole zero (c ∷ s) h = absurd (omega arith)
take_whole (suc n) (c ∷ s) h = ap (◌∷◌ c) (take_whole n s (omega arith))

length-reply_line :
    (code : ℕ) (msg : Bytes)
    → 100 ≤ code
    → code < 1000
    → length (reply_line code msg) ≡ 4 + length msg + 2
unfolding reply_line
length-reply_line code msg h k =
    omega (arith, length-append (decimal code) _, length-append msg crlf, length-decimal code h k)

module _ ⦃os : Os⦄ where
  -- Let `p` be a client, and `code` a number of three digits. `write_reply` comes back; the network
  -- took from it, in order, a first part of the code, a space, the message and CR LF, and all of these
  -- if the result is 0; otherwise the result is an error.
  pub write_reply-Delivers :
      (p code : ℕ) (msg : Bytes) (c : Client) (w : World)
      → w.ftp.heap p ≡ some c
      → 100 ≤ code
      → code < 1000
      → Ensures
          (write_reply p code msg w)
          (Delivers c.socket (decimal code ++ (b' ' ∷ (msg ++ b'\r' ∷ b'\n' ∷ []))) w)
  unfolding write_reply reply_line
  write_reply-Delivers p code msg c w h k l =
      rw
        (
          h,
          load,
          take_whole (4 + length msg + 2) (reply_line code msg)
              (omega (arith, length-reply_line code msg k l)),
        )
        (send_exact-Delivers c.socket (reply_line code msg) w)
