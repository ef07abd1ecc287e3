-- ===== src/Net/Frame.antt =====
-- The functions of source/net.c touch none of the statics of the server.
use ftpii.Base.{
  refl, ℕ, zero, suc, Bool, true, false, ◌+◌, [], ◌∷◌, Bytes, take, drop, length, ltb,
  if◌then◌else◌,
}
use ftpii.Os.{S32, val, err, minus_one, enodata, eagain, Call, Os}
use ftpii.World.Keeps.{
  ended, waits, Keeps, Keeps-bind, Keeps-then, Keeps-pure, Keeps-if, Keeps-S32, Keeps-S32_3,
}
use ftpii.World.Apart.{Always, Apart, Apart-frame, call-Apart}
use ftpii.Net.{
  clear_4, set_4, retries, min_net_buffer_size, net_buffer_size, set_net_buffer_size,
  fread_buffer_size, set_blocking, net_close_blocking, transfer_loop, transfer_exact, send_exact,
  send_from_file, recv_to_file, not_feof, short_write,
}

get_size-Apart : Keeps Always Apart net_buffer_size
get_size-Apart = record { run = λ w i. ended (record { ftp = refl; same = refl }) }

set_size-Apart : (n : ℕ) → Keeps Always Apart (set_net_buffer_size n)
set_size-Apart n = record { run = λ w i. ended (record { ftp = refl; same = refl }) }

module _ ⦃os : Os⦄ where
  pub set_blocking-Apart : (s : S32) (b : Bool) → Keeps Always Apart (set_blocking s b)
  unfolding set_blocking
  set_blocking-Apart s b = Keeps-bind (call-Apart (Call.net_getfl s)) λ flags.
      Keeps-S32 flags.code
        (λ n.
          Keeps-bind (call-Apart (Call.net_setfl s (if b then clear_4 n else set_4 n)))
            λ a. Keeps-pure a.code)
        (λ e. Keeps-pure (err e))

  pub net_close_blocking-Apart : (s : S32) → Keeps Always Apart (net_close_blocking s)
  unfolding net_close_blocking
  net_close_blocking-Apart s =
      Keeps-then (set_blocking-Apart s true)
        (Keeps-bind (call-Apart (Call.net_close s)) λ a. Keeps-pure a.code)

  transfer_loop-Apart :
      (fuel : ℕ) (s : S32) (buf : Bytes) → Keeps Always Apart (transfer_loop fuel s buf)
  unfolding transfer_loop
  transfer_loop-Apart zero s buf = record { run = λ w i. waits }
  transfer_loop-Apart (suc fuel) s [] = record {
    run = λ w i. ended (record { ftp = refl; same = refl });
  }
  transfer_loop-Apart (suc fuel) s (b ∷ buf) =
      let round = Keeps-bind get_size-Apart λ size.
        Keeps-bind (call-Apart (Call.net_write s (take size (b ∷ buf)))) λ a.
          Keeps-S32_3 a.code (Keeps-pure (err enodata))
            (λ n. transfer_loop-Apart fuel s (drop (suc n) (b ∷ buf)))
            (λ e.
              Keeps-if (retries e size)
                (Keeps-then (set_size-Apart min_net_buffer_size)
                  (transfer_loop-Apart fuel s (b ∷ buf)))
                (Keeps-pure (err e))) in
      record { run = λ w i. round.run w i }

  pub send_exact-Apart : (s : S32) (buf : Bytes) → Keeps Always Apart (send_exact s buf)
  unfolding send_exact transfer_exact
  send_exact-Apart s buf = Keeps-then (set_blocking-Apart s true) (
      Keeps-bind (transfer_loop-Apart (length buf + 2) s buf)
        λ result. Keeps-then (set_blocking-Apart s false) (Keeps-pure result))

  pub send_from_file-Apart : (s : S32) (f : ℕ) → Keeps Always Apart (send_from_file s f)
  unfolding send_from_file
  send_from_file-Apart s f = Keeps-bind (call-Apart (Call.fread f fread_buffer_size)) λ read.
      Keeps-bind
        (Keeps-if (ltb 0 (length read.payload)) (send_exact-Apart s read.payload)
          (Keeps-pure (val 0)))
        λ result.
          Keeps-S32 result
            (λ n.
              Keeps-if (ltb (length read.payload) fread_buffer_size)
                (Keeps-bind (call-Apart (Call.feof f)) λ eof. Keeps-pure (not_feof eof.code))
                (Keeps-pure (err eagain)))
            (λ e. Keeps-pure (err e))

  pub recv_to_file-Apart : (fuel : ℕ) (s : S32) (f : ℕ) → Keeps Always Apart (recv_to_file fuel s f)
  unfolding recv_to_file
  recv_to_file-Apart zero s f = record { run = λ w i. waits }
  recv_to_file-Apart (suc fuel) s f =
      let round = Keeps-bind get_size-Apart λ size.
        Keeps-bind (call-Apart (Call.net_read s size)) λ a.
          Keeps-S32_3 a.code (Keeps-pure (val 0))
            (λ n. Keeps-bind (call-Apart (Call.fwrite f a.payload)) λ written.
              Keeps-if (short_write written.code (suc n)) (Keeps-pure minus_one)
                (recv_to_file-Apart fuel s f))
            (λ e.
              Keeps-if (retries e size)
                (Keeps-then (set_size-Apart min_net_buffer_size) (recv_to_file-Apart fuel s f))
                (Keeps-pure (err e))) in
      record { run = λ w i. round.run w i }
