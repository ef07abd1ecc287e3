-- ===== src/Net/Start.antt =====
-- `initialise_network` and `create_server` of source/net.c. The fuel is for the loops, which wait for
-- the network or the user.
pub mod Frame
use ftpii.Base.{ℕ, zero, suc, Bool, true, false, if◌then◌else◌, ◌==◌}
use ftpii.Os.{S32, val, err, minus_one, eagain, Call, Os, unsigned}
use ftpii.World.{M, pure, stuck, call, ◌>>=◌, ◌>>◌}
use ftpii.Reset.{check_reset_synchronous, die}
use ftpii.Net.{set_blocking}

abbrev again : S32 → Bool
again (err eagain) = true
again _ = false

abbrev negative : S32 → Bool
negative (val n) = false
negative (err e) = true

module _ ⦃os : Os⦄ where
  -- `while (!check_reset_synchronous() && (result = net_init()) == -EAGAIN);`
  unfoldable pub await_init : ℕ → S32 → M S32
  unfolding call
  await_init zero result w = stuck
  await_init (suc fuel) result w =
      (do
        over ← check_reset_synchronous
        if over then pure result else (do
          a ← call Call.net_init
          if again a.code then await_init fuel a.code else pure a.code))
        w

  -- `while (!check_reset_synchronous() && result < 0)`
  unfoldable pub retry_init : ℕ → S32 → M S32
  unfolding call
  retry_init zero result w = stuck
  retry_init (suc fuel) result w =
      (do
        over ← check_reset_synchronous
        if over
            then pure result
            else if negative result
            then (do
              call Call.net_deinit
              result' ← await_init fuel result
              retry_init fuel result')
            else pure result)
        w

  -- `do … while (!check_reset_synchronous() && !ip)`
  unfoldable pub await_ip : ℕ → M (Unit {0})
  unfolding call
  await_ip zero w = stuck
  await_ip (suc fuel) w =
      (do
        ip ← call Call.net_gethostip
        over ← check_reset_synchronous
        if over then pure tt else if unsigned ip.code == 0 then await_ip fuel else pure tt)
        w

  unfoldable pub initialise_network : ℕ → M (Unit {0})
  initialise_network fuel = do
    result ← retry_init fuel minus_one
    if negative result then pure tt else await_ip fuel

  -- the failing branches behind the socket
  unfoldable pub give_up_server : ℕ → S32 → M S32
  unfolding call
  give_up_server server ret = do call (Call.net_close (val server)); pure ret

  unfoldable pub create_server : ℕ → ℕ → M S32
  unfolding call
  create_server fuel port = do
    made ← call Call.net_socket
    elim made.code [
      | err _ ↦ die fuel
      | val server ↦ do
        set_blocking (val server) false
        bound ← call (Call.net_bind (val server) (os.htons port))
        elim bound.code [
          | err e ↦ give_up_server server (err e)
          | val _ ↦ do
            listening ← call (Call.net_listen (val server) 3)
            elim listening.code [
              | err e ↦ give_up_server server (err e)
              | val _ ↦ pure (val server)
            ]
        ]
    ]
