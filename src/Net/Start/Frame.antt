-- ===== src/Net/Start/Frame.antt =====
-- The start of the network, source/net.c, leaves the statics of the server alone.
use ftpii.Base.{ℕ, zero, suc, false, ◌==◌}
use ftpii.Os.{S32, val, err, minus_one, Call, Os, unsigned}
use ftpii.World.{M}
use ftpii.World.Keeps.{waits, Keeps, Keeps-bind, Keeps-then, Keeps-pure, Keeps-if, Keeps-S32}
use ftpii.World.Apart.{Always, Apart, Apart-frame, call-Apart}
use ftpii.Reset.Frame.{check_reset_synchronous-Apart, die-Apart}
use ftpii.Net.Frame.{set_blocking-Apart}
use ftpii.Net.Start.{
  again, negative, await_init, retry_init, await_ip, initialise_network, give_up_server,
  create_server,
}

abbrev Keeping : {A : Type 0} → M A → Type 0
Keeping m = Keeps Always Apart m

module _ ⦃os : Os⦄ where
  await_init-Apart : (fuel : ℕ) (result : S32) → Keeping (await_init fuel result)
  unfolding await_init
  await_init-Apart zero result = record { run = λ w i. waits }
  await_init-Apart (suc fuel) result =
      let round = Keeps-bind check_reset_synchronous-Apart λ over.
        Keeps-if over (Keeps-pure result) (
          Keeps-bind (call-Apart Call.net_init)
            λ a. Keeps-if (again a.code) (await_init-Apart fuel a.code) (Keeps-pure a.code)) in
      record { run = λ w i. round.run w i }

  retry_init-Apart : (fuel : ℕ) (result : S32) → Keeping (retry_init fuel result)
  unfolding retry_init
  retry_init-Apart zero result = record { run = λ w i. waits }
  retry_init-Apart (suc fuel) result =
      let round = Keeps-bind check_reset_synchronous-Apart λ over.
        Keeps-if over (Keeps-pure result) (
          Keeps-if (negative result)
            (Keeps-then (call-Apart Call.net_deinit)
              (Keeps-bind (await_init-Apart fuel result) λ r. retry_init-Apart fuel r))
            (Keeps-pure result)) in
      record { run = λ w i. round.run w i }

  await_ip-Apart : (fuel : ℕ) → Keeping (await_ip fuel)
  unfolding await_ip
  await_ip-Apart zero = record { run = λ w i. waits }
  await_ip-Apart (suc fuel) =
      let round = Keeps-bind (call-Apart Call.net_gethostip) λ ip.
        Keeps-bind check_reset_synchronous-Apart λ over.
          Keeps-if over (Keeps-pure tt)
            (Keeps-if (unsigned ip.code == 0) (await_ip-Apart fuel) (Keeps-pure tt)) in
      record { run = λ w i. round.run w i }

  pub initialise_network-Apart : (fuel : ℕ) → Keeping (initialise_network fuel)
  unfolding initialise_network
  initialise_network-Apart fuel =
      Keeps-bind (retry_init-Apart fuel minus_one)
        λ result. Keeps-if (negative result) (Keeps-pure tt) (await_ip-Apart fuel)

  give_up_server-Apart : (server : ℕ) (ret : S32) → Keeping (give_up_server server ret)
  unfolding give_up_server
  give_up_server-Apart server ret =
      Keeps-then (call-Apart (Call.net_close (val server))) (Keeps-pure ret)

  pub create_server-Apart : (fuel port : ℕ) → Keeping (create_server fuel port)
  unfolding create_server
  create_server-Apart fuel port = Keeps-bind (call-Apart Call.net_socket) λ made.
      Keeps-S32 made.code
        (λ server. Keeps-then (set_blocking-Apart (val server) false) (
          Keeps-bind (call-Apart (Call.net_bind (val server) (os.htons port))) λ bound.
            Keeps-S32 bound.code
              (λ n. Keeps-bind (call-Apart (Call.net_listen (val server) 3)) λ listening.
                Keeps-S32 listening.code (λ m. Keeps-pure (val server))
                  (λ e. give_up_server-Apart server (err e)))
              (λ e. give_up_server-Apart server (err e))))
        (λ e. die-Apart fuel)
