-- ===== src/Ftp/Cleanup/Closings.antt =====
-- Which calls of a history close a socket, a file or a directory, and the steps of source/ftp.c that do.
use ftpii.Base.{
  ℕ, ◌≡◌, refl, sym, ap, ◌∙◌, Bool, true, false, List, [], ◌∷◌, ◌++◌, append_assoc, Option, none,
  some, All, if◌then◌else◌,
}
use ftpii.Os.{
  S32, val, err, Call, net_write, net_getfl, net_setfl, net_close, fclose, dirclose, Event, Os,
}
use ftpii.World.{World, Client, Arg, dir, file, virtual, device, load, store, call, M, pure, ◌>>◌}
use ftpii.World.Keeps.{After, ended, After-then, After-Ensures}
use ftpii.World.Frame.{Grows}
use ftpii.Net.{net_close_blocking}
use ftpii.Net.Transfer.{Writes, set_blocking-Quiet}
use ftpii.Ftp.Reply.{modify}
use ftpii.Ftp.Cleanup.{same_socket, free_client, leave_table, close_data_socket}

-- The call, if it closes a socket, a file or a directory.
abbrev pub closing : Call → List Call
closing (net_close s) = net_close s ∷ []
closing (fclose f) = fclose f ∷ []
closing (dirclose d) = dirclose d ∷ []
closing _ = []

-- The calls of a history that close something, the newest first.
abbrev pub closings : List Event → List Call
closings [] = []
closings (e ∷ past) = closing e.call ++ closings past

-- The history grew, and exactly these of its new calls close something.
pub record Closes (cs : List Call) (w w' : World) : Type 0 where
  pub new : List Event
  pub grown : w'.trace ≡ new ++ w.trace
  pub exactly : closings new ≡ cs

-- What closes the argument of the client's callback: a call, unless it is an iterator of the program's
-- own.
abbrev pub arg_closing : Option Arg → List Call
arg_closing none = []
arg_closing (some (dir (virtual a))) = []
arg_closing (some (dir (device d))) = dirclose d ∷ []
arg_closing (some (file f)) = fclose f ∷ []

abbrev pub socket_closing : S32 → List Call
socket_closing (val s) = net_close (val s) ∷ []
socket_closing (err _) = []

-- The data socket, if it is not the passive one.
abbrev pub data_closing : S32 → S32 → List Call
data_closing (val s) passive = if same_socket s passive then [] else net_close (val s) ∷ []
data_closing (err _) passive = []

-- What a client holds, each once, in the order in which it is closed from the last.
abbrev pub held : Client → List Call
held c =
    socket_closing c.passive_socket
    ++ ((arg_closing c.data_connection_callback_arg ++ data_closing c.data_socket c.passive_socket)
        ++ net_close c.socket ∷ [])

closings-append : (a b : List Event) → closings (a ++ b) ≡ closings a ++ closings b
closings-append [] b = refl
closings-append (e ∷ a) b =
    ap (◌++◌ (closing e.call)) (closings-append a b)
    ∙ sym (append_assoc (closing e.call) (closings a) (closings b))

pub Closes-none : {w w' : World} → w'.trace ≡ w.trace → Closes [] w w'
Closes-none e = record { new = []; grown = e; exactly = refl }

pub Closes-trans :
    {a b : List Call} {u v w : World} → Closes a u v → Closes b v w → Closes (b ++ a) u w
Closes-trans {u} c d = record {
  new = d.new ++ c.new;
  grown = d.grown ∙ ap (◌++◌ d.new) c.grown ∙ sym (append_assoc d.new c.new u.trace);
  exactly =
      closings-append d.new c.new ∙ ap (λ x. x ++ closings c.new) d.exactly ∙ ap (◌++◌ _) c.exactly;
}

Writes-closing : (s : S32) (c : Call) → Writes s c → closing c ≡ []
Writes-closing s (net_write t b) h = refl
Writes-closing s (net_getfl t) h = refl
Writes-closing s (net_setfl t flags) h = refl
Writes-closing s _ h = absurd h

Writes-closings : (s : S32) (es : List Event) → All (λ e. Writes s e.call) es → closings es ≡ []
Writes-closings s [] h = refl
Writes-closings s (e ∷ es) h =
    ap (λ x. x ++ closings es) (Writes-closing s e.call h.0) ∙ Writes-closings s es h.1

Writes-Closes : {s : S32} {w w' : World} → Grows (Writes s) w w' → Closes [] w w'
Writes-Closes {s} g = record {
  new = g.new;
  grown = g.grown;
  exactly = Writes-closings s g.new g.made;
}

pub modify-Closes :
    (p : ℕ) (f : Client → Client) (c : Client) (w : World)
    → w.ftp.heap p ≡ some c
    → After (λ _ w'. Closes [] w w') (modify p f w)
unfolding modify
modify-Closes p f c w h = rw (h, load) (rw (h, store) (ended (Closes-none refl)))

pub free_client-Closes :
    (p : ℕ) (c : Client) (w : World)
    → w.ftp.heap p ≡ some c
    → After (λ _ w'. Closes [] w w') ((free_client p >> leave_table p) w)
unfolding free_client leave_table
free_client-Closes p c w h = rw (h, free_client) (ended (Closes-none refl))

module _ ⦃os : Os⦄ where
  pub net_close_blocking-Closes :
      (s : S32) (w : World)
      → After (λ _ w'. Closes (net_close s ∷ []) w w') (net_close_blocking s w)
  unfolding net_close_blocking call
  net_close_blocking-Closes s w = After-then (After-Ensures (set_blocking-Quiet s true w)) λ _ w1 q.
      ended (
        Closes-trans (Writes-Closes q.talks.grows)
          (record { new = _ ∷ []; grown = refl; exactly = refl }))

  unless_same-Closes :
      (b : Bool) (s : S32) (w : World)
      → After
          (λ _ w'. Closes (if b then [] else net_close s ∷ []) w w')
          ((if b then pure tt else (do net_close_blocking s; pure tt)) w)
  unless_same-Closes true s w = ended (Closes-none refl)
  unless_same-Closes false s w = After-then (net_close_blocking-Closes s w) λ _ w1 c. ended c

  by_socket-Closes :
      (s passive : S32) (w : World)
      → After
          (λ _ w'. Closes (data_closing s passive) w w')
          ((elim s as (λ _. M (Unit {0})) [
            | val n ↦
                if same_socket n passive then pure tt else (do net_close_blocking (val n); pure tt)
            | err _ ↦ pure tt
          ])
            w)
  by_socket-Closes (val n) passive w = unless_same-Closes (same_socket n passive) (val n) w
  by_socket-Closes (err e) passive w = ended (Closes-none refl)

  pub close_data_socket-Closes :
      (c : Client) (w : World)
      → After
          (λ _ w'. Closes (data_closing c.data_socket c.passive_socket) w w')
          (close_data_socket c w)
  unfolding close_data_socket
  close_data_socket-Closes c w = by_socket-Closes c.data_socket c.passive_socket w
