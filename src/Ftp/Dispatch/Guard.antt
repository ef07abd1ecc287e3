-- ===== src/Ftp/Dispatch/Guard.antt =====
-- A client that has not logged in, source/ftp.c: what its commands can do.
use ftpii.Base.{
  ℕ, ◌≡◌, refl, sym, ap, ◌∙◌, Bool, true, false, [], ◌∷◌, Option, some, Bytes, codes, equal,
  equal_iff, to_lower, map, equal_nocase, if◌then◌else◌, get_elem?, inl, inr, Bool-cases,
}
use mathlib.Core.Bool.{true≢false}
use ftpii.Os.{S32, val, err, Os}
use ftpii.World.{World, Client, Out, done, load}
use ftpii.World.Triple.{Ensures, ended, Ensures-mono, Ensures-bind}
use ftpii.Ftp.Split.{field}
use ftpii.Ftp.Split.Fields.{fields, fields_at, skip}
use ftpii.Ftp.Split.Correct.{split-fields}
use ftpii.Ftp.Reply.{Handler, write_reply}
use ftpii.Ftp.Session.{
  Serves, Serves_refl, Serves-trans, Serves-mono, modify-Serves, write_reply-Serves,
  close_passive_socket-Serves,
}
use ftpii.Ftp.Account.{
  compare_ftp_password, ftp_user, ftp_pass, ftp_rein, ftp_quit, ftp_noop, ftp_needauth,
}
use ftpii.Ftp.Dispatch.{
  find_command, run_handler, dispatch_to_handler, unauthenticated_commands,
  unauthenticated_handlers, process_command,
}

module _ ⦃os : Os⦄ where
  -- What a command of such a client may do, with the password `password` and the argument `rest`.
  abbrev Harmless : Handler → Bytes → Type 0
  Harmless handler rest =
      (p : ℕ) (c : Client) (w : World)
      → w.ftp.heap p ≡ some c
      → c.authenticated ≡ false
      → Ensures (handler p rest w) (λ _ w'. Serves p w w' (λ d. d.authenticated ≡ false))

  keeps : (c : Client) → c.authenticated ≡ false → (d : Client) → d ≡ c → d.authenticated ≡ false
  keeps c h d e = ap (λ x. x.authenticated) e ∙ h

  reply-Harmless : (code : ℕ) (msg rest : Bytes) → Harmless (λ p _. write_reply p code msg) rest
  reply-Harmless code msg rest p c w h a =
      Ensures-mono (write_reply-Serves p code msg c w h) λ _ w' s. Serves-mono s (keeps c a)

  ftp_user-Harmless : (rest : Bytes) → Harmless ftp_user rest
  unfolding ftp_user
  ftp_user-Harmless rest = reply-Harmless _ _ rest

  ftp_noop-Harmless : (rest : Bytes) → Harmless ftp_noop rest
  unfolding ftp_noop
  ftp_noop-Harmless rest = reply-Harmless _ _ rest

  ftp_needauth-Harmless : (rest : Bytes) → Harmless ftp_needauth rest
  unfolding ftp_needauth
  ftp_needauth-Harmless rest = reply-Harmless _ _ rest

  ftp_quit-Harmless : (rest : Bytes) → Harmless ftp_quit rest
  unfolding ftp_quit
  ftp_quit-Harmless rest p c w h a = Ensures-bind (reply-Harmless _ _ rest p c w h a) λ r w' s.
      elim r
        as (λ r.
          Ensures
            (elim r as (λ _. World → Out S32) [
              | err e ↦ λ v. done (err e) v
              | val _ ↦ λ v. done _ v
            ]
              w')
            (λ _ w'. Serves p w w' (λ d. d.authenticated ≡ false))) [
              | val n ↦ ended s
              | err e ↦ ended s
            ]

  ftp_rein-Harmless : (rest : Bytes) → Harmless ftp_rein rest
  unfolding ftp_rein
  ftp_rein-Harmless rest p c w h a = Ensures-bind (close_passive_socket-Serves p c w h) λ _ w1 s.
      Ensures-bind (modify-Serves p _ s.client w1 s.here) λ _ w2 t.
        Ensures-mono
          (reply-Harmless _ _ rest p t.client w2 t.here (ap (λ x. x.authenticated) t.becomes))
          λ _ w3 u. Serves-trans s (Serves-trans t u)

  ftp_pass-Serves :
      (rest : Bytes) (p : ℕ) (c : Client) (w : World)
      → w.ftp.heap p ≡ some c
      → c.authenticated ≡ false
      → Ensures
          (ftp_pass p rest w)
          (λ _ w'. Serves p w w' (λ d. d.authenticated ≡ compare_ftp_password w.ftp.password rest))
  unfolding ftp_pass
  ftp_pass-Serves rest p c w h a = elim (Bool-cases (compare_ftp_password w.ftp.password rest)) [
    | inl right ↦ rw right (
        Ensures-bind (modify-Serves p _ c w h) λ _ w1 s.
          Ensures-mono (write_reply-Serves p _ _ s.client w1 s.here) λ _ w2 t.
            Serves-trans s (Serves-mono t λ d e. ap (λ x. x.authenticated) (e ∙ s.becomes)))
    | inr wrong ↦ rw wrong (reply-Harmless _ _ rest p c w h a)
  ]

-- No word is both names of commands.
one_name :
    (a b cmd : Bytes)
    → equal_nocase a b ≡ false
    → equal_nocase a cmd ≡ true
    → equal_nocase b cmd ≡ false
unfolding equal_nocase
one_name a b cmd d e = elim (Bool-cases (equal (map to_lower b) (map to_lower cmd))) [
  | inr differs ↦ differs
  | inl same ↦ absurd (
      true≢false (
        sym (
          (equal_iff (map to_lower a) (map to_lower b)).1 (
            (equal_iff (map to_lower a) (map to_lower cmd)).0 e
            ∙ sym ((equal_iff (map to_lower b) (map to_lower cmd)).0 same)))
        ∙ d))
]

-- The command `cmd` with the argument `rest` is a login.
abbrev pub is_login : Option Bytes → Bytes → Bytes → Bool
is_login password cmd rest =
    if equal_nocase (codes "PASS") cmd then compare_ftp_password password rest else false

user_is_not_pass :
    (cmd : Bytes) → equal_nocase (codes "USER") cmd ≡ true → equal_nocase (codes "PASS") cmd ≡ false
unfolding equal_nocase
user_is_not_pass cmd e = one_name (codes "USER") (codes "PASS") cmd refl e

-- The two fields of a command line.
abbrev pub first : Bytes → Bytes
first line = field (fields b' ' 1 line) 0

abbrev pub second : Bytes → Bytes
second line = field (fields b' ' 1 line) 1

is_login_empty : (password : Option Bytes) → is_login password (first []) (second []) ≡ false
unfolding equal_nocase fields fields_at skip
is_login_empty password = refl

module _ ⦃os : Os⦄ where
  run_handler-Serves :
      (cmd rest : Bytes) (p : ℕ) (c : Client) (w : World)
      → w.ftp.heap p ≡ some c
      → c.authenticated ≡ false
      → Ensures
          (run_handler
            (get_elem? unauthenticated_handlers (find_command cmd unauthenticated_commands))
            p
            rest
            w)
          (λ _ w'. Serves p w w' (λ d. d.authenticated ≡ is_login w.ftp.password cmd rest))
  unfolding find_command run_handler
  run_handler-Serves cmd rest p c w h a = elim (Bool-cases (equal_nocase (codes "USER") cmd)) [
    | inl user ↦ rw (user, user_is_not_pass cmd user) (ftp_user-Harmless rest p c w h a)
    | inr no_user ↦ elim (Bool-cases (equal_nocase (codes "PASS") cmd)) [
      | inl pass ↦ rw (no_user, pass) (ftp_pass-Serves rest p c w h a)
      | inr no_pass ↦ elim (Bool-cases (equal_nocase (codes "QUIT") cmd)) [
        | inl quit ↦ rw (no_user, no_pass, quit) (ftp_quit-Harmless rest p c w h a)
        | inr no_quit ↦ elim (Bool-cases (equal_nocase (codes "REIN") cmd)) [
          | inl rein ↦ rw (no_user, no_pass, no_quit, rein) (ftp_rein-Harmless rest p c w h a)
          | inr no_rein ↦ elim (Bool-cases (equal_nocase (codes "NOOP") cmd)) [
            | inl noop ↦
                rw (no_user, no_pass, no_quit, no_rein, noop) (ftp_noop-Harmless rest p c w h a)
            | inr no_noop ↦
                rw (no_user, no_pass, no_quit, no_rein, no_noop)
                  (ftp_needauth-Harmless rest p c w h a)
          ]
        ]
      ]
    ]
  ]

  -- Let `p` be a client that has not logged in. Whatever line it sends, `process_command` comes back
  -- and follows no dead pointer; it only sends on sockets, sets their blocking mode or closes them;
  -- it changes no other client and no static variable of ftp.c, fs.c, dvd.c and reset.c; and the
  -- client is logged in afterwards exactly if the line's first word is PASS, in any case of letters,
  -- and the rest of the line is the password, or no password is set.
  pub process_command-Guarded :
      (fuel : ℕ) (line : Bytes) (p : ℕ) (c : Client) (w : World)
      → w.ftp.heap p ≡ some c
      → c.authenticated ≡ false
      → Ensures (process_command fuel p line w) (λ _ w'.
        Serves p w w' (λ d. d.authenticated ≡ is_login w.ftp.password (first line) (second line)))
  unfolding process_command dispatch_to_handler
  process_command-Guarded fuel [] p c w h a =
      ended (Serves-mono (Serves_refl h) λ d e. keeps c a d e ∙ sym (is_login_empty w.ftp.password))
  process_command-Guarded fuel (b ∷ line) p c w h a =
      rw (h, load, a, split-fields (b ∷ line) b' ' 1) (run_handler-Serves _ _ p c w h a)
