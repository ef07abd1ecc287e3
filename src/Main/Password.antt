-- ===== src/Main/Password.antt =====
-- The password from the place that the program was started from, source/ftpii.c.
use ftpii.Base.{
  ℕ, zero, suc, ◌+◌, ◌<◌, ◌≡◌, refl, sym, ap, ◌∙◌, subst, Bool, true, false, ◌∷◌, ◌++◌, none, some,
  arith, Bytes, drop, length, length-append, starts_with_nocase, if◌then◌else◌,
}
use ftpii.Os.{Code, S32, val, err, Call, Answer, Os}
use ftpii.World.{World, M, Out, done, exited, call, pure, ◌>>◌}
use ftpii.World.Keeps.{After, waits, leaves, After-then, After-if}
use ftpii.Reset.{maybe_poweroff, die}
use ftpii.Reset.Frame.{check_reset_synchronous-Apart, maybe_poweroff-Apart}
use ftpii.Path.Components.{IsName}
use ftpii.Fs.Names.{basename}
use ftpii.Fs.Names.Parts.{dirname-basename}
use ftpii.Ftp.Account.{set_ftp_password, assign_password}
use ftpii.Main.{app_dir_prefix, set_password_from_executable}

module _ ⦃os : Os⦄ where
  -- The program does not come back: it waits for the reset button, or it has ended.
  abbrev pub Dies : {A : Type 0} → Out A → Type 0
  Dies o = After (λ _ _. ⊥) o

  die-Dies : {A : Type 0} (fuel : ℕ) (w : World) → Dies (die {A = A} fuel w)
  unfolding die call
  die-Dies zero w = waits
  die-Dies (suc fuel) w = After-then (check_reset_synchronous-Apart.run w tt) λ over v _.
      After-if over (do maybe_poweroff; λ u. exited u) (do call Call.vsync; die fuel)
        (λ _. After-then (maybe_poweroff-Apart.run v tt) λ _ u _. leaves) (λ _. die-Dies fuel _)

  -- The request for the memory of a password.
  abbrev pub asked_memory : Bytes → World → Answer
  asked_memory password w = os.respond w.trace (Call.malloc (length password + 1))

  -- The state with another password, for which memory was asked.
  abbrev pub with_password : Bytes → World → World
  with_password password w = record w {
    trace =
        record { call = Call.malloc (length password + 1); answer = asked_memory password w }
        ∷ w.trace;
    ftp = record w.ftp { password = some password };
  }

  -- What setting the password does: by whether there is memory for it.
  abbrev pub SetsPassword : Bytes → World → Out (Unit {0}) → Type 0
  SetsPassword password w o =
      ((n : ℕ) → (asked_memory password w).code ≡ val n → o ≡ done tt (with_password password w))
      × ((e : Code) → (asked_memory password w).code ≡ err e → Dies o)

  by_memory :
      (x : S32) (fuel : ℕ) (password : Bytes) (v : World)
      → ((n : ℕ)
          → x ≡ val n
          → (elim x as (λ _. M (Unit {0})) [
            | err _ ↦ do assign_password none; die fuel
            | val _ ↦ assign_password (some password)
          ])
              v
            ≡ done tt (record v { ftp = record v.ftp { password = some password } }))
        × ((e : Code)
            → x ≡ err e
            → Dies (
                (elim x as (λ _. M (Unit {0})) [
                  | err _ ↦ do assign_password none; die fuel
                  | val _ ↦ assign_password (some password)
                ])
                  v))
  unfolding assign_password
  by_memory (val n) fuel password v = (λ _ _. refl, λ e h. absurd (cc))
  by_memory (err e) fuel password v = (λ n h. absurd (cc), λ _ _. die-Dies fuel _)

  set_ftp_password-SetsPassword :
      (fuel : ℕ) (password : Bytes) (w : World)
      → SetsPassword password w (set_ftp_password fuel (some password) w)
  unfolding set_ftp_password call assign_password
  set_ftp_password-SetsPassword fuel password w =
      by_memory (asked_memory password w).code fuel password _

  set_or_not :
      (b : Bool) (fuel : ℕ) (password : Bytes) (w : World) (o : Out (Unit {0}))
      → o ≡ (if b then set_ftp_password fuel (some password) else pure tt) w
      → (b ≡ true → SetsPassword password w o) × (b ≡ false → o ≡ done tt w)
  set_or_not true fuel password w o e = (
    λ _. subst (SetsPassword password w) (sym e) (set_ftp_password-SetsPassword fuel password w),
    λ h. absurd (cc),
  )
  set_or_not false fuel password w o e = (λ h. absurd (cc), λ _. e)

  -- Let the program be started from `top`/`app`/`file`, where neither of the last two names holds a
  -- slash, and the path with its terminator fits in MAXPATHLEN bytes. If `app` begins with ftpii_, in any
  -- case of letters, and there is memory for it, the password becomes what stands behind this in `app`;
  -- without memory the program does not come back. If `app` begins otherwise, nothing happens. In no case
  -- where it comes back does anything else of the state differ, but that the memory was asked for.
  pub set_password_from_executable-directory :
      (fuel : ℕ) (top app file : Bytes) (w : World)
      → IsName app
      → IsName file
      → length ((top ++ b'/' ∷ app) ++ b'/' ∷ file) < os.maxpathlen
      → (starts_with_nocase app_dir_prefix app ≡ true
          → SetsPassword
              (drop 6 app)
              w
              (set_password_from_executable fuel ((top ++ b'/' ∷ app) ++ b'/' ∷ file) w))
        × (starts_with_nocase app_dir_prefix app ≡ false
            → set_password_from_executable fuel ((top ++ b'/' ∷ app) ++ b'/' ∷ file) w ≡ done tt w)
  unfolding set_password_from_executable
  set_password_from_executable-directory fuel top app file w h k fits =
      let dir = top ++ b'/' ∷ app in
      let l : length dir < os.maxpathlen = omega (arith, fits, length-append dir (b'/' ∷ file)) in
      let parent = (dirname-basename dir file k fits).0 in
      let name = (dirname-basename top app h l).1 in
      set_or_not (starts_with_nocase app_dir_prefix app) fuel (drop 6 app) w _ (
        ap
          (λ (d : Bytes).
            (if starts_with_nocase app_dir_prefix d
                then set_ftp_password fuel (some (drop (length app_dir_prefix) d))
                else pure tt)
              w)
          (ap basename parent ∙ name))
