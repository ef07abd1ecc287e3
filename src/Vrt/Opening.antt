-- ===== src/Vrt/Opening.antt =====
-- What `vrt_diropen` of source/vrt.c opens.
use ftpii.Base.{
  ℕ, ◌≡◌, ap, ◌∙◌, ◌+◌, Bool, true, false, [], ◌∷◌, Option, none, some, Bytes, if◌then◌else◌,
}
use ftpii.Os.{Call, Os, handle}
use ftpii.World.{World, Ftp, Dir, virtual, device, M, pure, posix, update, ◌>>=◌}
use ftpii.World.Keeps.{After, ended, After-then}
use ftpii.World.Apart.{posix-Apart}
use ftpii.Vrt.Frame.{malloc-Apart, to_real_path-Apart}
use ftpii.Vrt.{malloc, new_dir, with_virtual_path, vrt_diropen}

-- An iterator of the program's own is new, at the next address; otherwise nothing of the server changed.
abbrev pub Opened : Ftp → Ftp → Option Dir → Type 0
Opened u v none = v ≡ u
Opened u v (some (device h)) = v ≡ u
Opened u v (some (virtual a)) =
    (a ≡ u.next) × (v ≡ record u { dirs = update u.dirs a (some 0); next = a + 1 })

module _ ⦃os : Os⦄ where
  abbrev open_device : Bytes → M (Option Dir)
  open_device real = do
    a ← posix (Call.diropen real)
    pure (elim (handle a.code) [ some h ↦ some (device h) | none ↦ none ])

  of_handle :
      (o : Option ℕ) (u v : Ftp)
      → v ≡ u
      → Opened u v (elim o [ some h ↦ some (device h) | none ↦ none ])
  of_handle none u v e = e
  of_handle (some h) u v e = e

  open_device-Opened :
      (real : Bytes) (u : Ftp) (w : World)
      → w.ftp ≡ u
      → After (λ r w'. Opened u w'.ftp r) (open_device real w)
  open_device-Opened real u w e =
      After-then ((posix-Apart (Call.diropen real)).run w tt)
        λ a w1 h. ended (of_handle (handle a.code) u w1.ftp (h.ftp ∙ e))

  reached :
      (r : Option Bytes) (u : Ftp) (w : World)
      → w.ftp ≡ u
      → After
          (λ r w'. Opened u w'.ftp r)
          ((elim r as (λ _. M (Option Dir)) [
            | none ↦ pure none
            | some [] ↦ pure none
            | some (c ∷ s) ↦ open_device (c ∷ s)
          ])
            w)
  reached none u w e = ended e
  reached (some []) u w e = ended e
  reached (some (c ∷ s)) u w e = open_device-Opened (c ∷ s) u w e

  with_device-Opened :
      (cwd path : Bytes) (u : Ftp) (w : World)
      → w.ftp ≡ u
      → After (λ r w'. Opened u w'.ftp r) (with_virtual_path cwd open_device path none w)
  unfolding with_virtual_path
  with_device-Opened cwd path u w e =
      After-then ((to_real_path-Apart cwd path).run w tt) λ r w1 h. reached r u w1 (h.ftp ∙ e)

  new_dir-Opened :
      (u : Ftp) (b : Bool) (w : World)
      → w.ftp ≡ u
      → After
          (λ r w'. Opened u w'.ftp r)
          ((if b then (do d ← new_dir; pure (some d)) else pure none) w)
  unfolding new_dir
  new_dir-Opened u true w e = ended (
    ap (λ (f : Ftp). f.next) e,
    ap (λ (f : Ftp). record f { dirs = update f.dirs w.ftp.next (some 0); next = w.ftp.next + 1 })
        e,
  )
  new_dir-Opened u false w e = ended e

  by_path :
      (r : Option Bytes) (cwd path : Bytes) (u : Ftp) (w : World)
      → w.ftp ≡ u
      → After
          (λ r w'. Opened u w'.ftp r)
          ((elim r as (λ _. M (Option Dir)) [
            | none ↦ pure none
            | some [] ↦ do
              ok ← malloc os.sizeof_dir_iter
              if ok then (do d ← new_dir; pure (some d)) else pure none
            | some (_ ∷ _) ↦ with_virtual_path cwd open_device path none
          ])
            w)
  by_path none cwd path u w e = ended e
  by_path (some []) cwd path u w e =
      After-then ((malloc-Apart os.sizeof_dir_iter).run w tt)
        λ ok w1 h. new_dir-Opened u ok w1 (h.ftp ∙ e)
  by_path (some (c ∷ s)) cwd path u w e = with_device-Opened cwd path u w e

  pub vrt_diropen-Opened :
      (cwd path : Bytes) (w : World)
      → After (λ r w'. Opened w.ftp w'.ftp r) (vrt_diropen cwd path w)
  unfolding vrt_diropen
  vrt_diropen-Opened cwd path w =
      After-then ((to_real_path-Apart cwd path).run w tt)
        λ r w1 h. by_path r cwd path w.ftp w1 h.ftp
