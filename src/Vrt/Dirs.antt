-- ===== src/Vrt/Dirs.antt =====
-- The directory iterators of source/vrt.c: which of them an operation opens, moves or closes.
use ftpii.Base.{ℕ, ◌≡◌, refl, ap, ◌+◌, if◌then◌else◌, List, [], ◌∷◌, none, some, drop}
use ftpii.Os.{Partition, Stat, Call, Os}
use ftpii.World.{World, Ftp, virtual, device, update, call}
use ftpii.World.Triple.{Ensures, ended}
use ftpii.World.Keeps.{After, After-then, Keeps, Keeps-bind, Keeps-pure, Keeps-if}
use ftpii.World.Apart.{Always, Apart, Apart-frame, call-Apart}
use ftpii.Fs.Table.{virtual_partitions}
use ftpii.Fs.Frame.{mounted-Apart}
use ftpii.Vrt.{load_dir, store_dir, next_mounted, vrt_dirnext, vrt_dirclose, returns}

module _ ⦃os : Os⦄ where
  pub vrt_dirclose-virtual :
      (a cursor : ℕ) (w : World)
      → w.ftp.dirs a ≡ some cursor
      → Ensures
          (vrt_dirclose (virtual a) w)
          (λ _ w'. w'.ftp ≡ record w.ftp { dirs = update w.ftp.dirs a none })
  unfolding vrt_dirclose load_dir store_dir
  vrt_dirclose-virtual a cursor w h = rw (h, load_dir) (ended refl)

  -- It frees memory, and makes no call that closes anything.
  pub vrt_dirclose-trace :
      (a cursor : ℕ) (w : World)
      → w.ftp.dirs a ≡ some cursor
      → After (λ _ w'. w'.trace ≡ w.trace) (vrt_dirclose (virtual a) w)
  unfolding vrt_dirclose load_dir store_dir
  vrt_dirclose-trace a cursor w h = rw (h, load_dir) (After.ended refl)

  pub vrt_dirclose-device :
      (d : ℕ) (w : World) → Ensures (vrt_dirclose (device d) w) (λ _ w'. w'.ftp ≡ w.ftp)
  unfolding vrt_dirclose call
  vrt_dirclose-device d w = ended refl

  next_mounted-Apart :
      (cursor : ℕ) (ps : List Partition) → Keeps Always Apart (next_mounted cursor ps)
  unfolding next_mounted
  next_mounted-Apart cursor [] = record {
    run = λ w i. After.ended (record { ftp = refl; same = refl });
  }
  next_mounted-Apart cursor (p ∷ ps) =
      let round = Keeps-bind (mounted-Apart p) λ yes.
        Keeps-if yes (Keeps-pure (some p, cursor + 1)) (next_mounted-Apart (cursor + 1) ps) in
      record { run = λ w i. round.run w i }

  -- The iterator's cursor may move, and nothing else of the server's does.
  pub vrt_dirnext-virtual :
      (a cursor : ℕ) (st : Stat) (w : World)
      → w.ftp.dirs a ≡ some cursor
      → After
          (λ _ w'.
            (cursor' : ℕ) × (w'.ftp ≡ record w.ftp { dirs = update w.ftp.dirs a (some cursor') }))
          (vrt_dirnext (virtual a) st w)
  unfolding vrt_dirnext load_dir store_dir
  vrt_dirnext-virtual a cursor st w h =
      rw (h, load_dir)
        (After-then ((next_mounted-Apart cursor (drop cursor virtual_partitions)).run w tt)
          λ r w1 e.
            After.ended
              (r.1, ap (λ (f : Ftp). record f { dirs = update f.dirs a (some r.1) }) e.ftp))

  pub vrt_dirnext-device : (d : ℕ) (st : Stat) → Keeps Always Apart (vrt_dirnext (device d) st)
  unfolding vrt_dirnext
  vrt_dirnext-device d st =
      Keeps-bind (call-Apart (Call.dirnext d))
        λ a. Keeps-pure (if returns a.code then some (a.payload, a.info) else none)
