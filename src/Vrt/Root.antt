-- ===== src/Vrt/Root.antt =====
-- What `vrt_dirnext` of source/vrt.c yields in the root: the mounted devices.
use ftpii.Base.{
  ℕ, zero, suc, ◌+◌, ◌≡◌, refl, sym, ap, subst, ◌∙◌, Bool, true, false, List, [], ◌∷◌, Option, none,
  some, arith, drop, Bytes, ==-refl, if◌then◌else◌,
}
use ftpii.Os.{S32, val, err, Partition, Stat, Call, Answer, Event, Os}
use ftpii.World.{World, Ftp, M, done, pure, virtual, update, call, posix, set_errno, ◌>>◌}
use ftpii.World.Triple.{Ensures, ended, Ensures-mono, Ensures-bind}
use ftpii.Fs.Table.{virtual_partitions, alias, prefix}
use ftpii.Fs.{mounted}
use ftpii.Vrt.{load_dir, store_dir, next_mounted, vrt_dirnext}

abbrev pub answers : S32 → Bool
answers (val n) = true
answers (err e) = false

-- The rows that are there, in their order.
abbrev pub present : (Partition → Bool) → List Partition → List Partition
present there [] = []
present there (p ∷ ps) = if there p then p ∷ present there ps else present there ps

drop-suc :
    {A : Type 0} (k : ℕ) (xs : List A) (x : A) (rest : List A)
    → drop k xs ≡ x ∷ rest
    → drop (suc k) xs ≡ rest
drop-suc zero [] x rest h = cc
drop-suc zero (y ∷ ys) x rest h = cc
drop-suc (suc k) [] x rest h = cc
drop-suc (suc k) (y ∷ ys) x rest h = drop-suc k ys x rest h

module _ ⦃os : Os⦄ where
  -- Which devices are mounted does not change: a device's root opens if and only if it is there.
  abbrev pub Stable : (Partition → Bool) → Type 0
  Stable there =
      (past : List Event) (p : Partition)
      → answers (os.respond past (Call.diropen (prefix p))).code ≡ there p

  posix_rest :
      (x : S32) (a : Answer) (v : World)
      → Ensures
          ((elim x as (λ _. M Answer) [ val n ↦ pure a | err e ↦ do set_errno e; pure a ]) v)
          (λ b w'. (b ≡ a) × (w'.ftp ≡ v.ftp))
  posix_rest (val n) a v = ended (refl, refl)
  posix_rest (err e) a v = ended (refl, refl)

  close_rest :
      (x : S32) (v : World)
      → Ensures
          ((elim x as (λ _. M Bool) [
            | val d ↦ do call (Call.dirclose d); pure true
            | err _ ↦ pure false
          ])
            v)
          (λ b w'. (b ≡ answers x) × (w'.ftp ≡ v.ftp))
  unfolding call
  close_rest (val n) v = ended (refl, refl)
  close_rest (err e) v = ended (refl, refl)

  mounted-there :
      (there : Partition → Bool) (p : Partition) (w : World)
      → Stable there
      → Ensures (mounted p w) (λ b w'. (b ≡ there p) × (w'.ftp ≡ w.ftp))
  unfolding mounted posix call
  mounted-there there p w s =
      let a = os.respond w.trace (Call.diropen (prefix p)) in
      Ensures-bind (posix_rest a.code a _) λ b w1 t.
        Ensures-mono (close_rest b.code w1)
          λ r w2 u. (u.0 ∙ ap (λ (x : Answer). answers x.code) t.0 ∙ s w.trace p, u.1 ∙ t.1)

  -- The row that the loop stops at is the first that is there, and the cursor then stands behind it.
  abbrev pub Next : (Partition → Bool) → List Partition → Option Partition × ℕ → Type 0
  Next there ps (none, cursor) = present there ps ≡ []
  Next there ps (some p, cursor) =
      present there ps ≡ p ∷ present there (drop cursor virtual_partitions)

  first-Next :
      (there : Partition → Bool) (cursor : ℕ) (p : Partition) (ps : List Partition)
      → there p ≡ true
      → drop (cursor + 1) virtual_partitions ≡ ps
      → Next there (p ∷ ps) (some p, cursor + 1)
  first-Next there cursor p ps e h = rw (e, h) refl

  later-Next :
      (there : Partition → Bool) (p : Partition) (ps : List Partition) (r : Option Partition × ℕ)
      → there p ≡ false
      → Next there ps r
      → Next there (p ∷ ps) r
  later-Next there p ps (none, cursor) e h = rw e h
  later-Next there p ps (some q, cursor) e h = rw e h

  step-Next :
      (there : Partition → Bool) (cursor : ℕ) (p : Partition) (ps : List Partition) (b : Bool)
      (v : World)
      → b ≡ there p
      → drop (cursor + 1) virtual_partitions ≡ ps
      → Ensures (next_mounted (cursor + 1) ps v) (λ r w'. Next there ps r × (w'.ftp ≡ v.ftp))
      → Ensures
          ((if b then pure (some p, cursor + 1) else next_mounted (cursor + 1) ps) v)
          (λ r w'. Next there (p ∷ ps) r × (w'.ftp ≡ v.ftp))
  step-Next there cursor p ps true v e h ih = ended (first-Next there cursor p ps (sym e) h, refl)
  step-Next there cursor p ps false v e h ih =
      Ensures-mono ih λ r w' t. (later-Next there p ps r (sym e) t.0, t.1)

  next_mounted-Next :
      (there : Partition → Bool) (cursor : ℕ) (ps : List Partition) (w : World)
      → Stable there
      → drop cursor virtual_partitions ≡ ps
      → Ensures (next_mounted cursor ps w) (λ r w'. Next there ps r × (w'.ftp ≡ w.ftp))
  unfolding next_mounted
  next_mounted-Next there cursor [] w s h = ended (refl, refl)
  next_mounted-Next there cursor (p ∷ ps) w s h =
      let one : suc cursor ≡ cursor + 1 = omega arith in
      let later : drop (cursor + 1) virtual_partitions ≡ ps =
        subst (λ n. drop n virtual_partitions ≡ ps) one
          (drop-suc cursor virtual_partitions p ps h) in
      Ensures-bind (mounted-there there p w s) λ b w1 t.
        Ensures-mono
          (step-Next there cursor p ps b w1 t.0 later
            (next_mounted-Next there (cursor + 1) ps w1 s later))
          λ r w2 u. (u.0, u.1 ∙ t.1)

  -- The entry that is yielded, of the devices that are still to come: the first of them, and the iterator
  -- at `a` is then at the others; or -1, if there are none.
  abbrev pub Yields :
      (Partition → Bool) → ℕ → Stat → List Partition → Option (Bytes × Stat) → World → Type 0
  Yields there a st [] r w' = r ≡ none
  Yields there a st (p ∷ ps) r w' =
      (r ≡ some (drop 1 (alias p), record st { is_dir = true; size = 0 }))
      × ((cursor : ℕ) × (w'.ftp.dirs a ≡ some cursor)
          × (present there (drop cursor virtual_partitions) ≡ ps))

  -- Where no device is mounted or unmounted meanwhile, `vrt_dirnext` in the root always comes back. It
  -- yields the name of the first of the mounted devices that are still to come, in the order of the
  -- table, as a directory, and leaves the others to come; or -1 where none is left. No other iterator
  -- and nothing else of the server differs.
  pub vrt_dirnext-Yields :
      (there : Partition → Bool) (a cursor : ℕ) (st : Stat) (w : World)
      → Stable there
      → w.ftp.dirs a ≡ some cursor
      → Ensures (vrt_dirnext (virtual a) st w) (λ r w'.
        Yields there a st (present there (drop cursor virtual_partitions)) r w'
        × ((to : ℕ) × (w'.ftp ≡ record w.ftp { dirs = update w.ftp.dirs a (some to) })))
  unfolding vrt_dirnext load_dir store_dir
  vrt_dirnext-Yields there a cursor st w s h =
      rw (h, load_dir)
        (Ensures-bind (next_mounted-Next there cursor (drop cursor virtual_partitions) w s refl)
          λ r w1 t. yielded r w1 t.0 t.1)
    where
      yielded :
          (r : Option Partition × ℕ) (v : World)
          → Next there (drop cursor virtual_partitions) r
          → v.ftp ≡ w.ftp
          → Ensures
              (done
                (elim r.0 [
                  | some p ↦ some (drop 1 (alias p), record st { is_dir = true; size = 0 })
                  | none ↦ none
                ])
                (record v { ftp = record v.ftp { dirs = update v.ftp.dirs a (some r.1) } }))
              (λ x w'.
                Yields there a st (present there (drop cursor virtual_partitions)) x w'
                × ((to : ℕ) × (w'.ftp ≡ record w.ftp { dirs = update w.ftp.dirs a (some to) })))
      yielded (none, to) v n e =
          ended (rw n refl, (to, ap (λ (f : Ftp). record f { dirs = update f.dirs a (some to) }) e))
      yielded (some p, to) v n e = ended (
        rw n (refl, (to, rw (==-refl a) refl, refl)),
        (to, ap (λ (f : Ftp). record f { dirs = update f.dirs a (some to) }) e),
      )
