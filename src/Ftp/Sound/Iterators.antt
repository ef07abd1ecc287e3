-- ===== src/Ftp/Sound/Iterators.antt =====
-- Opening and closing an iterator that is no client's, source/ftp.c, keeps the invariant.
use ftpii.Base.{
  ℕ, ◌+◌, ◌≡◌, refl, sym, subst, ◌∙◌, inl, inr, false, none, some, arith, ◌==◌, ==-refl, Bool-cases,
}
use ftpii.World.{Ftp, update}
use ftpii.Ftp.Job.{owns}
use ftpii.Ftp.Cleanup.Release.{IsOpen}
use ftpii.Ftp.Sound.{Sound, shut-some, shut-IsOpen}
use ftpii.Ftp.Sound.Prepare.{Spare}
use ftpii.Ftp.Sound.Works.{IsOpen-moved}
use ftpii.Ftp.Sound.Live.{Stays}

-- A new iterator is spare.
Opening-Sound :
    (u : Ftp)
    → Sound u
    → Sound (record u { dirs = update u.dirs u.next (some 0); next = u.next + 1 })
Opening-Sound u s =
    let onward : (d cursor : ℕ)
        → u.dirs d ≡ some cursor
        → (c' : ℕ) × (update u.dirs u.next (some 0) d ≡ some c') =
      λ d cursor h.
        let l = s.fresh_dirs d cursor h in
        let other : (u.next == d) ≡ false = ground arith in (cursor, rw other h) in
    record {
      jobs = s.jobs;
      opens = λ q c h.
          IsOpen-moved (owns c) u.dirs (update u.dirs u.next (some 0)) onward (s.opens q c h);
      apart = s.apart;
      fresh = λ q c h. let l = s.fresh q c h in omega arith;
      fresh_dirs = λ d cursor h. elim (Bool-cases (u.next == d)) [
        | inl e ↦ ground arith
        | inr n ↦
            let at : update u.dirs u.next (some 0) d ≡ u.dirs d = rw n refl in
            let l = s.fresh_dirs d cursor (sym at ∙ h) in omega arith
      ];
      size = s.size;
      live = s.live;
      listed = s.listed;
      tabled = s.tabled;
      count = s.count;
    }

Opening-Spare :
    (u : Ftp)
    → Sound u
    → Spare (some u.next) (record u { dirs = update u.dirs u.next (some 0); next = u.next + 1 })
Opening-Spare u s = (
  (0, rw (==-refl u.next) refl),
  λ q d c h e mine.
      let same : u.next ≡ d = ground arith in
      let (cursor, k) = subst (λ o. IsOpen o u.dirs) mine (s.opens q c h) in
      let l = s.fresh_dirs d cursor k in absurd (omega arith),
)

pub Opening-Ready :
    (base u v : Ftp) (p a : ℕ)
    → Stays p base u
    → a ≡ u.next
    → v ≡ record u { dirs = update u.dirs a (some 0); next = a + 1 }
    → Stays p base v × Spare (some a) v
Opening-Ready base u v p a l at e =
    subst (λ f. Stays p base f × Spare (some a) f) (sym e)
      (subst
        (λ x.
          Stays p base (record u { dirs = update u.dirs x (some 0); next = x + 1 })
          × Spare (some x) (record u { dirs = update u.dirs x (some 0); next = x + 1 }))
        (sym at)
        (
          (
            (Opening-Sound u l.0.0, l.0.1),
            record { others = l.1.others; table = l.1.table; counted = l.1.counted },
          ),
          Opening-Spare u l.0.0,
        ))

-- A spare iterator may be closed.
Shut-Sound :
    (u : Ftp) (a : ℕ)
    → Sound u
    → Spare (some a) u
    → Sound (record u { dirs = update u.dirs a none })
Shut-Sound u a s spare = record {
  jobs = s.jobs;
  opens = λ q c h.
      shut-IsOpen (some a) (owns c) u.dirs (λ d e mine. spare.1 q d c h e mine) (s.opens q c h);
  apart = s.apart;
  fresh = s.fresh;
  fresh_dirs = λ d cursor h. s.fresh_dirs d cursor (shut-some (some a) u.dirs d cursor h);
  size = s.size;
  live = s.live;
  listed = s.listed;
  tabled = s.tabled;
  count = s.count;
}

pub Shut-Stays :
    (base u : Ftp) (p a : ℕ)
    → Stays p base u
    → Spare (some a) u
    → Stays p base (record u { dirs = update u.dirs a none })
Shut-Stays base u p a l spare = (
  (Shut-Sound u a l.0.0 spare, l.0.1),
  record { others = l.1.others; table = l.1.table; counted = l.1.counted },
)
