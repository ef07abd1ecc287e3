-- ===== src/Ftp/Sound/Ending.antt =====
-- Letting clients go, one and all, source/ftp.c, from a sound state.
use ftpii.Base.{
  ℕ, zero, suc, ◌+◌, ◌<◌, ◌≤◌, ◌≡◌, refl, sym, ap, subst, ◌∙◌, inl, inr, Option, none, some, arith,
  codes, get_elem?, Option-cases, Bool-cases, ◌==◌,
}
use ftpii.Os.{Os}
use ftpii.World.{World, Ftp, M, pure}
use ftpii.World.Triple.{Ensures, ended, Ensures-mono, Ensures-bind}
use ftpii.Ftp.Session.{Serves-unchanged, write_reply-Serves}
use ftpii.Ftp.Cleanup.{clear_slot, slot_at, each_client, cleanup_client, dismiss, cleanup_ftp}
use ftpii.Ftp.Cleanup.Release.{cleanup_client-Released}
use ftpii.Ftp.Cleanup.Table.{
  In, occupied, In-get_elem?, get_elem?-below, clear_slot-empties, clear_slot-removes,
  occupied-zero, occupied-In,
}
use ftpii.Ftp.Sound.{Sound, Released-Sound}

-- The slots below `i` are empty.
abbrev Empty : ℕ → Ftp → Type 0
Empty i f = (k : ℕ) → k < i → get_elem? f.clients k ≡ some none

one_more :
    (i p : ℕ) (u v : Ftp)
    → Sound u
    → Empty i u
    → get_elem? u.clients i ≡ some (some p)
    → v.clients ≡ clear_slot p u.clients
    → Empty (suc i) v
one_more i p u v s m h e k l = ap (λ t. get_elem? t k) e ∙ elim (Bool-cases (k == i)) [
  | inl same ↦
      clear_slot-empties p k u.clients (some p) s.tabled
        (subst (λ n. get_elem? u.clients n ≡ some (some p)) (ground arith) h) (inr refl)
  | inr other ↦ clear_slot-empties p k u.clients none s.tabled (m k (ground arith)) (inl refl)
]

no_client : (f : Ftp) → Sound f → occupied f.clients ≡ 0 → (q : ℕ) → f.heap q ≡ none
no_client f s h q = elim (Option-cases (f.heap q)) [
  | inl e ↦ e
  | inr (c, e) ↦ let one = occupied-In q f.clients (s.listed q c e) in absurd (omega arith)
]

module _ ⦃os : Os⦄ where
  -- From a sound state, `cleanup_client` on a client of the table always comes back and uses no dead
  -- pointer; the state is then sound again, and the client is gone from the table.
  pub cleanup_client-Sound :
      (p : ℕ) (w : World)
      → Sound w.ftp
      → In p w.ftp.clients
      → Ensures (cleanup_client p w) (λ _ w'.
        Sound w'.ftp × (¬ In p w'.ftp.clients) × (w'.ftp.clients ≡ clear_slot p w.ftp.clients))
  cleanup_client-Sound p w s i =
      let (c, h) = s.live p i in
      Ensures-mono (cleanup_client-Released p c w h (s.jobs p c h) (s.opens p c h)) λ _ w' r.
        let table : w'.ftp.clients ≡ clear_slot p w.ftp.clients =
          ap (λ (f : Ftp). f.clients) r.same in
        (
          Released-Sound c h r s,
          subst (λ t. ¬ In p t) (sym table) (clear_slot-removes p w.ftp.clients s.tabled),
          table,
        )

  -- The goodbye to the client in a slot.
  dismiss-Empty :
      (i p : ℕ) (w : World)
      → Sound w.ftp
      → Empty i w.ftp
      → get_elem? w.ftp.clients i ≡ some (some p)
      → Ensures (dismiss p w) (λ _ w'. Sound w'.ftp × Empty (suc i) w'.ftp)
  unfolding dismiss
  dismiss-Empty i p w s m h =
      let (c, here) = s.live p (In-get_elem? i p w.ftp.clients h) in
      Ensures-bind
        (write_reply-Serves p 421 (codes "Service not available, closing control connection.") c w
          here)
        λ _ w1 t.
          let e = sym (Serves-unchanged here t) in
          let h1 : get_elem? w1.ftp.clients i ≡ some (some p) =
            subst (λ (f : Ftp). get_elem? f.clients i ≡ some (some p)) e h in
          Ensures-mono
            (cleanup_client-Sound p w1 (subst Sound e s) (In-get_elem? i p w1.ftp.clients h1))
            λ _ w2 r.
              (r.0, one_more i p w1.ftp w2.ftp (subst Sound e s) (subst (Empty i) e m) h1 r.2)

  at_slot :
      (i : ℕ) (slot : Option ℕ) (w : World)
      → Sound w.ftp
      → Empty i w.ftp
      → get_elem? w.ftp.clients i ≡ some slot
      → Ensures
          ((elim slot as (λ _. M (Unit {0})) [ none ↦ pure tt | some p ↦ dismiss p ]) w)
          (λ _ w'. Sound w'.ftp × Empty (suc i) w'.ftp)
  at_slot i none w s m h = ended (
    s,
    λ k l. elim (Bool-cases (k == i)) [
      | inl e ↦ subst (λ n. get_elem? w.ftp.clients n ≡ some none) (ground arith) h
      | inr n ↦ m k (ground arith)
    ],
  )
  at_slot i (some p) w s m h = dismiss-Empty i p w s m h

  goodbyes :
      (rounds i : ℕ) (w : World)
      → Sound w.ftp
      → Empty i w.ftp
      → i + rounds ≤ 5
      → Ensures (each_client dismiss rounds i w) (λ _ w'. Sound w'.ftp × Empty (i + rounds) w'.ftp)
  unfolding each_client slot_at
  goodbyes zero i w s m h = ended (s, subst (λ n. Empty n w.ftp) (omega arith) m)
  goodbyes (suc rounds) i w s m h =
      let (slot, e) =
        get_elem?-below i w.ftp.clients (subst (λ n. i < n) (sym s.size) (omega arith)) in
      rw (e, slot_at)
        (Ensures-bind (at_slot i slot w s m e) λ _ w1 r.
          Ensures-mono
            (goodbyes rounds (i + 1) w1 r.0 (subst (λ n. Empty n w1.ftp) (omega arith) r.1)
              (omega arith))
            λ _ w2 t. (t.0, subst (λ n. Empty n w2.ftp) (omega arith) t.1))

  -- From a sound state, `cleanup_ftp` always comes back and uses no dead pointer; the state is then
  -- sound, and there is no client left.
  pub cleanup_ftp-Empties :
      (w : World)
      → Sound w.ftp
      → Ensures
          (cleanup_ftp w)
          (λ _ w'. Sound w'.ftp × ((q : ℕ) → w'.ftp.heap q ≡ none) × (w'.ftp.num_clients ≡ 0))
  unfolding cleanup_ftp
  cleanup_ftp-Empties w s =
      Ensures-mono (goodbyes 5 0 w s (λ k h. absurd (omega arith)) (omega arith)) λ _ w' r.
        let nobody = occupied-zero w'.ftp.clients (λ i h. r.1 i (subst (λ n. i < n) r.0.size h)) in
        (r.0, no_client w'.ftp r.0 nobody, r.0.count ∙ nobody)
