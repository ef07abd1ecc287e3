-- ===== src/Ftp/Sound/Entry.antt =====
-- A client more in the heap and the table of source/ftp.c.
use ftpii.Base.{
  ℕ, suc, ◌+◌, ◌<◌, ◌≤◌, ◌%◌, ◌≡◌, refl, sym, ap, subst, ◌∙◌, fun_ext, ◌⊎◌, inl, inr, false, Option,
  none, some, arith, ◌==◌, ==-refl, Bool-cases, Option-cases, Bytes, length,
}
use ftpii.World.{Ftp, Client, update}
use ftpii.Ftp.Job.{HasJob, idle, owns}
use ftpii.Ftp.Cleanup.{max_clients, fill_slot}
use ftpii.Ftp.Cleanup.Release.{IsOpen}
use ftpii.Ftp.Cleanup.Table.{
  In, occupied, length-fill_slot, In-fill_slot, fill_slot-keeps, fill_slot-enters,
  fill_slot-IsDistinct, occupied-fill_slot,
}
use ftpii.Ftp.Events.Accept.{new_client}
use ftpii.Ftp.Sound.{Sound}

-- Nothing is at the next address.
next-free : (u : Ftp) → Sound u → u.heap u.next ≡ none
next-free u s = elim (Option-cases (u.heap u.next)) [
  | inl e ↦ e
  | inr (c, e) ↦ let l = s.fresh u.next c e in absurd (omega arith)
]

pub update-same : (f : ℕ → Option Client) (p : ℕ) (a : Option Client) → update f p a p ≡ a
update-same f p a = rw (==-refl p) refl

update-other :
    (f : ℕ → Option Client) (p q : ℕ) (a : Option Client) → (p == q) ≡ false → update f p a q ≡ f q
update-other f p q a n = rw n refl

-- What an entry in the heap with a client more is.
update-cases :
    (f : ℕ → Option Client) (p q : ℕ) (b c : Client)
    → update f p (some b) q ≡ some c
    → ((p ≡ q) × (c ≡ b)) ⊎ (((p == q) ≡ false) × (f q ≡ some c))
update-cases f p q b c h = elim (Bool-cases (p == q)) [
  | inl e ↦
      let same : p ≡ q = ground arith in
      let here : some b ≡ some c =
        sym (update-same f p (some b)) ∙ ap (update f p (some b)) same ∙ h in
      inl (same, cc)
  | inr n ↦ inr (n, sym (update-other f p q (some b) n) ∙ h)
]

pub Sound-next : (u : Ftp) → Sound u → Sound (record u { next = u.next + 1 })
Sound-next u s = record {
  jobs = s.jobs;
  opens = s.opens;
  apart = s.apart;
  fresh = λ q c e. let l = s.fresh q c e in omega arith;
  fresh_dirs = λ d cursor e. let l = s.fresh_dirs d cursor e in omega arith;
  size = s.size;
  live = s.live;
  listed = s.listed;
  tabled = s.tabled;
  count = s.count;
}

-- A client that was allocated and is gone again.
pub dropped-heap :
    (u : Ftp) (c : Client) → Sound u → update (update u.heap u.next (some c)) u.next none ≡ u.heap
dropped-heap u c s = fun_ext λ q. elim (Bool-cases (u.next == q)) [
  | inl e ↦
      let same : u.next ≡ q = ground arith in
      subst (λ x. update (update u.heap u.next (some c)) u.next none x ≡ u.heap x) same
        (update-same (update u.heap u.next (some c)) u.next none ∙ sym (next-free u s))
  | inr n ↦
      update-other (update u.heap u.next (some c)) u.next q none n
      ∙ update-other u.heap u.next q (some c) n
]

counted_up : (n all : ℕ) → n ≡ all → all < 5 → (n + 1) % 256 ≡ suc all
counted_up n all e h = omega arith

-- A client without a transfer enters the table.
pub Entered-Sound :
    (u : Ftp) (peer : ℕ) (address : Bytes)
    → Sound u
    → occupied u.clients < max_clients
    → Sound (record u {
      heap = update u.heap u.next (some (new_client peer address));
      next = u.next + 1;
      clients = fill_slot u.next u.clients;
      num_clients = (u.num_clients + 1) % 256;
    })
Entered-Sound u peer address s room =
    let p = u.next in
    let b = new_client peer address in
    let space : occupied u.clients < length u.clients =
      subst (λ n. occupied u.clients < n) (sym s.size) room in
    let absent : ¬ In p u.clients =
      λ i. let (c, e) = s.live p i in let l = s.fresh p c e in absurd (omega arith) in
    record {
      jobs = λ q c h. elim (update-cases u.heap p q b c h) [
        | inl (e, k) ↦ subst HasJob (sym k) idle
        | inr (n, e) ↦ s.jobs q c e
      ];
      opens = λ q c h. elim (update-cases u.heap p q b c h) [
        | inl (e, k) ↦ subst (λ x. IsOpen (owns x) u.dirs) (sym k) tt
        | inr (n, e) ↦ s.opens q c e
      ];
      apart = λ q q' d a c h h' o o'. elim (update-cases u.heap p q b a h) [
        | inl (e, k) ↦ let nothing : none ≡ some d = ap owns (sym k) ∙ o in absurd (cc)
        | inr (n, e) ↦ elim (update-cases u.heap p q' b c h') [
          | inl (e', k) ↦ let nothing : none ≡ some d = ap owns (sym k) ∙ o' in absurd (cc)
          | inr (n', e') ↦ s.apart q q' d a c e e' o o'
        ]
      ];
      fresh = λ q c h. elim (update-cases u.heap p q b c h) [
        | inl (e, k) ↦ omega arith
        | inr (n, e) ↦ let l = s.fresh q c e in omega arith
      ];
      fresh_dirs = λ d cursor e. let l = s.fresh_dirs d cursor e in omega arith;
      size = length-fill_slot p u.clients ∙ s.size;
      live = λ q i. elim (In-fill_slot p q u.clients i) [
        | inl e ↦
            (b, subst (λ x. update u.heap p (some b) x ≡ some b) e (update-same u.heap p (some b)))
        | inr more ↦
            let (c, e) = s.live q more in
            let l = s.fresh q c e in (c, update-other u.heap p q (some b) (ground arith) ∙ e)
      ];
      listed = λ q c h. elim (update-cases u.heap p q b c h) [
        | inl (e, k) ↦
            subst (λ x. In x (fill_slot p u.clients)) e (fill_slot-enters p u.clients space)
        | inr (n, e) ↦ fill_slot-keeps p q u.clients (s.listed q c e)
      ];
      tabled = fill_slot-IsDistinct p u.clients absent s.tabled;
      count =
          counted_up u.num_clients (occupied u.clients) s.count room
          ∙ sym (occupied-fill_slot p u.clients space);
    }

pub not_full : (n all : ℕ) → n ≡ all → all ≤ 5 → (n == 5) ≡ false → all < 5
not_full n all e h b = ground arith
