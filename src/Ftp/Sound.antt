-- ===== src/Ftp/Sound.antt =====
-- The invariant of the statics of source/ftp.c: the table of clients, the clients, and the directory
-- iterators that their transfers are at work on.
pub mod Ending
pub mod Works
pub mod Data
pub mod Transfer
pub mod Live
pub mod Prepare
pub mod Iterators
pub mod Entry
pub mod Commands
pub mod Accept
use ftpii.Base.{
  ℕ, zero, suc, ◌+◌, ◌<◌, ◌≤◌, ◌%◌, ◌≡◌, ◌≢◌, refl, sym, ap, subst, ◌∙◌, inl, inr, Bool, true,
  false, List, Option, none, some, arith, ◌==◌, Bool-cases, if◌then◌else◌, length,
}
use ftpii.World.{Ftp, Client, update}
use ftpii.Ftp.Job.{HasJob, owns, shut}
use ftpii.Ftp.Cleanup.{max_clients, clear_slot}
use ftpii.Ftp.Cleanup.Release.{IsOpen, Released}
use ftpii.Ftp.Cleanup.Table.{
  In, IsDistinct, occupied, occupied-length, length-clear_slot, In-clear_slot, clear_slot-keeps,
  clear_slot-removes, clear_slot-IsDistinct, occupied-clear_slot,
}

pub record Sound (f : Ftp) : Type 0 where
  -- Each client's transfer is one as the handlers set it up, and an iterator of the program's own
  -- that it is at work on is open and no other client's.
  pub jobs : (q : ℕ) (c : Client) → f.heap q ≡ some c → HasJob c
  pub opens : (q : ℕ) (c : Client) → f.heap q ≡ some c → IsOpen (owns c) f.dirs
  pub apart :
      (p q d : ℕ) (b c : Client)
      → f.heap p ≡ some b
      → f.heap q ≡ some c
      → owns b ≡ some d
      → owns c ≡ some d
      → p ≡ q
  -- What is to be allocated is not in use.
  pub fresh : (q : ℕ) (c : Client) → f.heap q ≡ some c → q < f.next
  pub fresh_dirs : (d cursor : ℕ) → f.dirs d ≡ some cursor → d < f.next
  -- The table holds exactly the clients that there are, each once, and they are counted.
  pub size : length f.clients ≡ max_clients
  pub live : (q : ℕ) → In q f.clients → (c : Client) × (f.heap q ≡ some c)
  pub listed : (q : ℕ) (c : Client) → f.heap q ≡ some c → In q f.clients
  pub tabled : IsDistinct f.clients
  pub count : f.num_clients ≡ occupied f.clients

update-other : {A : Type 0} (f : ℕ → A) (p q : ℕ) (a : A) → (p == q) ≡ false → update f p a q ≡ f q
update-other f p q a n = rw n refl

pub shut-some :
    (o : Option ℕ) (dirs : ℕ → Option ℕ) (d cursor : ℕ)
    → shut o dirs d ≡ some cursor
    → dirs d ≡ some cursor
shut-some none dirs d cursor h = h
shut-some (some a) dirs d cursor h = elim (Bool-cases (a == d)) [
  | inl e ↦ absurd (ground arith)
  | inr n ↦ sym (update-other dirs a d none n) ∙ h
]

pub shut-IsOpen :
    (o p : Option ℕ) (dirs : ℕ → Option ℕ)
    → ((d : ℕ) → o ≡ some d → p ≢ some d)
    → IsOpen p dirs
    → IsOpen p (shut o dirs)
shut-IsOpen none p dirs n h = h
shut-IsOpen (some a) none dirs n h = tt
shut-IsOpen (some a) (some d) dirs n (cursor, h) = (
  cursor,
  update-other dirs a d none (elim (Bool-cases (a == d)) [
    | inl e ↦ absurd (n a refl (ap some (ground arith)))
    | inr k ↦ k
  ])
      ∙ h,
)

-- Where the client at `p` is gone, the ones that are left are the ones that were there.
gone-others :
    {f g : ℕ → Option Client} {p : ℕ}
    → g p ≡ none
    → ((q : ℕ) → (p == q) ≡ false → g q ≡ f q)
    → (q : ℕ) (c : Client) → g q ≡ some c
    → (f q ≡ some c) × (q ≢ p)
gone-others {f} {g} {p} gone others q c h = elim (Bool-cases (p == q)) [
  | inl e ↦
      let same : p ≡ q = ground arith in
      let nothing : none ≡ some c = sym gone ∙ ap g same ∙ h in absurd (cc)
  | inr n ↦ (sym (others q n) ∙ h, λ e. absurd (ground arith))
]

counted_down : (n all rest : ℕ) → n ≡ all → suc rest ≡ all → all ≤ 5 → (n + 255) % 256 ≡ rest
counted_down n all rest e one h = omega arith

-- Letting go of a client keeps the invariant.
pub Released-Sound :
    {u v : Ftp} {p : ℕ} (c : Client)
    → u.heap p ≡ some c
    → Released p u v (owns c)
    → Sound u
    → Sound v
Released-Sound {u} {v} {p} c h r s =
    let back : (q : ℕ) (d : Client) → v.heap q ≡ some d → (u.heap q ≡ some d) × (q ≢ p) =
      gone-others r.gone r.others in
    subst Sound (sym r.same) (record {
      jobs = λ q d e. s.jobs q d (back q d e).0;
      opens = λ q d e.
          shut-IsOpen (owns c) (owns d) u.dirs
            (λ a o o'. (back q d e).1 (s.apart q p a d c (back q d e).0 h o' o))
            (s.opens q d (back q d e).0);
      apart = λ q q' a b d e e' o o'. s.apart q q' a b d (back q b e).0 (back q' d e').0 o o';
      fresh = λ q d e. s.fresh q d (back q d e).0;
      fresh_dirs = λ a cursor e. s.fresh_dirs a cursor (shut-some (owns c) u.dirs a cursor e);
      size = length-clear_slot p u.clients ∙ s.size;
      live = λ q i.
          let other : q ≢ p = λ e.
            clear_slot-removes p u.clients s.tabled
              (subst (λ x. In x (clear_slot p u.clients)) e i) in
          let (d, e) = s.live q (In-clear_slot p q u.clients i) in
          (d, r.others q (ground arith) ∙ e);
      listed = λ q d e. clear_slot-keeps p q u.clients (back q d e).1 (s.listed q d (back q d e).0);
      tabled = clear_slot-IsDistinct p u.clients s.tabled;
      count =
          let one = occupied-clear_slot p u.clients (s.listed p c h) in
          let all = occupied-length u.clients in
          counted_down u.num_clients (occupied u.clients) (occupied (clear_slot p u.clients))
            s.count one (subst (λ n. occupied u.clients ≤ n) s.size all);
    })
