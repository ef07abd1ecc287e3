-- ===== src/Ftp/Events/Control/Room.antt =====
-- A round of `process_control_events` of source/ftp.c at the buffer of its client.
use ftpii.Base.{
  ℕ, zero, suc, ◌+◌, ◌-◌, ◌<◌, ◌≤◌, ◌≡◌, refl, sym, subst, ◌∙◌, inl, inr, Bool, true, false, ◌++◌,
  Option, none, some, arith, Bytes, ==-refl, Option-cases, contains, ltb, length, length-append,
  if◌then◌else◌,
}
use ftpii.Os.{S32, val, err, eagain, Call, Os}
use ftpii.World.{
  Callback, continue, World, Ftp, Client, M, Out, pure, update, load, store, call, ◌>>=◌, ◌>>◌,
}
use ftpii.World.Keeps.{Upon, Upon-done, Upon-bind, Upon-if}
use ftpii.Ftp.Reply.{ftp_buffer_size, modify}
use ftpii.Ftp.Events.Control.Lines.{find_crlf}
use ftpii.Ftp.Events.Control.Cut.{First, find_crlf-First}
use ftpii.Ftp.Events.Control.{
  Rest, keep, hang_up, Round, leave, close, again, transferring, process_line, process_lines,
  take_bytes, control_round,
}

-- The bytes and their terminator fit in the buffer.
abbrev pub Fits : Client → Type 0
Fits c = length c.buf < ftp_buffer_size

abbrev pub FitsAt : ℕ → Ftp → Type 0
FitsAt p f = (d : Client) → f.heap p ≡ some d → Fits d

-- After a round that does not close the client, what the client at `p` has fits.
abbrev pub RoundFits : ℕ → Round → World → Type 0
RoundFits p close w = Unit
RoundFits p leave w = FitsAt p w.ftp
RoundFits p again w = FitsAt p w.ftp

-- What is kept of a text is no longer than the text.
abbrev Shorter : Bytes → Rest → World → Type 0
Shorter s (keep r) w = length r ≤ length s
Shorter s hang_up w = Unit

known : (p : ℕ) (f : Ftp) (c : Client) → f.heap p ≡ some c → Fits c → FitsAt p f
known p f c h k d e =
    let same : some c ≡ some d = sym h ∙ e in let one : c ≡ d = cc in subst Fits one k

-- What an assignment leaves at the client.
modify-Upon :
    (p : ℕ) (f : Client → Client) (w : World)
    → ((c : Client) → Fits (f c))
    → Upon (λ _ w'. FitsAt p w'.ftp) (modify p f w)
unfolding modify load store
modify-Upon p f w h = elim (Option-cases (w.ftp.heap p)) [
  | inl e ↦ rw (e, load) (record { holds = λ a v k. absurd (cc) })
  | inr (c, e) ↦
      rw (e, load)
        (rw (e, store)
          (Upon-done tt _ (
            known p (record w.ftp { heap = update w.ftp.heap p (some (f c)) }) (f c)
              (rw (==-refl p) refl) (h c))))
]

module _ ⦃os : Os⦄ where
  Shorter-mono :
      (s t : Bytes) (o : Out Rest) → length t ≤ length s → Upon (Shorter t) o → Upon (Shorter s) o
  Shorter-mono s t o h u = record { holds = λ r w e. at r w (u.holds r w e) }
    where
      at : (r : Rest) (w : World) → Shorter t r w → Shorter s r w
      at (keep n) w k = omega arith
      at hang_up w k = tt

  found-Shorter :
      (rounds fuel p : ℕ) (s : Bytes) (o : Option (Bytes × Bytes)) (w : World)
      → First s o
      → ((rest : Bytes) (v : World) → Upon (Shorter rest) (process_lines rounds fuel p rest v))
      → Upon (Shorter s) (
          (elim o as (λ _. M Rest) [
            | none ↦ pure (keep s)
            | some (line, rest) ↦ do
              busy ← transferring p
              if busy then pure (keep s) else (do
                ok ← process_line fuel p line
                if ok then process_lines rounds fuel p rest else pure hang_up)
          ])
            w)
  found-Shorter rounds fuel p s none w f ih = Upon-done (keep s) w (omega arith)
  found-Shorter rounds fuel p s (some (line, rest)) w f ih =
      Upon-bind (transferring p w) _ λ busy v e.
        Upon-if busy _ _ (λ y. Upon-done (keep s) v (omega arith))
          λ n. Upon-bind (process_line fuel p line v) _ λ ok u e'.
            Upon-if ok _ _ (λ y. Shorter-mono s rest _ (omega (arith, f.1)) (ih rest u))
              (λ m. Upon-done hang_up u tt)

  process_lines-Shorter :
      (rounds fuel p : ℕ) (s : Bytes) (w : World)
      → Upon (Shorter s) (process_lines rounds fuel p s w)
  unfolding process_lines
  process_lines-Shorter zero fuel p s w = record { holds = λ r v e. absurd (cc) }
  process_lines-Shorter (suc rounds) fuel p s w =
      found-Shorter rounds fuel p s (find_crlf s) w (find_crlf-First s)
        (λ rest v. process_lines-Shorter rounds fuel p rest v)

  -- What follows the lines.
  rest-RoundFits :
      (p : ℕ) (r : Rest) (s : Bytes) (w : World)
      → length s < ftp_buffer_size
      → Shorter s r w
      → Upon (RoundFits p) (
          (elim r as (λ _. M Round) [
            | keep next ↦ do modify p (λ d. record d { buf = next }); pure again
            | hang_up ↦ pure close
          ])
            w)
  rest-RoundFits p (keep next) s w h k =
      Upon-bind (modify p (λ d. record d { buf = next }) w) _ λ a v e.
        Upon-done again v
          ((modify-Upon p (λ d. record d { buf = next }) w (λ c. omega arith)).holds a v e)
  rest-RoundFits p hang_up s w h k = Upon-done close w tt

  lines-RoundFits :
      (fuel p : ℕ) (s : Bytes) (w : World)
      → length s < ftp_buffer_size
      → Upon (RoundFits p) (
          (process_lines (length s + 1) fuel p s >>= λ r. elim r as (λ _. M Round) [
            | keep next ↦ do modify p (λ d. record d { buf = next }); pure again
            | hang_up ↦ pure close
          ])
            w)
  lines-RoundFits fuel p s w h = Upon-bind (process_lines (length s + 1) fuel p s w) _ λ r v e.
      rest-RoundFits p r s v h ((process_lines-Shorter (length s + 1) fuel p s w).holds r v e)

  take_bytes-RoundFits :
      (fuel p : ℕ) (new : Bytes) (c : Client) (w : World)
      → w.ftp.heap p ≡ some c
      → length c.buf + length new < ftp_buffer_size
      → Upon (RoundFits p) (take_bytes fuel p new w)
  unfolding take_bytes modify
  take_bytes-RoundFits fuel p new c w h k =
      let text = c.buf ++ new in
      rw (h, load)
        (rw (h, store)
          (Upon-if (contains 0 new) _ _ (λ y. Upon-done close _ tt)
            λ n.
              rw (==-refl p, load)
                (lines-RoundFits fuel p text _ (omega (arith, k, length-append c.buf new)))))

  -- What follows the read into the room that is left behind the buffer.
  read-RoundFits :
      (fuel p : ℕ) (c : Client) (w v : World) (x : S32)
      → let a = os.respond w.trace (Call.net_read c.socket (ftp_buffer_size - 1 - length c.buf)) in
        a.code ≡ x
        → v.ftp.heap p ≡ some c
        → length c.buf < ftp_buffer_size - 1
        → Upon (RoundFits p) (
            (elim x as (λ _. M Round) [
              | err eagain ↦ pure leave
              | err _ ↦ pure close
              | val zero ↦ pure close
              | val (suc _) ↦ take_bytes fuel p a.payload
            ])
              v)
  read-RoundFits fuel p c w v (val zero) e h k = Upon-done close v tt
  read-RoundFits fuel p c w v (val (suc n)) e h k =
      let le = os.net_read-le w.trace c.socket (ftp_buffer_size - 1 - length c.buf) (suc n) e in
      take_bytes-RoundFits fuel p _ c v h (omega (arith, le.0, le.1, k))
  read-RoundFits fuel p c w v (err eagain) e h k =
      Upon-done leave v (known p v.ftp c h (omega arith))
  read-RoundFits fuel p c w v (err _) e h k = Upon-done close v tt

  by_callback :
      (o : Option Callback) (k : Bool → M Round) (w : World) {Q : Round → World → Type 0}
      → ((b : Bool) → Upon Q (k b w))
      → Upon Q (continue ((elim o as (λ _. M Bool) [ none ↦ pure false | some _ ↦ pure true ]) w) k)
  by_callback none k w h = h false
  by_callback (some c) k w h = h true

  pub control_round-RoundFits :
      (fuel p : ℕ) (c : Client) (w : World)
      → w.ftp.heap p ≡ some c
      → Upon (RoundFits p) (control_round fuel p w)
  unfolding control_round transferring call load
  control_round-RoundFits fuel p c w h =
      rw (h, load)
        (Upon-if (ltb (length c.buf) (ftp_buffer_size - 1)) _ _
          (λ y.
            let room : length c.buf < ftp_buffer_size - 1 = ground arith in
            rw (h, load)
              (by_callback c.data_callback _ w λ busy.
                Upon-if busy _ _ (λ t. Upon-done leave w (known p w.ftp c h (omega arith)))
                  (λ n. read-RoundFits fuel p c w _ _ refl h room)))
          (λ n. Upon-done close w tt))
