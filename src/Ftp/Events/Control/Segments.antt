-- ===== src/Ftp/Events/Control/Segments.antt =====
-- The loop of `process_control_events` over the lines of its buffer, source/ftp.c: it does not matter how
-- the client's bytes are split over its reads.
use ftpii.Base.{
  ℕ, zero, suc, ◌+◌, ◌<◌, ◌≡◌, refl, sym, ap, ◌∙◌, Bool, true, false, ◌++◌, Option, none, some,
  arith, Bytes, if◌then◌else◌, length, length-append,
}
use ftpii.Os.{Os}
use ftpii.World.{
  Client, Callback, World, M, pure, continue, Out, done, fault, stuck, exited, load, ◌>>=◌,
}
use ftpii.Ftp.Events.Control.Lines.{find_crlf}
use ftpii.Ftp.Events.Control.Cut.{First, find_crlf-First}
use ftpii.Ftp.Events.Control.{Rest, keep, hang_up, transferring, process_line, process_lines}
use ftpii.Ftp.Events.Control.Rounds.{
  continue-ap, line_step, process_lines-line, process_lines-none, rounds-same,
}

continue_assoc :
    {A B C : Type 0} (o : Out A) (f : A → M B) (g : B → M C)
    → continue (continue o f) g ≡ continue o (λ a w. continue (f a w) g)
continue_assoc (done a w) f g = refl
continue_assoc fault f g = refl
continue_assoc stuck f g = refl
continue_assoc (exited w) f g = refl

module _ ⦃os : Os⦄ where
  -- The bytes `t` come after what is left of the buffer.
  abbrev pub go_on : ℕ → ℕ → Bytes → Rest → M Rest
  go_on fuel client t (keep next) = process_lines (length (next ++ t) + 1) fuel client (next ++ t)
  go_on fuel client t hang_up = pure hang_up

  -- The test for a transfer changes nothing.
  data Test (client : ℕ) (w : World) : Type 0 where
    told : (busy : Bool) → transferring client w ≡ done busy w → Test client w
    dead : transferring client w ≡ fault → Test client w

  callback-Test :
      (o : Option Callback) (w : World)
      → (busy : Bool) × ((elim o as (λ _. M Bool) [ none ↦ pure false | some _ ↦ pure true ]) w
          ≡ done busy w)
  callback-Test none w = (false, refl)
  callback-Test (some c) w = (true, refl)

  heap-Test : (client : ℕ) (w : World) (o : Option Client) → w.ftp.heap client ≡ o → Test client w
  unfolding transferring load
  heap-Test client w none e = dead (rw (e, transferring, load) refl)
  heap-Test client w (some c) e =
      let (busy, k) = callback-Test c.data_callback w in told busy (rw (e, transferring, load) k)

  line_step-dead :
      (fuel client : ℕ) (s line : Bytes) (m : M Rest) (w : World)
      → transferring client w ≡ fault
      → line_step fuel client s line m w ≡ fault
  unfolding line_step
  line_step-dead fuel client s line m w e = rw (e, line_step) refl

  line_step-told :
      (fuel client : ℕ) (s line : Bytes) (m : M Rest) (w : World) (busy : Bool)
      → transferring client w ≡ done busy w
      → line_step fuel client s line m w
        ≡ (if busy
              then pure (keep s)
              else (do ok ← process_line fuel client line; if ok then m else pure hang_up))
            w
  unfolding line_step
  line_step-told fuel client s line m w busy e = rw (e, line_step) refl

  if-onward :
      (b : Bool) (m m' : M Rest) (t : Bytes) (fuel client : ℕ)
      → ((w : World) → m w ≡ continue (m' w) (go_on fuel client t))
      → (w : World)
      → (if b then m else pure hang_up) w
        ≡ continue ((if b then m' else pure hang_up) w) (go_on fuel client t)
  if-onward true m m' t fuel client h w = h w
  if-onward false m m' t fuel client h w = refl

  -- A line is taken in the same way whether what follows `s` is there already or not. Where the client
  -- has a transfer, the line waits.
  line_step-onward :
      (fuel client : ℕ) (s line rest t : Bytes) (m m' : M Rest) (w : World)
      → find_crlf (s ++ t) ≡ some (line, rest)
      → ((v : World) → m v ≡ continue (m' v) (go_on fuel client t))
      → Test client w
      → line_step fuel client (s ++ t) line m w
        ≡ continue (line_step fuel client s line m' w) (go_on fuel client t)
  line_step-onward fuel client s line rest t m m' w h g (dead e) =
      line_step-dead fuel client (s ++ t) line m w e
      ∙ ap (λ (o : Out Rest). continue o (go_on fuel client t))
          (sym (line_step-dead fuel client s line m' w e))
  line_step-onward fuel client s line rest t m m' w h g (told true e) =
      let again =
        process_lines-line (length (s ++ t)) fuel client (s ++ t) line rest w h
        ∙ line_step-told fuel client (s ++ t) line
            (process_lines (length (s ++ t)) fuel client rest) w true e in
      let one : length (s ++ t) + 1 ≡ suc (length (s ++ t)) = omega arith in
      line_step-told fuel client (s ++ t) line m w true e
      ∙ sym again
      ∙ ap (λ n. process_lines n fuel client (s ++ t) w) (sym one)
      ∙ ap (λ (o : Out Rest). continue o (go_on fuel client t))
          (sym (line_step-told fuel client s line m' w true e))
  line_step-onward fuel client s line rest t m m' w h g (told false e) =
      line_step-told fuel client (s ++ t) line m w false e
      ∙ continue-ap (process_line fuel client line w) _ _ (λ ok. if-onward ok m m' t fuel client g)
      ∙ sym (continue_assoc (process_line fuel client line w) _ _)
      ∙ ap (λ (o : Out Rest). continue o (go_on fuel client t))
          (sym (line_step-told fuel client s line m' w false e))

  found-go_on :
      (m n fuel client : ℕ) (s t : Bytes) (w : World) (o : Option (Bytes × Bytes))
      → find_crlf s ≡ o
      → First s o
      → length s < suc m
      → length (s ++ t) < suc n
      → ((rest : Bytes) (v : World)
          → length rest < m
          → length (rest ++ t) < n
          → process_lines n fuel client (rest ++ t) v
            ≡ continue (process_lines m fuel client rest v) (go_on fuel client t))
      → process_lines (suc n) fuel client (s ++ t) w
        ≡ continue (process_lines (suc m) fuel client s w) (go_on fuel client t)
  found-go_on m n fuel client s t w none e f h k ih =
      rounds-same (suc n) (length (s ++ t) + 1) fuel client (s ++ t) w k (omega arith)
      ∙ ap (λ (o : Out Rest). continue o (go_on fuel client t))
          (sym (process_lines-none m fuel client s w e))
  found-go_on m n fuel client s t w (some (line, rest)) e f h k ih =
      process_lines-line n fuel client (s ++ t) line (rest ++ t) w (f.2 t)
      ∙ line_step-onward fuel client s line (rest ++ t) t (process_lines n fuel client (rest ++ t))
          (process_lines m fuel client rest) w (f.2 t)
          (λ v.
            ih rest v (omega (arith, f.1, h))
              (omega (arith, f.1, k, length-append s t, length-append rest t)))
          (heap-Test client w (w.ftp.heap client) refl)
      ∙ ap (λ (o : Out Rest). continue o (go_on fuel client t))
          (sym (process_lines-line m fuel client s line rest w e))

  segments_on :
      (m n fuel client : ℕ) (s t : Bytes) (w : World)
      → length s < m
      → length (s ++ t) < n
      → process_lines n fuel client (s ++ t) w
        ≡ continue (process_lines m fuel client s w) (go_on fuel client t)
  segments_on zero n fuel client s t w h k = absurd (omega arith)
  segments_on (suc m) zero fuel client s t w h k = absurd (omega arith)
  segments_on (suc m) (suc n) fuel client s t w h k =
      found-go_on m n fuel client s t w (find_crlf s) refl (find_crlf-First s) h k
        (λ rest v h' k'. segments_on m n fuel client rest t v h' k')

  -- It makes no difference how the client's bytes are split over reads: the loop over a buffer that
  -- holds `s` and then `t` does what the loop over `s`, and then over what that kept with `t` behind
  -- it, does, with the rounds that `take_bytes` gives each of them; where the loop over `s` hangs up,
  -- so does the one over both.
  pub process_lines-append :
      (fuel client : ℕ) (s t : Bytes) (w : World)
      → process_lines (length (s ++ t) + 1) fuel client (s ++ t) w
        ≡ continue (process_lines (length s + 1) fuel client s w) (go_on fuel client t)
  process_lines-append fuel client s t w =
      segments_on (length s + 1) (length (s ++ t) + 1) fuel client s t w (omega arith) (omega arith)
