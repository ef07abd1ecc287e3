-- ===== src/Ftp/Events/Control/Rounds.antt =====
-- The loop of `process_control_events` over the lines of its buffer, source/ftp.c: which lines it takes.
use ftpii.Base.{
  ℕ, zero, suc, ◌<◌, ◌≡◌, refl, sym, ap, subst, ◌∙◌, Bool, true, false, List, [], ◌∷◌, Option, none,
  some, arith, Bytes, if◌then◌else◌, length,
}
use ftpii.Os.{Os}
use ftpii.World.{World, M, pure, continue, Out, done, fault, stuck, exited, ◌>>=◌}
use ftpii.Ftp.Events.Control.Lines.{find_crlf}
use ftpii.Ftp.Events.Control.Cut.{cut, glue, glue-cut, First, find_crlf-First}
use ftpii.Ftp.Events.Control.{Rest, keep, hang_up, transferring, process_line, process_lines}

pub continue-ap :
    {A B : Type 0} (o : Out A) (f g : A → M B)
    → ((a : A) (w : World) → f a w ≡ g a w)
    → continue o f ≡ continue o g
continue-ap (done a w) f g h = h a w
continue-ap fault f g h = refl
continue-ap stuck f g h = refl
continue-ap (exited w) f g h = refl

module _ ⦃os : Os⦄ where
  -- What is done at a line that begins the text `s`, where `more` is what follows.
  unfoldable pub line_step : ℕ → ℕ → Bytes → Bytes → M Rest → M Rest
  line_step fuel client s line more = do
    busy ← transferring client
    if busy
        then pure (keep s)
        else (do ok ← process_line fuel client line; if ok then more else pure hang_up)

  -- The lines in their order, until one cannot be answered, or one sets up a transfer: then the others
  -- wait.
  pub run_lines : ℕ → ℕ → List Bytes → Bytes → M Rest
  unfolding line_step
  run_lines fuel client [] rest w = done (keep rest) w
  run_lines fuel client (line ∷ lines) rest w =
      line_step fuel client (glue (line ∷ lines) rest) line (run_lines fuel client lines rest) w

  if-same :
      (b : Bool) (m m' k k' : M Rest)
      → ((w : World) → m w ≡ m' w)
      → ((w : World) → k w ≡ k' w)
      → (w : World) → (if b then m else k) w ≡ (if b then m' else k') w
  if-same true m m' k k' h g w = h w
  if-same false m m' k k' h g w = g w

  line_step-same :
      (fuel client : ℕ) (s line : Bytes) (m m' : M Rest)
      → ((w : World) → m w ≡ m' w)
      → (w : World) → line_step fuel client s line m w ≡ line_step fuel client s line m' w
  unfolding line_step
  line_step-same fuel client s line m m' h w = continue-ap (transferring client w) _ _ λ busy.
      if-same busy _ _ _ _ (λ v. refl)
        λ v.
          continue-ap (process_line fuel client line v) _ _ λ ok. if-same ok _ _ _ _ h (λ u. refl)

  pub process_lines-line :
      (rounds fuel client : ℕ) (s line rest : Bytes) (w : World)
      → find_crlf s ≡ some (line, rest)
      → process_lines (suc rounds) fuel client s w
        ≡ line_step fuel client s line (process_lines rounds fuel client rest) w
  unfolding process_lines line_step
  process_lines-line rounds fuel client s line rest w e = rw (e, process_lines) refl

  pub process_lines-none :
      (rounds fuel client : ℕ) (s : Bytes) (w : World)
      → find_crlf s ≡ none
      → process_lines (suc rounds) fuel client s w ≡ done (keep s) w
  unfolding process_lines
  process_lines-none rounds fuel client s w e = rw (e, process_lines) refl

  run_lines-line :
      (fuel client : ℕ) (s line rest : Bytes) (w : World)
      → cut s ≡ (line ∷ (cut rest).0, (cut rest).1)
      → run_lines fuel client (cut s).0 (cut s).1 w
        ≡ line_step fuel client s line (run_lines fuel client (cut rest).0 (cut rest).1) w
  unfolding run_lines
  run_lines-line fuel client s line rest w e =
      let text : glue (line ∷ (cut rest).0) (cut rest).1 ≡ s =
        subst (λ (t : List Bytes × Bytes). glue t.0 t.1 ≡ s) e (glue-cut s) in
      subst
        (λ (t : List Bytes × Bytes).
          run_lines fuel client t.0 t.1 w
          ≡ line_step fuel client s line (run_lines fuel client (cut rest).0 (cut rest).1) w)
        (sym e)
        (ap (λ x. line_step fuel client x line (run_lines fuel client (cut rest).0 (cut rest).1) w)
          text)

  -- The lines and the loop do the same on `s`.
  abbrev Agree : ℕ → ℕ → ℕ → Bytes → Type 0
  Agree rounds fuel client s =
      (w : World)
      → process_lines rounds fuel client s w ≡ run_lines fuel client (cut s).0 (cut s).1 w

  found-Agree :
      (rounds fuel client : ℕ) (s : Bytes) (o : Option (Bytes × Bytes))
      → find_crlf s ≡ o
      → First s o
      → length s < suc rounds
      → ((rest : Bytes) → length rest < rounds → Agree rounds fuel client rest)
      → Agree (suc rounds) fuel client s
  unfolding run_lines
  found-Agree rounds fuel client s none e f h ih w =
      process_lines-none rounds fuel client s w e
      ∙ subst (λ (t : List Bytes × Bytes). done (keep s) w ≡ run_lines fuel client t.0 t.1 w)
          (sym f) refl
  found-Agree rounds fuel client s (some (line, rest)) e f h ih w =
      process_lines-line rounds fuel client s line rest w e
      ∙ line_step-same fuel client s line (process_lines rounds fuel client rest)
          (run_lines fuel client (cut rest).0 (cut rest).1) (ih rest (omega (arith, h, f.1))) w
      ∙ sym (run_lines-line fuel client s line rest w f.0)

  -- With as many rounds as `take_bytes` gives it, or more, the loop over the buffer `s` runs the
  -- lines of `s` in their order and keeps what is behind them, and it never wants for rounds.
  pub process_lines-run_lines :
      (rounds fuel client : ℕ) (s : Bytes) (w : World)
      → length s < rounds
      → process_lines rounds fuel client s w ≡ run_lines fuel client (cut s).0 (cut s).1 w
  process_lines-run_lines zero fuel client s w h = absurd (omega arith)
  process_lines-run_lines (suc rounds) fuel client s w h =
      found-Agree rounds fuel client s (find_crlf s) refl (find_crlf-First s) h
        (λ rest k v. process_lines-run_lines rounds fuel client rest v k) w

  -- More rounds make no difference.
  pub rounds-same :
      (m n fuel client : ℕ) (s : Bytes) (w : World)
      → length s < m
      → length s < n
      → process_lines m fuel client s w ≡ process_lines n fuel client s w
  rounds-same m n fuel client s w h k =
      process_lines-run_lines m fuel client s w h
      ∙ sym (process_lines-run_lines n fuel client s w k)
