-- ===== src/Ftp/Events/Ending.antt =====
-- The end of a data connection, source/ftp.c: the reply, and what becomes of the client where it fails.
use ftpii.Base.{
  ℕ, ◌≡◌, ap, subst, ◌∙◌, inl, inr, ◌⊎◌, Bool, true, false, ◌∷◌, ◌++◌, [], some, none, arith, Bytes,
  codes, decimal, if◌then◌else◌,
}
use ftpii.Os.{Code, S32, val, err, Os}
use ftpii.World.{World, Ftp, Client, M, pure}
use ftpii.World.Triple.{Ensures, ended, Ensures-mono, Ensures-bind}
use ftpii.Net.Transfer.{Delivers}
use ftpii.Ftp.Reply.{write_reply}
use ftpii.Ftp.Reply.Line.{write_reply-Delivers}
use ftpii.Ftp.Data.{transfer_error}
use ftpii.Ftp.Job.{idle, HasJob, owns}
use ftpii.Ftp.Cleanup.{cleanup_client}
use ftpii.Ftp.Cleanup.Release.{
  IsOpen, Touches, Released, released, cleanup_data_resources-Touches, cleanup_client-Released,
}
use ftpii.Ftp.Events.{end_transfer}

-- The reply at the end of a transfer.
abbrev pub ending_line : Bool → Bytes
ending_line true =
    decimal 226
    ++ (b' ' ∷ (codes "Closing data connection, transfer successful." ++ b'\r' ∷ b'\n' ∷ []))
ending_line false =
    decimal 520
    ++ (b' '
        ∷ (codes "Closing data connection, error occurred during transfer." ++ b'\r' ∷ b'\n' ∷ []))

-- How a transfer of the client `c` at `p` ends. In the state `u` the client is left without it, its
-- iterator, if it is one of the program's own, closed; then the whole reply is sent, or a first part of it, and the client let go.
pub data Ending (p : ℕ) (c : Client) (success : Bool) (w w' : World) : Type 0 where
  told :
      (u : World)
      → Touches p w.ftp u.ftp (owns c) (λ d. d ≡ released c)
      → Delivers c.socket (ending_line success) u (val 0) w'
      → Ending p c success w w'
  let_go :
      (e : Code) (u v : World)
      → Touches p w.ftp u.ftp (owns c) (λ d. d ≡ released c)
      → Delivers c.socket (ending_line success) u (err e) v
      → Released p v.ftp w'.ftp none
      → Ending p c success w w'

module _ ⦃os : Os⦄ where
  reply-Delivers :
      (p : ℕ) (success : Bool) (c : Client) (w : World)
      → w.ftp.heap p ≡ some c
      → Ensures
          ((if success
              then write_reply p 226 (codes "Closing data connection, transfer successful.")
              else write_reply p 520 transfer_error)
            w)
          (Delivers c.socket (ending_line success) w)
  reply-Delivers p true c w h =
      write_reply-Delivers p 226 (codes "Closing data connection, transfer successful.") c w h
        (omega arith) (omega arith)
  reply-Delivers p false c w h =
      write_reply-Delivers p 520 transfer_error c w h (omega arith) (omega arith)

  replied-Ending :
      (p : ℕ) (success : Bool) (c : Client) (w u : World) (r : S32) (v : World)
      → Touches p w.ftp u.ftp (owns c) (λ d. d ≡ released c)
      → Delivers c.socket (ending_line success) u r v
      → v.ftp.heap p ≡ some (released c)
      → Ensures
          ((elim r as (λ _. M (Unit {0})) [ err _ ↦ cleanup_client p | val _ ↦ pure tt ]) v)
          (λ _ w'. Ending p c success w w')
  replied-Ending p success c w u (val n) v t d h = ended (told u t (zero_only d.result))
    where
      zero_only :
          (val n ≡ val 0) ⊎ ((e : Code) × (val n ≡ err e))
          → Delivers c.socket (ending_line success) u (val 0) v
      zero_only (inl e) = subst (λ r. Delivers c.socket (ending_line success) u r v) e d
      zero_only (inr (x, e)) = absurd (cc)
  replied-Ending p success c w u (err e) v t d h =
      Ensures-mono (cleanup_client-Released p (released c) v h idle tt) λ _ w' r. let_go e u v t d r

  -- For a live client whose transfer is as one was set up and whose directory iterator, if it is one
  -- of the program's own, is open, the end of the transfer always comes back, with success or without. The client is left without the
  -- transfer, and such an iterator is closed; then the network took the whole reply, 226 on success and 520
  -- otherwise, and nothing else of the server differs; or the reply fails after a first part of it, and
  -- the client is gone from the heap and from the table and no longer counted.
  pub end_transfer-Ending :
      (p : ℕ) (success : Bool) (c : Client) (w : World)
      → w.ftp.heap p ≡ some c
      → HasJob c
      → IsOpen (owns c) w.ftp.dirs
      → Ensures (end_transfer p success w) (λ _ w'. Ending p c success w w')
  unfolding end_transfer
  end_transfer-Ending p success c w h j o =
      Ensures-bind (cleanup_data_resources-Touches p c w h j o) λ _ u t.
        let here : u.ftp.heap p ≡ some (released c) = t.here ∙ ap some t.becomes in
        Ensures-bind (reply-Delivers p success (released c) u here) λ r v d.
          replied-Ending p success c w u r v t d (ap (λ (f : Ftp). f.heap p) d.talks.ftp ∙ here)
