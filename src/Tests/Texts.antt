-- ===== src/Tests/Texts.antt =====
-- The theorems on what is printed, scanned, received and sent at concrete inputs.
use ftpii.Base.{
  digits_of, ◌≤◌, Bytes, codes, ◌++◌, ◌≡◌, ◌∷◌, [], some, none, equal, if◌then◌else◌, arith, refl,
  decimal, drop, length, ◌+◌,
}
use ftpii.World.{update, continue}
use ftpii.Ftp.Events.Control.{process_lines}
use ftpii.Ftp.Events.Control.Cut.{cut}
use ftpii.Ftp.Events.Control.Rounds.{run_lines, process_lines-run_lines}
use ftpii.Ftp.Events.Control.Segments.{go_on, process_lines-append}
use ftpii.Tests.{no_stat, guest, sample_os, sample_world}
use ftpii.World.Triple.{Ensures}
use ftpii.Ftp.Listing.{list_line, nlst_line}
use ftpii.Ftp.Listing.Bounds.{length-list_line}
use ftpii.Ftp.Data.Restart.{restarting, ftp_rest-decimal}
use ftpii.Ftp.Data.{passive_reply, ftp_port, ftp_rest}
use ftpii.Ftp.Session.{Serves, without_passive}
use ftpii.Os.{Os}
use ftpii.Ftp.Data.Passive.{addressed, opening, ftp_port-passive_reply}

-- An environment in which `inet_aton` knows one address.
abbrev port_os : Os
port_os = record sample_os {
  inet_aton = λ s. if equal s (codes "192.168.1.7") then some 0xC0A80107 else none;
}

ftp_port-passive_reply_example :
    Ensures
      (ftp_port ⦃os = port_os⦄ 1
        (drop (length opening) (passive_reply 0xC0A80107 1024))
        sample_world)
      (λ _ w'.
        Serves 1 sample_world w'
          (λ d. d ≡ addressed ⦃os = port_os⦄ 0xC0A80107 1024 (without_passive guest)))
unfolding equal decimal digits_of
ftp_port-passive_reply_example =
    ftp_port-passive_reply ⦃os = port_os⦄ 1 0xC0A80107 1024 guest sample_world refl (omega arith)
      refl

ftp_rest-decimal_example :
    Ensures (ftp_rest ⦃os = sample_os⦄ 1 (decimal 1048576) sample_world) (λ _ w'.
      w'.ftp ≡ record sample_world.ftp {
        heap = update sample_world.ftp.heap 1 (some (restarting 1048576 guest));
      })
ftp_rest-decimal_example =
    ftp_rest-decimal ⦃os = sample_os⦄ 1 1048576 guest sample_world refl (omega arith)

-- A command, and a part of the next one.
abbrev part : Bytes
part = codes "noop" ++ b'\r' ∷ b'\n' ∷ codes "no"

abbrev other_part : Bytes
other_part = codes "op" ++ b'\r' ∷ b'\n' ∷ []

process_lines-run_lines_example :
    process_lines ⦃os = sample_os⦄ 10 10 1 part sample_world
    ≡ run_lines ⦃os = sample_os⦄ 10 1 (cut part).0 (cut part).1 sample_world
process_lines-run_lines_example =
    process_lines-run_lines ⦃os = sample_os⦄ 10 10 1 part sample_world (omega arith)

process_lines-append_example :
    process_lines ⦃os = sample_os⦄
      (length (part ++ other_part) + 1)
      10
      1
      (part ++ other_part)
      sample_world
    ≡ continue
        (process_lines ⦃os = sample_os⦄ (length part + 1) 10 1 part sample_world)
        (go_on ⦃os = sample_os⦄ 10 1 other_part)
process_lines-append_example =
    process_lines-append ⦃os = sample_os⦄ 10 1 part other_part sample_world

length-list_line_example :
    (length (list_line ⦃os = sample_os⦄ (codes "a.txt") no_stat) + 1 ≤ 128 + 56 + 2 + 1)
    × (length (nlst_line ⦃os = sample_os⦄ (codes "a.txt") no_stat) + 1 ≤ 128 + 2)
length-list_line_example =
    length-list_line ⦃os = sample_os⦄ (codes "a.txt") no_stat (omega arith) (omega arith)
      (omega arith)
