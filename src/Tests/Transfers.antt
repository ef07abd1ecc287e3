-- ===== src/Tests/Transfers.antt =====
-- The theorems on files that are received, sent and loaded at concrete inputs.
use ftpii.Base.{
  inl, All, none, if◌then◌else◌, ◌==◌, ℕ, zero, suc, ◌≤◌, ◌<◌, ◌≡◌, List, [], ◌∷◌, arith, Bytes,
  length,
}
use ftpii.Os.{S32, val, Call, net_read, net_write, fwrite, fread, Event, Os}
use ftpii.Dol.{Memory, header_word, entry_point, load_dol_image}
use ftpii.Dol.Sections.{sections, Outside, IsLoaded}
use ftpii.Dol.Memory.{load_dol_image-IsLoaded}
use ftpii.World.Triple.{Ensures}
use ftpii.Net.{recv_to_file, send_from_file}
use ftpii.Net.Receive.{Receives}
use ftpii.Net.Receive.Loop.{Finite, recv_to_file-Receives}
use ftpii.Net.Send.{Sends, send_from_file-Sends}
use ftpii.Tests.{answer_code, no_stat, sample_os, sample_world}

-- A peer that sends one byte and then closes, and a file that takes what it is given.
abbrev upload_code : List Event → Call → S32
upload_code [] (net_read s (suc n)) = val 1
upload_code past (net_read s n) = val 0
upload_code past (fwrite f b) = val (length b)
upload_code past c = answer_code c

abbrev upload_payload : List Event → Call → Bytes
upload_payload [] (net_read s (suc n)) = 65 ∷ []
upload_payload past c = []

upload_read :
    (past : List Event) (s : S32) (len n : ℕ)
    → upload_code past (net_read s len) ≡ val n
    → (n ≤ len) × (length (upload_payload past (net_read s len)) ≡ n)
upload_read [] s zero n e = ground arith
upload_read [] s (suc len) n e = ground arith
upload_read (x ∷ past) s len n e = ground arith

upload_write :
    (past : List Event) (s : S32) (b : Bytes) (n : ℕ)
    → upload_code past (net_write s b) ≡ val n
    → n ≤ length b
upload_write [] s b n e = ground arith
upload_write (x ∷ past) s b n e = ground arith

upload_file : (past : List Event) (f len : ℕ) → length (upload_payload past (fread f len)) ≤ len
upload_file [] f len = omega arith
upload_file (x ∷ past) f len = omega arith

abbrev upload_os : Os
upload_os = record sample_os {
  respond = λ past c. record {
    code = upload_code past c;
    payload = upload_payload past c;
    info = no_stat;
  };
  net_write-le = upload_write;
  net_read-le = upload_read;
  fread-le = upload_file;
}

abbrev stream_left : List Event → ℕ
stream_left [] = 1
stream_left (e ∷ past) = 0

stream_spent :
    (past : List Event) (s : S32) (size n : ℕ)
    → upload_code past (net_read s size) ≡ val (suc n)
    → 0 < stream_left past
stream_spent [] s size n e = omega arith
stream_spent (x ∷ past) s size n e = ground arith

abbrev upload_stream : Finite ⦃os = upload_os⦄ (val 6) 7
upload_stream = record {
  left = stream_left;
  spent = λ past size n b e. stream_spent past (val 6) size n e;
  kept = λ past size e h. omega arith;
}

recv_to_file-Receives_example :
    Ensures
      (recv_to_file ⦃os = upload_os⦄ 10 (val 6) 7 sample_world)
      (Receives (val 6) 7 sample_world)
recv_to_file-Receives_example =
    recv_to_file-Receives ⦃os = upload_os⦄ 10 (val 6) 7 sample_world upload_stream (omega arith)

send_from_file-Sends_example :
    Ensures
      (send_from_file ⦃os = sample_os⦄ (val 6) 7 sample_world)
      (Sends ⦃os = sample_os⦄ (val 6) 7 sample_world)
send_from_file-Sends_example = send_from_file-Sends ⦃os = sample_os⦄ (val 6) 7 sample_world

-- Memory with an image at 0x92000000, which has one text section of two bytes, from its place 256, to go
-- to address 4096.
abbrev sample_memory : Memory
sample_memory i =
    if i == 0x92000002
    then 1
    else if i == 0x9200004A
    then 16
    else if i == 0x92000093
    then 2
    else if i == 0x92000100
    then 77
    else 0

load_dol_image-IsLoaded_example :
    Ensures (load_dol_image ⦃os = sample_os⦄ sample_memory 0x92000000 none sample_world) (λ r _.
      (r.0 ≡ entry_point sample_memory 0x92000000)
      × All (IsLoaded sample_memory r.1) (sections sample_memory 0x92000000)
      × ((i : ℕ) → All (Outside i) (sections sample_memory 0x92000000) → r.1 i ≡ sample_memory i))
unfolding header_word
load_dol_image-IsLoaded_example =
    load_dol_image-IsLoaded ⦃os = sample_os⦄ 0x92000000 258 sample_memory sample_world (omega arith)
      (omega arith) ((omega arith, inl (omega arith)), tt) (tt, tt)
