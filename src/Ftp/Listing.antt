-- ===== src/Ftp/Listing.antt =====
-- `send_nlst` and `send_list` of source/ftp.c: the names in a directory, one to a line. The fuel is
-- for the loop over the entries, which the device ends.
pub mod Bounds
use ftpii.Base.{
  ℕ, zero, suc, ◌-◌, ◌++◌, ◌∷◌, [], none, some, Bytes, codes, decimal, length, if◌then◌else◌,
}
use ftpii.Os.{S32, val, err, Stat, Os}
use ftpii.World.{Dir, M, stuck, pure, ◌>>=◌}
use ftpii.Net.{send_exact}
use ftpii.Vrt.{vrt_dirnext}
use ftpii.Ftp.Reply.{crlf}

abbrev pub spaces : ℕ → Bytes
spaces zero = []
spaces (suc n) = b' ' ∷ spaces n

-- `%10llu`
unfoldable pub padded : ℕ → Bytes
unfolding decimal
padded n = spaces (10 - length (decimal n)) ++ decimal n

module _ ⦃os : Os⦄ where
  -- `"%crwxr-xr-x    1 0        0     %10llu %s %s\r\n"`
  unfoldable pub list_line : Bytes → Stat → Bytes
  unfolding padded
  list_line filename st =
      (if st.is_dir then b'd' else b'-')
      ∷ (codes "rwxr-xr-x    1 0        0     "
          ++ (padded st.size ++ (b' ' ∷ (os.timestamp st.mtime ++ (b' ' ∷ (filename ++ crlf))))))

  unfoldable pub nlst_line : Bytes → Stat → Bytes
  nlst_line filename st = filename ++ crlf

  -- The loop that both functions have, over their line for an entry. `st` is what the structure holds
  -- from the entry before.
  unfoldable pub send_entries : ℕ → (Bytes → Stat → Bytes) → S32 → Dir → Stat → M S32
  send_entries zero line data_socket dir st w = stuck
  send_entries (suc fuel) line data_socket dir st w =
      (do
        entry ← vrt_dirnext dir st
        elim entry [
          | none ↦ pure (val 0)
          | some (filename, st') ↦ do
            result ← send_exact data_socket (line filename st')
            elim result [
              | err e ↦ pure (err e)
              | val _ ↦ send_entries fuel line data_socket dir st'
            ]
        ])
        w

  unfoldable pub send_nlst : ℕ → S32 → Dir → M S32
  unfolding send_entries nlst_line
  send_nlst fuel data_socket dir = send_entries fuel nlst_line data_socket dir os.garbage

  unfoldable pub send_list : ℕ → S32 → Dir → M S32
  unfolding send_entries list_line
  send_list fuel data_socket dir = send_entries fuel list_line data_socket dir os.garbage
