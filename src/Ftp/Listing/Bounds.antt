-- ===== src/Ftp/Listing/Bounds.antt =====
-- The buffers of `send_nlst` and `send_list`, source/ftp.c.
use ftpii.Base.{
  ℕ, zero, suc, ◌+◌, ◌-◌, ◌≤◌, ◌<◌, ◌^◌, ◌≡◌, refl, ap, ◌∷◌, ◌++◌, arith, Bytes, codes, decimal,
  length, length-append,
}
use ftpii.Os.{Stat, Os}
use ftpii.Ftp.Reply.{crlf}
use ftpii.Ftp.Numbers.Decimals.{length-digits_of}
use ftpii.Ftp.Listing.{spaces, padded, list_line, nlst_line}

length-spaces : (n : ℕ) → length (spaces n) ≡ n
length-spaces zero = refl
length-spaces (suc n) = ap suc (length-spaces n)

length-padded : (n : ℕ) → n < 10 ^ 12 → length (padded n) ≤ 12
unfolding padded decimal
length-padded n h =
    let l : length (decimal n) ≤ 12 = length-digits_of (n + 1) n 12 (omega arith) h in
    omega (
      arith,
      l,
      length-append (spaces (10 - length (decimal n))) (decimal n),
      length-spaces (10 - length (decimal n)),
    )

module _ ⦃os : Os⦄ where
  -- Where the name with its terminator fits in MAXPATHLEN bytes, the date is no longer than its 12
  -- bytes, and the size has at most 12 digits, the line of `send_list` and its terminator fit in the
  -- MAXPATHLEN + 56 + 2 + 1 bytes of `line`, and the line of `send_nlst` and its terminator in the
  -- MAXPATHLEN + 2 bytes of `filename`.
  pub length-list_line :
      (filename : Bytes) (st : Stat)
      → length filename + 1 ≤ os.maxpathlen
      → length (os.timestamp st.mtime) ≤ 12
      → st.size < 10 ^ 12
      → (length (list_line filename st) + 1 ≤ os.maxpathlen + 56 + 2 + 1)
        × (length (nlst_line filename st) + 1 ≤ os.maxpathlen + 2)
  unfolding list_line nlst_line
  length-list_line filename st h k s =
      let date = os.timestamp st.mtime in
      let tail = b' ' ∷ (date ++ (b' ' ∷ (filename ++ crlf))) in
      let l = length-padded st.size s in
      (
        omega (
          arith,
          h,
          k,
          l,
          length-append (codes "rwxr-xr-x    1 0        0     ") (padded st.size ++ tail),
          length-append (padded st.size) tail,
          length-append date (b' ' ∷ (filename ++ crlf)),
          length-append filename crlf,
        ),
        omega (arith, h, length-append filename crlf),
      )
