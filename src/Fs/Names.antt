-- ===== src/Fs/Names.antt =====
-- `dirname` and `basename` of source/fs.c.
pub mod Parts
use ftpii.Base.{
  ℕ, zero, suc, ◌+◌, ◌-◌, Bool, Option, none, some, [], Bytes, ◌==◌, get_elem?, length, take, drop,
  if◌then◌else◌,
}
use ftpii.Os.{Os}

-- The loops of both functions, from the index `i - 1` down: the index of the slash that they stop at.
unfoldable pub last_slash : ℕ → Bytes → Option ℕ
last_slash zero path = none
last_slash (suc i) path =
    let rest = last_slash i path in
    elim (get_elem? path i) [ some c ↦ if c == b'/' then some i else rest | none ↦ rest ]

unfoldable pub dirname : ⦃os : Os⦄ → Bytes → Bytes
unfolding last_slash
dirname ⦃os⦄ path =
    let result = take (os.maxpathlen - 1) path in
    elim (last_slash (length result) result) [ some i ↦ take i result | none ↦ [] ]

unfoldable pub basename : Bytes → Bytes
unfolding last_slash
basename path = elim (last_slash (length path) path) [ some i ↦ drop (i + 1) path | none ↦ path ]
