-- ===== src/Fs/Table.antt =====
-- The constant columns of VIRTUAL_PARTITIONS, source/fs.c, and the classes of its rows.
use ftpii.Base.{Bool, true, false, List, [], ◌∷◌, Bytes, codes}
use ftpii.Os.{Partition, gcsda, gcsdb, sd, usb, dvd, wod, fst, nand, isfs, otp, seeprom}

-- The rows in order: the loops over the table go through them so.
abbrev pub virtual_partitions : List Partition
virtual_partitions = gcsda ∷ gcsdb ∷ sd ∷ usb ∷ dvd ∷ wod ∷ fst ∷ nand ∷ isfs ∷ otp ∷ seeprom ∷ []

abbrev pub mount_point : Partition → Bytes
mount_point gcsda = codes "carda"
mount_point gcsdb = codes "cardb"
mount_point sd = codes "sd"
mount_point usb = codes "usb"
mount_point dvd = codes "dvd"
mount_point wod = codes "wod"
mount_point fst = codes "fst"
mount_point nand = codes "nand"
mount_point isfs = codes "isfs"
mount_point otp = codes "otp"
mount_point seeprom = codes "seeprom"

abbrev pub alias : Partition → Bytes
alias gcsda = codes "/carda"
alias gcsdb = codes "/cardb"
alias sd = codes "/sd"
alias usb = codes "/usb"
alias dvd = codes "/dvd"
alias wod = codes "/wod"
alias fst = codes "/fst"
alias nand = codes "/nand"
alias isfs = codes "/isfs"
alias otp = codes "/otp"
alias seeprom = codes "/seeprom"

abbrev pub prefix : Partition → Bytes
prefix gcsda = codes "carda:/"
prefix gcsdb = codes "cardb:/"
prefix sd = codes "sd:/"
prefix usb = codes "usb:/"
prefix dvd = codes "dvd:/"
prefix wod = codes "wod:/"
prefix fst = codes "fst:/"
prefix nand = codes "nand:/"
prefix isfs = codes "isfs:/"
prefix otp = codes "otp:/"
prefix seeprom = codes "seeprom:/"

abbrev pub is_gecko : Partition → Bool
is_gecko gcsda = true
is_gecko gcsdb = true
is_gecko _ = false

abbrev pub is_fat : Partition → Bool
is_fat sd = true
is_fat usb = true
is_fat p = is_gecko p

abbrev pub is_dvd : Partition → Bool
is_dvd dvd = true
is_dvd wod = true
is_dvd fst = true
is_dvd _ = false
