-- ===== src/Hash/Tests.antt =====
-- A table of 2^15 entries.
use zrip.Common.{◌^◌, ◌<◌, arith}
use zrip.Hash.{hash4, hash5, hash6, hash7, hash8}
use zrip.Hash.Range.{hash_range}

hash_range_example :
    (hash4 1234 15 < 2 ^ 15)
    × (hash5 1234 15 < 2 ^ 15)
    × (hash6 1234 15 < 2 ^ 15)
    × (hash7 1234 15 < 2 ^ 15)
    × (hash8 1234 15 < 2 ^ 15)
hash_range_example = hash_range 1234 15 (omega arith) (omega arith)
