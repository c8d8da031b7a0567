-- ===== src/Binary/Tests.antt =====
-- A number of 24 bits, written and read.
use dorsvr.Common.{◌<◌, ◌^◌, ◌≡◌, some}
use dorsvr.Binary.{uint16, uint32, le_uint32, put_uint16, put_uint24, put_uint32, le_put_uint32}
use dorsvr.Binary.RoundTrip.{put_roundtrip}

put_roundtrip_example :
    (0x12345 < 2 ^ 16 → uint16 (put_uint16 0x12345) ≡ some 0x12345)
    × (0x12345 < 2 ^ 24 → uint32 (put_uint24 0x12345) ≡ some 0x12345)
    × (0x12345 < 2 ^ 32 → uint32 (put_uint32 0x12345) ≡ some 0x12345)
    × (0x12345 < 2 ^ 32 → le_uint32 (le_put_uint32 0x12345) ≡ some 0x12345)
put_roundtrip_example = put_roundtrip 0x12345
