-- ===== src/BaseAsn1/Tag.antt =====
-- Safe_transmission/ServerSeckey/ServerSeckey/BaseASN1.h: the tags that the code writes.
use Prim.Native.Nat.{ℕ}

abbrev pub integer : ℕ
integer = 2

abbrev pub bitstring : ℕ
bitstring = 3

abbrev pub null : ℕ
null = 5

abbrev pub sequence : ℕ
sequence = 0x30

-- ITCAST_DER_ID_SEQUENCE.
abbrev pub sequence_id : ℕ
sequence_id = 16

abbrev pub printable : ℕ
printable = 19

abbrev pub bmp : ℕ
bmp = 30
