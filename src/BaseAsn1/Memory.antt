-- ===== src/BaseAsn1/Memory.antt =====
-- Safe_transmission/ServerSeckey/ServerSeckey/BaseASN1.h: the node type, the constants, and the
-- inline functions that ask for memory.
use safe_transmission.Common.{
  ℕ, ◌%◌, ◌≤◌, ◌≡◌, Bool, true, List, ◌++◌, ltb, leb, if◌then◌else◌, length, take, Result, ok,
  fault, ◌>>=◌, ◌>>◌, need,
}

-- `malloc n` says whether a request of `n` bytes is granted. The C library is not part of the
-- program, so it is a parameter.
abbrev pub Allocator : Type 0
Allocator = ℕ → Bool

-- ITCAST_ANYBUF without its links: a chain of nodes is a list. `p_data` holds the bytes that have
-- been written from the pointer on, up to the end of the block; a null pointer is the empty list.
pub record AnyBuf : Type 0 where
  pub p_data : List ℕ
  pub data_len : ℕ
  pub unused_bits : ℕ
  pub memory_type : ℕ
  pub data_type : ℕ

-- enum DerErrType.
abbrev pub memory_err : ℕ
memory_err = 200

abbrev pub length_err : ℕ
length_err = 201

abbrev pub length_not_equal : ℕ
length_not_equal = 202

abbrev pub data_range_err : ℕ
data_range_err = 203

abbrev pub invalid_tag : ℕ
invalid_tag = 204

abbrev pub malloc_memory : ℕ
malloc_memory = 2

-- `b & 0x80`, for a byte.
abbrev pub top_bit : ℕ → Bool
top_bit b = leb 128 b

-- sizeof(ITCAST_UINT32), for an `unsigned long`, and sizeof(ITCAST_ANYBUF).
abbrev pub ulong_size : ℕ
ulong_size = 8

abbrev pub anybuf_size : ℕ
anybuf_size = 56

-- DER_ITASN1_LOW_IDENTIFIER: `cTag & 0x1F`.
abbrev pub identifier : ℕ → ℕ
identifier tag = tag % 32

-- A request whose answer the code uses without a test: what follows writes through the pointer.
abbrev pub alloc : Allocator → ℕ → Result (Unit {0})
alloc malloc n = need (malloc n)

-- `memcpy(_, src, n)`, as far as its source goes.
unfoldable pub read_bytes : ℕ → List ℕ → Result (List ℕ)
read_bytes n src = if ltb (length src) n then fault else ok (take n src)

-- `memcpy(_, src, n)` behind what `out` holds, where the block has `room` bytes left.
unfoldable pub copy_in : AnyBuf → ℕ → List ℕ → ℕ → Result AnyBuf
copy_in out room src n = do
  bytes ← read_bytes n src
  need (leb n room)
  ok (record out { p_data = out.p_data ++ bytes })

-- Every request of up to `n` bytes is granted.
abbrev pub Grants : Allocator → ℕ → Type 0
Grants malloc n = (k : ℕ) → k ≤ n → malloc k ≡ true
