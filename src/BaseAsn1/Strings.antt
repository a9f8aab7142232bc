-- ===== src/BaseAsn1/Strings.antt =====
-- Safe_transmission/ServerSeckey/ServerSeckey/BaseASN1.cpp: the string types, one writer and one
-- reader each.
pub mod RoundTrip
use safe_transmission.Common.{ℕ, ◌==◌, if◌then◌else◌, Result, ok, ◌>>=◌}
use safe_transmission.BaseAsn1.Memory.{Allocator, AnyBuf, read_bytes, copy_in}
use safe_transmission.BaseAsn1.Tag
use safe_transmission.BaseAsn1.Element.{write_tag_and_length, read_tag_and_length}

module _ (malloc : Allocator) where
  unfoldable pub write_bit_string : AnyBuf → Result AnyBuf
  write_bit_string any = do
    (out, room) ← write_tag_and_length malloc any Tag.bitstring
    copy_in out room any.p_data any.data_len

  unfoldable pub read_bit_string : AnyBuf → Result AnyBuf
  read_bit_string any = do
    (out, p) ← read_tag_and_length malloc any
    bytes ← read_bytes out.data_len p
    ok (record out { p_data = bytes })

  unfoldable pub write_char_string : AnyBuf → Result AnyBuf
  write_char_string any = do
    (out, room) ← write_tag_and_length malloc any Tag.printable
    copy_in out room any.p_data any.data_len

  unfoldable pub read_char_string : AnyBuf → Result AnyBuf
  read_char_string any = do
    (out, p) ← read_tag_and_length malloc any
    bytes ← read_bytes out.data_len p
    ok (record out { p_data = bytes })

  unfoldable pub write_bmp_string : AnyBuf → Result AnyBuf
  write_bmp_string any = do
    (out, room) ← write_tag_and_length malloc any Tag.bmp
    copy_in out room any.p_data any.data_len

  unfoldable pub read_bmp_string : AnyBuf → Result AnyBuf
  read_bmp_string any = do
    (out, p) ← read_tag_and_length malloc any
    bytes ← read_bytes out.data_len p
    ok (record out { p_data = bytes })

  unfoldable pub write_printable_string : AnyBuf → Result AnyBuf
  write_printable_string any =
      if any.data_type == Tag.bmp then write_bmp_string any else write_char_string any

  unfoldable pub read_printable_string : AnyBuf → Result AnyBuf
  read_printable_string any = do
    (out, p) ← read_tag_and_length malloc any
    bytes ← read_bytes out.data_len p
    ok (record out { p_data = bytes })
