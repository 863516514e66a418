-- ===== src/Go.antt =====
-- What the modelled code uses of Go and its standard library.
mod Defs
mod Bytes
mod Words
mod Laws
mod Reads
pub mod Text
pub mod Strings
pub mod Scan
pub mod Map
pub mod IntMap
pub use Defs.{
  Result, ok, err, panic, ◌>>=◌, wrap, or_panic, Result-cases, bind-ok, bind-eq-ok, bind-ne-panic,
  bind-ne-err, or_panic-ne-err, Slice, exact, split_at?, cut, slice,
}
unfoldable pub use Defs.{slice?, slice_from?}
pub use Bytes.{
  IsByte, IsU16, IsU32, IsU64, join16, join32, join64, put_front, put_at, copy_at, join16-bytes16,
  join32-bytes32, join64-bytes64, bytes32-join32,
}
unfoldable pub use Bytes.{bytes16, bytes32, bytes64, uint16?, uint32?, uint64?, copy}
pub use Laws.*
pub use Reads.*
pub use Words.{read16, read32, read64, put16, put32, put64, put_byte, copy_to}
