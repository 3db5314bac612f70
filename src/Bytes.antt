-- ===== src/Bytes.antt =====
-- Byte strings, and the readers that the on-disk formats share. A byte is a number below 256; a
-- Rust `String` is the list of its UTF-8 bytes, so `as_bytes` is the identity and `len` the length.
mod Word
mod Read
mod Text
mod Progress
mod Encoded
pub use Word.{Bytes, IsByte, IsU32, IsU64, length-le_bytes, le_bytes-IsByte, from_le_bytes-le_bytes}
unfoldable pub use Word.{le_bytes, from_le_bytes}
pub use Read.{
  Reader, pure, fail, lift, ◌>>=◌, ◌>>◌, read_exact-append, read_exact_ok, read_exact_eof,
  bind-read_exact, bind-lift, bind-eq,
}
unfoldable pub use Read.{read_exact}
pub use Progress.{
  IsLocal, IsLocal-read_exact, IsLocal-pure, IsLocal-fail, IsLocal-lift, IsLocal-if, IsLocal-weaken,
  IsLocal-bind, IsLocal-read_some, >>=-eq-ok,
}
pub use Text.{lossy_of_utf8}
unfoldable pub use Text.{is_utf8, from_utf8, from_utf8_lossy}
pub use Encoded.{read_size, from_utf8_ok, one_byte, bind-word, bind-sized}
