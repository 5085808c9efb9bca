-- ===== src/Io.antt =====
-- The standard library's streams, as the code uses them. A reader is the list of the bytes that are
-- still to be read; a file is its bytes and a position. Only the end of a reader is an error here:
-- faults of a device are not modelled.
pub mod Laws
pub mod Append
use cy.Common.{
  ℕ, ◌+◌, ◌-◌, ◌≡◌, ◌++◌, Bool, true, false, Result, ok, err, leb, if◌then◌else◌, length, take,
  drop, replicate,
}
use cy.Bytes.{Bytes}
use cy.Errors.{IoError, unexpected_eof}

-- `if !(test) { return Err(e) }`
abbrev pub require : {E : Type 0} → Bool → E → Result E (Unit {0})
require true e = ok tt
require false e = err e

-- `read_exact` into a buffer of `n` bytes, and what is left to read.
unfoldable pub read_exact : ℕ → Bytes → Result IoError (Bytes × Bytes)
read_exact n r = if leb n (length r) then ok (take n r, drop n r) else err unexpected_eof

-- A file that is written to: its bytes, and the position.
pub record File : Type 0 where
  pub bytes : Bytes
  pub pos : ℕ

-- `write_all` at the position: a gap is filled with zeros, what is there is overwritten.
unfoldable pub write_all : Bytes → File → File
write_all d f = record {
  bytes =
      (take f.pos f.bytes ++ replicate (f.pos - length f.bytes) 0)
      ++ (d ++ drop (f.pos + length d) f.bytes);
  pos = f.pos + length d;
}

-- `seek(SeekFrom::Start(n))`
unfoldable pub seek_start : ℕ → File → File
seek_start n f = record f { pos = n }
