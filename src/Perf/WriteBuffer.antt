-- ===== src/Perf/WriteBuffer.antt =====
-- `WriteBuffer` of src/perf.rs over an inner writer, which is the bytes that were written to it. The
-- counter `bytes_written` is kept without the wrap of a `u64`.
pub mod Laws
use cy.Common.{ℕ, ◌+◌, List, [], ◌∷◌, ◌++◌, leb, if◌then◌else◌, length}
use cy.Bytes.{Bytes}

pub record WriteBuffer : Type 0 where
  pub inner : Bytes
  pub buf : Bytes
  pub capacity : ℕ
  pub bytes_written : ℕ

unfoldable pub new : Bytes → ℕ → WriteBuffer
new inner capacity = record { inner = inner; buf = []; capacity = capacity; bytes_written = 0 }

unfoldable pub flush_if_full : WriteBuffer → WriteBuffer
flush_if_full w =
    if leb w.capacity (length w.buf) then record w { inner = w.inner ++ w.buf; buf = [] } else w

-- `write`: the new state, and the count of bytes that it returns.
unfoldable pub write : WriteBuffer → Bytes → WriteBuffer × ℕ
unfolding flush_if_full
write w bytes =
    let stored =
      if leb w.capacity (length bytes)
      then record w { inner = (w.inner ++ w.buf) ++ bytes; buf = [] }
      else flush_if_full (record w { buf = w.buf ++ bytes }) in
    (record stored { bytes_written = stored.bytes_written + length bytes }, length bytes)

unfoldable pub flush : WriteBuffer → WriteBuffer
flush w = if leb 1 (length w.buf) then record w { inner = w.inner ++ w.buf; buf = [] } else w

-- A sequence of `write_all`s. As `write` takes all of its bytes, each makes one call.
unfoldable pub write_each : WriteBuffer → List Bytes → WriteBuffer
write_each w [] = w
write_each w (b ∷ bs) = write_each (write w b).0 bs
