-- ===== src/Io/Append.antt =====
-- `write_all` at the end of a file, and over its front.
use cy.Common.{
  ◌+◌, ◌-◌, ◌≡◌, ◌++◌, append-nil, arith, length, take, drop, replicate, length-append, take-all,
  drop-all,
}
use cy.Bytes.{Bytes}
use cy.Io.{File, write_all, seek_start}

-- The position is at the end.
abbrev pub AtEnd : File → Type 0
AtEnd f = f.pos ≡ length f.bytes

-- A write at the end appends, and leaves the position at the end.
pub write_all-AtEnd :
    (d : Bytes) (f : File)
    → AtEnd f
    → ((write_all d f).bytes ≡ f.bytes ++ d) × AtEnd (write_all d f)
unfolding write_all
write_all-AtEnd d f end =
    let gap : f.pos - length f.bytes ≡ 0 = omega arith in
    let bytes : (take f.pos f.bytes ++ replicate (f.pos - length f.bytes) 0)
          ++ (d ++ drop (f.pos + length d) f.bytes)
        ≡ f.bytes ++ d =
      rw (
        gap,
        take-all f.pos f.bytes (omega arith),
        append-nil f.bytes,
        drop-all (f.pos + length d) f.bytes (omega arith),
        append-nil d,
      ) in
    (bytes, rw bytes (omega (arith, length-append f.bytes d)))

-- A write at the front replaces as many bytes as it has.
pub write_all-front :
    (d : Bytes) (f : File) → (write_all d (seek_start 0 f)).bytes ≡ d ++ drop (length d) f.bytes
unfolding write_all seek_start
write_all-front d f =
    let gap : 0 - length f.bytes ≡ 0 = omega arith in
    let past : 0 + length d ≡ length d = omega arith in rw (gap, past)
