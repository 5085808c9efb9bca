-- ===== src/Plugin.antt =====
-- src/plugin.rs: the wrapper of a codec plugin. The functions of a plugin are foreign code: each gets the
-- bytes of its input, an output buffer and the capacity it is told, and returns its code, what is then in
-- the buffer, and the length that it says it wrote.
pub mod Laws
use cy.Common.{
  ℕ, zero, suc, ◌%◌, ◌^◌, ℤ, pos, negsuc, Bool, true, false, Option, Result, ok, err, ◌>>=◌, ok_or,
  ltb, if◌then◌else◌, length, take, replicate,
}
use cy.Bytes.{Bytes}

abbrev pub sixcy_plugin_abi_version : ℕ
sixcy_plugin_abi_version = 1

-- `*const u8` with a length, `*mut u8` and `*mut u32`; a code, the buffer and the length come back.
abbrev pub Compress : Type 0
Compress = Bytes → Bytes → ℕ → ℤ → ℤ × Bytes × ℕ

abbrev pub Decompress : Type 0
Decompress = Bytes → Bytes → ℕ → ℤ × Bytes × ℕ

pub record SixcyCodecPlugin : Type 0 where
  pub uuid : Bytes
  pub short_id : ℕ
  pub abi_version : ℕ
  pub compress : Option Compress
  pub decompress : Option Decompress
  pub compress_bound : Option (ℕ → ℕ)

-- The messages of the wrapper.
pub data PluginError : Type 0 where
  newer_abi : ℕ → PluginError
  missing_compress missing_compress_bound missing_decompress : PluginError
  compress_code decompress_code : ℤ → PluginError

pub record PluginCodec : Type 0 where
  pub desc : SixcyCodecPlugin

unfoldable pub new : SixcyCodecPlugin → Result PluginError PluginCodec
new desc =
    if ltb sixcy_plugin_abi_version desc.abi_version
    then err (newer_abi desc.abi_version)
    else ok (record { desc = desc })

unfoldable pub uuid : PluginCodec → Bytes
uuid c = c.desc.uuid

-- `rc == rc::OK`
unfoldable pub is_ok : ℤ → Bool
is_ok (pos zero) = true
is_ok (pos (suc n)) = false
is_ok (negsuc n) = false

-- What is made of a return: the buffer is truncated to the length that was written.
unfoldable pub outcome : (ℤ → PluginError) → ℤ × Bytes × ℕ → Result PluginError Bytes
unfolding is_ok
outcome failed (rc, out, out_len) = if is_ok rc then ok (take out_len out) else err (failed rc)

-- The input that a foreign function is given: as many bytes as `len() as u32` says.
unfoldable pub in_buf : Bytes → Bytes
in_buf contents = take (length contents % 2 ^ 32) contents

unfoldable pub compress : PluginCodec → Bytes → ℤ → Result PluginError Bytes
unfolding outcome in_buf
compress c contents level = do
  f ← ok_or missing_compress c.desc.compress
  bound_fn ← ok_or missing_compress_bound c.desc.compress_bound
  let cap = bound_fn (length contents % 2 ^ 32)
  outcome compress_code (f (in_buf contents) (replicate cap 0) (cap % 2 ^ 32) level)

unfoldable pub decompress : PluginCodec → Bytes → ℕ → Result PluginError Bytes
unfolding outcome in_buf
decompress c contents orig_size = do
  f ← ok_or missing_decompress c.desc.decompress
  outcome decompress_code (f (in_buf contents) (replicate orig_size 0) (orig_size % 2 ^ 32))
