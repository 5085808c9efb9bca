-- ===== src/Plugin/Laws.antt =====
-- What the wrapper of src/plugin.rs makes of a plugin that keeps to its contract.
use cy.Common.{
  ℕ, ◌%◌, ◌^◌, ◌≤◌, ◌<◌, ◌≡◌, refl, sym, ap, ◌∙◌, subst, ℤ, pos, zero, suc, negsuc, Option, none,
  some, ok, ok_or, >>=-eq-ok, ok_injective, arith, length, take, replicate, length-take,
  length-replicate, take-all,
}
use cy.Bytes.{Bytes}
use cy.Plugin.{
  Compress, Decompress, SixcyCodecPlugin, PluginCodec, PluginError, missing_compress,
  missing_compress_bound, compress_code, is_ok, outcome, in_buf, compress, decompress,
}

-- The contract in plugin_abi/sixcy_plugin.h. A bound is a 32-bit number. A compression that says OK writes
-- no more than the capacity, into the buffer; its output is decompressed with OK to the input, into any
-- buffer that has room for exactly that.
pub record IsPlugin (p : SixcyCodecPlugin) : Type 0 where
  pub bounded : (bound : ℕ → ℕ) (n : ℕ) → p.compress_bound ≡ some bound → bound n < 2 ^ 32
  pub decompresses : (g : Decompress) × (p.decompress ≡ some g)
  pub inside :
      (f : Compress) (d out out' : Bytes) (n : ℕ) (level : ℤ)
      → p.compress ≡ some f
      → f d out (length out) level ≡ (pos 0, out', n)
      → (n ≤ length out) × (length out' ≡ length out)
  pub lossless :
      (f : Compress) (g : Decompress) (d out out' room : Bytes) (n : ℕ) (level : ℤ)
      → p.compress ≡ some f
      → p.decompress ≡ some g
      → f d out (length out) level ≡ (pos 0, out', n)
      → length room ≡ length d
      → g (take n out') room (length d) ≡ (pos 0, d, length d)

outcome-ok :
    (failed : ℤ → PluginError) (r : ℤ × Bytes × ℕ) (e : Bytes)
    → outcome failed r ≡ ok e
    → (r.0 ≡ pos 0) × (take r.2 r.1 ≡ e)
unfolding outcome is_ok
outcome-ok failed (pos zero, out, n) e h = (refl, ok_injective h)
outcome-ok failed (pos (suc k), out, n) e h = cc h
outcome-ok failed (negsuc k, out, n) e h = cc h

ok_or-eq-ok : {A : Type 0} (x : PluginError) (o : Option A) (a : A) → ok_or x o ≡ ok a → o ≡ some a
ok_or-eq-ok x none a h = cc h
ok_or-eq-ok x (some b) a h = ap some (ok_injective h)

decompress_told :
    (c : PluginCodec) (g : Decompress) (d e : Bytes) (m : ℕ)
    → c.desc.decompress ≡ some g
    → length e < 2 ^ 32
    → m < 2 ^ 32
    → length d ≡ m
    → g e (replicate m 0) m ≡ (pos 0, d, m)
    → decompress c e m ≡ ok d
unfolding decompress in_buf outcome is_ok
decompress_told c g d e m named short small size back =
    let whole : take (length e % 2 ^ 32) e ≡ e = take-all (length e % 2 ^ 32) e (omega arith) in
    let told : m % 2 ^ 32 ≡ m = omega arith in
    rw (named, whole, told, back) (ap ok (take-all m d (omega arith)))

-- For a plugin that keeps to its contract: if `compress` returns data for any input, these are
-- shorter than 2^32 bytes, and `decompress` to the input's length modulo 2^32 gives back as many
-- bytes of the input as that length: all of an input below 4 GiB, and of a longer one only a start.
pub plugin_roundtrip :
    (c : PluginCodec) (d e : Bytes) (level : ℤ)
    → IsPlugin c.desc
    → compress c d level ≡ ok e
    → (length e < 2 ^ 32) × (decompress c e (length d % 2 ^ 32) ≡ ok (take (length d % 2 ^ 32) d))
unfolding compress decompress in_buf outcome is_ok
plugin_roundtrip c d e level p h =
    let m : ℕ = length d % 2 ^ 32 in
    let (f, named, h1) = >>=-eq-ok (ok_or missing_compress c.desc.compress) _ h in
    let (bound, bounding, h2) =
      >>=-eq-ok (ok_or missing_compress_bound c.desc.compress_bound) _ h1 in
    let its : c.desc.compress ≡ some f = ok_or-eq-ok missing_compress c.desc.compress f named in
    let cap : ℕ = bound m in
    let fits : cap < 2 ^ 32 =
      p.bounded bound m (ok_or-eq-ok missing_compress_bound c.desc.compress_bound bound bounding) in
    let out : Bytes = replicate cap 0 in
    let told : cap % 2 ^ 32 ≡ length out = omega (arith, length-replicate {A = ℕ} cap 0) in
    let r : ℤ × Bytes × ℕ = f (in_buf d) out (length out) level in
    let (fine, cut) =
      outcome-ok compress_code r e
        (subst (λ k. outcome compress_code (f (in_buf d) out k level) ≡ ok e) told h2) in
    let done_ok : r ≡ (pos 0, r.1, r.2) = ap (λ rc. (rc, r.1, r.2)) fine in
    let (within, kept) = p.inside f (in_buf d) out r.1 r.2 level its done_ok in
    let short : length e < 2 ^ 32 =
      subst (λ x. length x < 2 ^ 32) cut
        (omega (arith, length-take r.2 r.1, length-replicate {A = ℕ} cap 0)) in
    let (g, its_back) = p.decompresses in
    let size : length (in_buf d) ≡ m = omega (arith, length-take m d) in
    let back : g e (replicate m 0) m ≡ (pos 0, take m d, m) =
      subst (λ k. g e (replicate m 0) k ≡ (pos 0, take m d, k)) size
        (subst (λ x. g x (replicate m 0) (length (in_buf d)) ≡ (pos 0, in_buf d, length (in_buf d)))
          cut
          (p.lossless f g (in_buf d) out r.1 (replicate m 0) r.2 level its its_back done_ok
            (length-replicate {A = ℕ} m 0 ∙ sym size))) in
    (short, decompress_told c g (take m d) e m its_back short (omega arith) size back)
