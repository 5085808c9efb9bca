-- ===== src/Examples/Plugins.antt =====
-- A plugin that stores: it copies its input if there is room.
use cy.Common.{
  ℕ, ◌%◌, ◌^◌, ◌≤◌, ◌<◌, ◌≡◌, refl, sym, ap, ◌∙◌, subst, true, leb→le, ℤ, pos, negsuc, some,
  some_injective, [], ◌∷◌, ◌++◌, append-nil, ok, leb, if◌then◌else◌, Bool-cases, inl, inr, arith,
  length, take, drop, length-append, length-drop, take-append_exact, drop-all,
}
use cy.Bytes.{Bytes}
use cy.Plugin.{
  Decompress, SixcyCodecPlugin, PluginCodec, compress, decompress, new, outcome, in_buf, is_ok,
}
use cy.Plugin.Laws.{IsPlugin, plugin_roundtrip}

-- What comes back if there is room.
abbrev whole : Bytes → Bytes → ℤ × Bytes × ℕ
whole d out = (pos 0, d ++ drop (length d) out, length d)

abbrev short : Bytes → ℕ → ℤ × Bytes × ℕ
short out capacity = (negsuc 0, out, capacity)

abbrev copy : Decompress
copy d out capacity = if leb (length d) capacity then whole d out else short out capacity

abbrev store : SixcyCodecPlugin
store = record {
  uuid = [];
  short_id = 0;
  abi_version = 1;
  compress = some (λ d out capacity level. copy d out capacity);
  decompress = some copy;
  compress_bound = some (λ n. n % 2 ^ 32);
}

copied :
    (d out out' : Bytes) (n : ℕ)
    → copy d out (length out) ≡ (pos 0, out', n)
    → (length d ≤ length out) × (out' ≡ d ++ drop (length d) out) × (n ≡ length d)
copied d out out' n e = elim (Bool-cases (leb (length d) (length out))) [
  | inl fits ↦
      let e' : whole d out ≡ (pos 0, out', n) = rw fits at e in
      (leb→le (length d) (length out) fits, sym (ap (λ r. r.1) e'), sym (ap (λ r. r.2) e'))
  | inr over ↦
      let e' : short out (length out) ≡ (pos 0, out', n) = rw over at e in cc (ap (λ r. r.0) e')
]

copied_back :
    (d room e : Bytes)
    → e ≡ d
    → length room ≡ length d
    → copy e room (length d) ≡ (pos 0, d, length d)
copied_back d room e same size =
    let nothing : drop (length d) room ≡ [] = drop-all (length d) room (omega arith) in
    let fits : leb (length d) (length d) ≡ true = ground arith in
    rw (same, fits, nothing) (ap (λ x. (pos 0, x, length d)) (append-nil d))

store-IsPlugin : IsPlugin store
store-IsPlugin = record {
  bounded = λ bound n e. subst (λ b. b n < 2 ^ 32) (some_injective e) (omega arith);
  decompresses = (copy, refl);
  inside = λ f d out out' n level e h.
      let (fits, there, size) =
        copied d out out' n
          (subst (λ f. f d out (length out) level ≡ (pos 0, out', n)) (sym (some_injective e)) h) in
      (
        omega arith,
        ap length there
            ∙ omega (arith, length-append d (drop (length d) out), length-drop (length d) out),
      );
  lossless = λ f g d out out' room n level e e' h size.
      let (fits, there, count) =
        copied d out out' n
          (subst (λ f. f d out (length out) level ≡ (pos 0, out', n)) (sym (some_injective e)) h) in
      let same : take n out' ≡ d =
        rw (there, count) (take-append_exact d (drop (length d) out) (length d) refl) in
      subst (λ g. g (take n out') room (length d) ≡ (pos 0, d, length d)) (some_injective e')
        (copied_back d room (take n out') same size);
}

abbrev codec : PluginCodec
codec = record { desc = store }

loaded : new store ≡ ok codec
unfolding new
loaded = refl

abbrev three : Bytes
three = 7 ∷ 8 ∷ 9 ∷ []

stored : compress codec three (pos 3) ≡ ok three
unfolding compress in_buf outcome is_ok
stored = refl

plugin_roundtrip_example : (length three < 2 ^ 32) × (decompress codec three 3 ≡ ok three)
plugin_roundtrip_example = plugin_roundtrip codec three three (pos 3) store-IsPlugin stored
