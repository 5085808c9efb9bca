-- ===== src/Crypto/Laws.antt =====
-- Decryption undoes encryption (src/crypto/mod.rs).
use cy.Common.{
  ◌≡◌, ◌++◌, Option-cases, false, some, inl, inr, ok, arith, length, length-append,
  take-append_exact, drop-append_exact, ltb, ok_injective,
}
use cy.Bytes.{Bytes}
use cy.Libs.{Libs, IsAead}
use cy.Crypto.{encrypt, decrypt}

module _ (L : Libs) where
  open_sealed :
      IsAead L
      → (key nonce plaintext c : Bytes) → length nonce ≡ 12
      → L.aes_encrypt key nonce plaintext ≡ some c
      → decrypt L key (nonce ++ c) ≡ ok plaintext
  unfolding decrypt
  open_sealed aead key nonce plaintext c hn e =
      let long : ltb (length (nonce ++ c)) 12 ≡ false = ground (arith, length-append nonce c) in
      rw (
        long,
        take-append_exact nonce c 12 hn,
        drop-append_exact nonce c 12 hn,
        aead.aes_back key nonce plaintext c e,
      )

  -- Under AES-GCM's own law: what `encrypt` returns for a 12-byte nonce, `decrypt` under the same
  -- key opens to the plaintext.
  pub decrypt-encrypt :
      IsAead L
      → (key nonce plaintext payload : Bytes) → length nonce ≡ 12
      → encrypt L key nonce plaintext ≡ ok payload
      → decrypt L key payload ≡ ok plaintext
  unfolding encrypt
  decrypt-encrypt aead key nonce plaintext payload hn h =
      elim (Option-cases (L.aes_encrypt key nonce plaintext)) [
        | inl e ↦ cc (h, e)
        | inr (c, e) ↦ rw (← ok_injective (rw e at h)) (open_sealed aead key nonce plaintext c hn e)
      ]
