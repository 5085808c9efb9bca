-- ===== src/Crypto.antt =====
-- src/crypto/mod.rs: AES-256-GCM payloads with the nonce in front, and key derivation.
-- A nonce, which the code draws from the operating system, is an argument. A key is 32 bytes by its
-- type, so `Aes256Gcm::new_from_slice` does not fail.
pub mod Laws
use cy.Common.{
  ℕ, Option, none, some, ◌++◌, Text, Result, ok, err, map_err, ltb, if◌then◌else◌, take, drop,
  length,
}
use cy.Bytes.{Bytes}
use cy.Errors.{CryptoError, encryption_failed, decryption_failed, key_derivation, too_short}
use cy.Libs.{Libs}

abbrev pub nonce_len : ℕ
nonce_len = 12

module _ (L : Libs) where
  -- The parameters of Argon2id are constants that its `Params::new` accepts.
  unfoldable pub derive_key : Text → Bytes → Result CryptoError Bytes
  derive_key password salt = map_err key_derivation (L.argon2id password salt)

  prepend_nonce : Bytes → Option Bytes → Result CryptoError Bytes
  prepend_nonce nonce none = err encryption_failed
  prepend_nonce nonce (some ciphertext) = ok (nonce ++ ciphertext)

  unfoldable pub encrypt : Bytes → Bytes → Bytes → Result CryptoError Bytes
  unfolding prepend_nonce
  encrypt key nonce plaintext = prepend_nonce nonce (L.aes_encrypt key nonce plaintext)

  opened : Option Bytes → Result CryptoError Bytes
  opened none = err decryption_failed
  opened (some plaintext) = ok plaintext

  unfoldable pub decrypt : Bytes → Bytes → Result CryptoError Bytes
  unfolding opened
  decrypt key payload =
      if ltb (length payload) nonce_len
      then err too_short
      else opened (L.aes_decrypt key (take nonce_len payload) (drop nonce_len payload))
