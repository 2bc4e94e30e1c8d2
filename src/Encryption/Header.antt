-- ===== src/Encryption/Header.antt =====
-- internal/encryption/test.go: a fixed header is put before the data and taken off again.
use bt_go.Prelude.{
  ℕ, ◌≡◌, ◌↔◌, ap, subst, refl, ◌==◌, [], ◌∷◌, ◌++◌, Bytes, Result, ok, err, bad_header, arith,
  if◌then◌else◌,
}
use bt_go.Encryption.{Encryptor, DecryptionContext}

abbrev pub test_header : Bytes
test_header = b'B' ∷ b'T' ∷ b'E' ∷ b'N' ∷ b'C' ∷ 0 ∷ 0 ∷ 0 ∷ []

unfoldable pub encrypt : ℕ → Result Bytes → Result Bytes
encrypt n (err e) = err e
encrypt n (ok b) = ok (test_header ++ b)

-- io.ReadFull of the header's length, the comparison, and the copy of the rest.
unfoldable pub strip : Bytes → Bytes → Result Bytes
strip [] rest = ok rest
strip (h ∷ hs) [] = err bad_header
strip (h ∷ hs) (b ∷ bs) = let rest = strip hs bs in if b == h then rest else err bad_header

unfoldable pub decrypt : Result Bytes → Result Bytes
unfolding strip
decrypt (err e) = err e
decrypt (ok b) = strip test_header b

abbrev pub test_encryptor : Encryptor
test_encryptor = record { encrypt = encrypt }

abbrev pub test_decryption_context : DecryptionContext
test_decryption_context = record { decrypt = decrypt }

strip-append : (header b : Bytes) → strip header (header ++ b) ≡ ok b
unfolding strip
strip-append [] b = refl
strip-append (h ∷ hs) b = ground (arith, strip-append hs b)

strip_sound : (header c b : Bytes) → strip header c ≡ ok b → header ++ b ≡ c
unfolding strip
strip_sound [] c b h = ground arith
strip_sound (x ∷ xs) [] b h = cc
strip_sound (x ∷ xs) (y ∷ ys) b h = ground (arith, strip_sound xs ys b)

-- Decryption gives back exactly the data that was encrypted, and accepts nothing else: it gives `b`
-- for the encryption of `b` and for no other input.
pub decrypt-encrypt :
    (n : ℕ) (b cipher : Bytes) → (decrypt (ok cipher) ≡ ok b) ↔ (encrypt n (ok b) ≡ ok cipher)
unfolding decrypt encrypt
decrypt-encrypt n b cipher = (
  λ h. ap ok (strip_sound test_header cipher b h),
  λ h. subst (λ c. decrypt c ≡ ok b) h (strip-append test_header b),
)
