-- ===== src/Profiles/RoundTrip.antt =====
-- What is staged in the store of src/profiles.rs is loaded again.
use egressy.Base.{ℕ, ◌≡◌, inl, inr, String, true, some, List, arith, eq_iff, Option-cases}
use egressy.Profiles.{
  Row, Services, is_valid_id, find_id, load, stage, staged_row, insert_row, decrypt_profile,
}

module _ {Source Profile Meta Json Nonce Cipher : Type 0}
    (services : Services Source Profile Meta Json Nonce Cipher) where
  -- A source that was staged under a valid id and a nonce of 24 bytes is loaded as the profile that
  -- it is parsed as, if the cipher decrypts what it encrypted.
  pub load-stage :
      (source : Source) (nonce : Nonce) (id : String) (now : ℕ)
      (rows : List (Row Json Nonce Cipher)) (profile : Profile)
      → ((n : Nonce) (s : Source) (c : Cipher)
          → services.encrypt n s ≡ some c
          → services.decrypt n c ≡ some s)
      → is_valid_id id ≡ true
      → services.nonce_len nonce ≡ 24
      → services.parse source ≡ some profile
      → (stage services source nonce id now rows).1 ≡ inr tt
      → load services id (stage services source nonce id now rows).0 ≡ inr (some profile)
  unfolding stage staged_row insert_row load decrypt_profile find_id
  load-stage source nonce id now rows profile decrypts valid long parses staged =
      elim (Option-cases (services.encrypt nonce source)) [
        | inl e ↦ absurd (ground (arith, parses, e, staged))
        | inr (c, e) ↦
            ground (arith, parses, e, staged, valid, long, decrypts nonce source c e, eq_iff id id)
      ]
