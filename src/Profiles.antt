-- ===== src/Profiles.antt =====
-- src/profiles.rs: the store of WireGuard profiles. The database is its one table, a list of rows,
-- and each SQL statement is what it does to the table; the lock makes the calls a sequence. The
-- cipher, the JSON of the metadata and the parser of profiles (src/wireguard.rs) are parameters.
-- The clock, the nonce and the random id are arguments.
pub mod OneActive
pub mod RoundTrip
use egressy.Base.{
  is_ascii_hexdigit, all_chars, len, ℕ, zero, suc, ◌^◌, ◌-◌, min, String, Bool, true, false, not,
  ◌&&◌, ◌||◌, Option, none, some, List, [], ◌∷◌, ◌++◌, leb, ltb, ◌==◌, str_eq, if◌then◌else◌, ◌⊎◌,
  inl, inr, take,
}

abbrev pub encryption_version : ℕ
encryption_version = 1

abbrev pub i64_max : ℕ
i64_max = 9223372036854775807

-- A row of `wireguard_profiles`; the integers that `to_i64` stores are not negative.
pub record Row (Json Nonce Cipher : Type 0) : Type 0 where
  pub id : String
  pub created_at_ms : ℕ
  pub activated_at_ms : Option ℕ
  pub active : Bool
  pub staged : Bool
  pub metadata_json : Json
  pub nonce : Nonce
  pub ciphertext : Cipher
  pub encryption_version : ℕ

pub record ManagedRevision (Meta : Type 0) : Type 0 where
  pub id : String
  pub created_at_unix_ms : ℕ
  pub activated_at_unix_ms : Option ℕ
  pub active : Bool
  pub staged : Bool
  pub metadata : Meta

-- What the store calls: the parser and `redacted`, serde_json, and XChaCha20-Poly1305 under the
-- store's key; `nonce_len` is the length of a nonce.
pub record Services (Source Profile Meta Json Nonce Cipher : Type 0) : Type 0 where
  pub parse : Source → Option Profile
  pub redacted : Profile → Meta
  pub to_json : Meta → Option Json
  pub from_json : Json → Option Meta
  pub nonce_len : Nonce → ℕ
  pub encrypt : Nonce → Source → Option Cipher
  pub decrypt : Nonce → Cipher → Option Source

pub data Failure : Type 0 where
  invalid_id unparsed unencrypted unserialized duplicate_id no_revision not_inactive : Failure
  unsupported_format undecryptable undecoded_metadata : Failure

-- `validate_id`.
unfoldable pub is_valid_id : String → Bool
is_valid_id id = len id == 24 && all_chars is_ascii_hexdigit id

abbrev pub to_i64 : ℕ → ℕ
to_i64 value = min value i64_max

module _ {Json Nonce Cipher : Type 0} where
  -- `WHERE id = ?1`: the rows counted, and the first one.
  unfoldable pub count_id : String → List (Row Json Nonce Cipher) → ℕ
  count_id id [] = 0
  count_id id (r ∷ rs) = let rest = count_id id rs in if str_eq r.id id then suc rest else rest

  unfoldable pub find_id : String → List (Row Json Nonce Cipher) → Option (Row Json Nonce Cipher)
  find_id id [] = none
  find_id id (r ∷ rs) = let rest = find_id id rs in if str_eq r.id id then some r else rest

  -- `WHERE active = 1 LIMIT 1`.
  unfoldable pub find_active : List (Row Json Nonce Cipher) → Option (Row Json Nonce Cipher)
  find_active [] = none
  find_active (r ∷ rs) = let rest = find_active rs in if r.active then some r else rest

  -- The two updates of `activate`.
  unfoldable pub deactivate_all : List (Row Json Nonce Cipher) → List (Row Json Nonce Cipher)
  deactivate_all [] = []
  deactivate_all (r ∷ rs) = record r { active = false } ∷ deactivate_all rs

  unfoldable pub activate_id :
      String → ℕ → List (Row Json Nonce Cipher) → List (Row Json Nonce Cipher)
  activate_id id now [] = []
  activate_id id now (r ∷ rs) =
      let rest = activate_id id now rs in
      if str_eq r.id id
      then record r { active = true; staged = false; activated_at_ms = some (to_i64 now) } ∷ rest
      else r ∷ rest

  -- `DELETE .. WHERE id = ?1 AND active = 0`: how many rows go, and the rest.
  unfoldable pub count_inactive : String → List (Row Json Nonce Cipher) → ℕ
  count_inactive id [] = 0
  count_inactive id (r ∷ rs) =
      let rest = count_inactive id rs in if str_eq r.id id && not r.active then suc rest else rest

  unfoldable pub delete_id : String → List (Row Json Nonce Cipher) → List (Row Json Nonce Cipher)
  delete_id id [] = []
  delete_id id (r ∷ rs) =
      let rest = delete_id id rs in if str_eq r.id id && not r.active then rest else r ∷ rest

  unfoldable pub delete_inactive :
      String → List (Row Json Nonce Cipher) → List (Row Json Nonce Cipher) × (Failure ⊎ Unit {0})
  delete_inactive id rows = if not (is_valid_id id) then (rows, inl invalid_id) else (
    delete_id id rows,
    (if not (count_inactive id rows == 1) then inl not_inactive else inr tt),
  )

module _ {Source Profile Meta Json Nonce Cipher : Type 0}
    (services : Services Source Profile Meta Json Nonce Cipher) where
  open services use {parse, redacted, to_json, from_json, nonce_len, encrypt, decrypt}

  unfoldable pub revision_from_row : Row Json Nonce Cipher → Failure ⊎ ManagedRevision Meta
  revision_from_row r = elim (from_json r.metadata_json) [
    | none ↦ inl undecoded_metadata
    | some metadata ↦ inr (record {
      id = r.id;
      created_at_unix_ms = r.created_at_ms;
      activated_at_unix_ms = r.activated_at_ms;
      active = r.active;
      staged = r.staged;
      metadata = metadata;
    })
  ]

  unfoldable pub decrypt_profile : Nonce → Cipher → ℕ → Failure ⊎ Profile
  decrypt_profile nonce ciphertext version =
      if not (version == encryption_version) || not (nonce_len nonce == 24)
      then inl unsupported_format
      else (elim (decrypt nonce ciphertext) [
        | none ↦ inl undecryptable
        | some plaintext ↦ elim (parse plaintext) [
          | none ↦ inl unparsed
          | some profile ↦ inr profile
        ]
      ])

  -- `load`: `inr none` if there is no such row.
  unfoldable pub load : String → List (Row Json Nonce Cipher) → Failure ⊎ Option Profile
  unfolding decrypt_profile find_id
  load id rows = if not (is_valid_id id) then inl invalid_id else (elim (find_id id rows) [
    | none ↦ inr none
    | some r ↦ elim (decrypt_profile r.nonce r.ciphertext r.encryption_version) [
      | inl why ↦ inl why
      | inr profile ↦ inr (some profile)
    ]
  ])

  -- `active`.
  unfoldable pub active_profile :
      List (Row Json Nonce Cipher) → Failure ⊎ Option (ManagedRevision Meta × Profile)
  unfolding decrypt_profile find_active revision_from_row
  active_profile rows = elim (find_active rows) [
    | none ↦ inr none
    | some r ↦ elim (revision_from_row r) [
      | inl why ↦ inl why
      | inr revision ↦ elim (decrypt_profile r.nonce r.ciphertext r.encryption_version) [
        | inl why ↦ inl why
        | inr profile ↦ inr (some (revision, profile))
      ]
    ]
  ]

  -- The row that `stage` inserts, or why there is none.
  unfoldable pub staged_row : Source → Nonce → String → ℕ → Failure ⊎ Row Json Nonce Cipher
  staged_row source nonce id now = elim (parse source) [
    | none ↦ inl unparsed
    | some profile ↦ elim (encrypt nonce source) [
      | none ↦ inl unencrypted
      | some ciphertext ↦ elim (to_json (redacted profile)) [
        | none ↦ inl unserialized
        | some metadata_json ↦ inr (record {
          id = id;
          created_at_ms = to_i64 now;
          activated_at_ms = none;
          active = false;
          staged = true;
          metadata_json = metadata_json;
          nonce = nonce;
          ciphertext = ciphertext;
          encryption_version = encryption_version;
        })
      ]
    ]
  ]

  -- `INSERT`: the id is the table's primary key.
  unfoldable pub insert_row :
      Failure ⊎ Row Json Nonce Cipher
      → List (Row Json Nonce Cipher)
      → List (Row Json Nonce Cipher) × (Failure ⊎ Unit {0})
  insert_row (inl why) rows = (rows, inl why)
  insert_row (inr r) rows =
      if not (count_id r.id rows == 0) then (rows, inl duplicate_id) else (r ∷ rows, inr tt)

  -- `stage`; the revision that it returns is that of the row.
  unfoldable pub stage :
      Source
      → Nonce
      → String
      → ℕ
      → List (Row Json Nonce Cipher)
      → List (Row Json Nonce Cipher) × (Failure ⊎ Unit {0})
  unfolding staged_row insert_row
  stage source nonce id now rows = insert_row (staged_row source nonce id now) rows

  -- The revision that `activate` reads back.
  unfoldable pub read_back : Option (Row Json Nonce Cipher) → Failure ⊎ ManagedRevision Meta
  unfolding revision_from_row
  read_back none = inl no_revision
  read_back (some r) = revision_from_row r

  unfoldable pub activate :
      String
      → ℕ
      → List (Row Json Nonce Cipher)
      → List (Row Json Nonce Cipher) × (Failure ⊎ ManagedRevision Meta)
  unfolding read_back deactivate_all activate_id find_id count_id
  activate id now rows =
      if not (is_valid_id id)
      then (rows, inl invalid_id)
      else (if not (count_id id rows == 1) then (rows, inl no_revision) else (
        activate_id id now (deactivate_all rows),
        read_back (find_id id (activate_id id now (deactivate_all rows))),
      ))
