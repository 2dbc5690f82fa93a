-- ===== src/ApiKeys/Rotation.antt =====
-- Rotation and revocation of a key.
use outbox_service.Prelude.{ℕ, ◌≡◌, true, some, String, find_row}
use outbox_service.ApiKeys.Service.{ApiKey, Keys, CreatedApiKey, find_by_id_and_project, revoked}

abbrev id_of : ApiKey → ℕ
id_of k = k.id

-- the key of the project with the id was active and is revoked, and the new one is active, in its project, with the hash of its text
pub record IsRotated (hash_key : String → String) (now i p : ℕ) (db db' : Keys) (c : CreatedApiKey)
    : Type 0 where
  pub old : ApiKey
  pub was_found : find_by_id_and_project i p db.rows ≡ some old
  pub was_active : old.is_active ≡ true
  pub of_project : old.project_id ≡ p
  pub is_revoked : find_row id_of i db'.rows ≡ some (revoked now old)
  pub is_new : find_row id_of c.api_key.id db'.rows ≡ some c.api_key
  pub active : c.api_key.is_active ≡ true
  pub new_of_project : c.api_key.project_id ≡ p
  pub hashed : c.api_key.key_hash ≡ hash_key c.plain_key

Rotated : (String → String) → ℕ → ℕ → ℕ → Keys → Keys × CreatedApiKey → Type 0
Rotated hash_key now i p db (db', c) = IsRotated hash_key now i p db db' c
