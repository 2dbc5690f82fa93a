-- ===== src/ApiKeys/Service.antt =====
-- app/services/api_key_service.py, over app/repositories/api_key_repository.py. `hash_key` is SHA-256
-- in hexadecimal; the random part of a new key is an argument, and so is the time.
use outbox_service.Prelude.{
  ℕ, suc, Bool, true, false, not, ◌&&◌, Option, none, some, List, [], ◌∷◌, ◌++◌, String, Result, ok,
  err, ◌>>=◌, ◌>>◌, raise_if, or_raise, ◌==◌, str_eq, leb, if◌then◌else◌, select, order_by, put_row,
  truncate,
}
use Prim.Native.String.{◌++◌ as concat}

pub record ApiKey : Type 0 where
  pub id : ℕ
  pub project_id : ℕ
  pub name : String
  pub key_prefix : String
  pub key_hash : String
  pub is_active : Bool
  pub last_used_at : Option ℕ
  pub revoked_at : Option ℕ

pub record Keys : Type 0 where
  pub rows : List ApiKey
  pub next_id : ℕ

pub data KeyError : Type 0 where
  key_not_found key_not_active : KeyError
  -- raised by `scalar_one_or_none`
  multiple_results : KeyError

pub record CreatedApiKey : Type 0 where
  pub api_key : ApiKey
  pub plain_key : String

-- the answer of `scalar_one_or_none`
unfoldable pub one_or_none : List ApiKey → Result KeyError (Option ApiKey)
one_or_none [] = ok none
one_or_none (k ∷ []) = ok (some k)
one_or_none (_ ∷ _ ∷ _) = err multiple_results

-- `find_active_by_prefix`
unfoldable pub find_active_by_prefix : String → Keys → Result KeyError (Option ApiKey)
find_active_by_prefix key_prefix db =
    one_or_none (select (λ k. str_eq k.key_prefix key_prefix && k.is_active) db.rows)

-- `list_by_project`
unfoldable pub list_by_project : ℕ → Keys → List ApiKey
list_by_project project_id db =
    order_by (λ k l. leb k.id l.id) (select (λ k. k.project_id == project_id) db.rows)

-- `find_by_id_and_project`; ids are unique
unfoldable pub find_by_id_and_project : ℕ → ℕ → List ApiKey → Option ApiKey
find_by_id_and_project api_key_id project_id [] = none
find_by_id_and_project api_key_id project_id (k ∷ ks) =
    if k.id == api_key_id && k.project_id == project_id
    then some k
    else find_by_id_and_project api_key_id project_id ks

abbrev pub save_key : ApiKey → Keys → Keys
save_key k db = record db { rows = put_row (λ x. x.id) k db.rows }

-- the plain key of a random part
unfoldable pub plain_key_of : String → String
plain_key_of random_part = concat "obx_ingest_" random_part

unfoldable pub revoked : ℕ → ApiKey → ApiKey
revoked now k = record k { is_active = false; revoked_at = some now }

module _ (hash_key : String → String) where
  abbrev pub new_key : ℕ → ℕ → String → String → ApiKey
  new_key id project_id name plain_key = record {
    id = id;
    project_id = project_id;
    name = name;
    key_prefix = truncate 32 plain_key;
    key_hash = hash_key plain_key;
    is_active = true;
    last_used_at = none;
    revoked_at = none;
  }

  -- `create_api_key`
  unfoldable pub create_api_key : String → ℕ → String → Keys → Keys × CreatedApiKey
  create_api_key random_part project_id name db =
      let k = new_key db.next_id project_id name (plain_key_of random_part) in
      (
        record { rows = db.rows ++ k ∷ []; next_id = suc db.next_id },
        record { api_key = k; plain_key = plain_key_of random_part },
      )

  -- the answer of `authenticate_api_key` for the row of the prefix
  unfoldable pub check_hash : ℕ → String → Option ApiKey → Keys → Keys × Option ApiKey
  check_hash now plain_key none db = (db, none)
  check_hash now plain_key (some k) db =
      if str_eq (hash_key plain_key) k.key_hash
      then (
        save_key (record k { last_used_at = some now }) db,
        some (record k { last_used_at = some now }),
      )
      else (db, none)

  -- `authenticate_api_key`
  unfoldable pub authenticate_api_key : ℕ → String → Keys → Result KeyError (Keys × Option ApiKey)
  authenticate_api_key now plain_key db = do
    k ← find_active_by_prefix (truncate 32 plain_key) db
    ok (check_hash now plain_key k db)

  -- `rotate_api_key`, when both of its commits are done: the new key's and then the old one's
  unfoldable pub rotate_api_key : ℕ → String → ℕ → ℕ → Keys → Result KeyError (Keys × CreatedApiKey)
  rotate_api_key now random_part project_id api_key_id db = do
    old ← or_raise (find_by_id_and_project api_key_id project_id db.rows) key_not_found
    raise_if (not old.is_active) key_not_active
    ok (
      save_key (revoked now old)
          (create_api_key random_part project_id (concat old.name "-rotated") db).0,
      (create_api_key random_part project_id (concat old.name "-rotated") db).1,
    )

-- `revoke_api_key`
unfoldable pub revoke_api_key : ℕ → ℕ → ℕ → Keys → Result KeyError (Keys × ApiKey)
revoke_api_key now project_id api_key_id db = do
  k ← or_raise (find_by_id_and_project api_key_id project_id db.rows) key_not_found
  ok (if not k.is_active then (db, k) else (save_key (revoked now k) db, revoked now k))
