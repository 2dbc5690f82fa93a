-- ===== src/ApiKeys/Tests.antt =====
-- Keys of one project, created, used and rotated.
use outbox_service.Prelude.{◌≡◌, refl, false, some, [], ◌∷◌, ok, err, String, truncate}
use Prim.Native.Char.{nul}
use outbox_service.ApiKeys.Service.{
  ApiKey, Keys, key_not_active, CreatedApiKey, new_key, plain_key_of, create_api_key,
  authenticate_api_key, find_active_by_prefix, one_or_none, check_hash, save_key,
  find_by_id_and_project, rotate_api_key,
}
use outbox_service.ApiKeys.Authentication.{
  IsAuthentic, create_api_key_authenticates, authenticate_api_key-IsAuthentic,
}

-- a stand-in for the hash, which keeps texts apart
abbrev marked : String → String
marked s = String.◌∷◌ nul s

abbrev first_key : ApiKey
first_key = new_key marked 1 7 "ingest" "obx_ingest_aaaa"

abbrev one_key : Keys
one_key = record { rows = first_key ∷ []; next_id = 2 }

abbrev used : ApiKey
used = record first_key { last_used_at = some 50 }

create_api_key_authenticates_example :
    let (db', created) = create_api_key marked "bbbb" 7 "other" one_key in
    let fresh : ApiKey = record (created.api_key) { last_used_at = some 60 } in
    authenticate_api_key marked 60 created.plain_key db' ≡ ok (save_key fresh db', some fresh)
unfolding plain_key_of truncate
create_api_key_authenticates_example =
    create_api_key_authenticates marked 60 "bbbb" "other" 7 one_key (refl, tt)

first_key_is_used :
    authenticate_api_key marked 50 "obx_ingest_aaaa" one_key ≡ ok (save_key used one_key, some used)
unfolding authenticate_api_key find_active_by_prefix one_or_none check_hash truncate
first_key_is_used = refl

authenticate_api_key-IsAuthentic_example : IsAuthentic marked "obx_ingest_aaaa" (some used)
authenticate_api_key-IsAuthentic_example =
    authenticate_api_key-IsAuthentic marked 50 "obx_ingest_aaaa" one_key (save_key used one_key)
      (some used) first_key_is_used

abbrev second_key : CreatedApiKey
second_key = record {
  api_key = new_key marked 2 7 "ingest-rotated" "obx_ingest_bbbb";
  plain_key = "obx_ingest_bbbb";
}

abbrev rotated : Keys
rotated = record {
  rows = record first_key { is_active = false; revoked_at = some 70 } ∷ second_key.api_key ∷ [];
  next_id = 3;
}

-- a revoked key cannot be rotated again
revoked_stays : rotate_api_key marked 80 "cccc" 7 1 rotated ≡ err key_not_active
unfolding rotate_api_key find_by_id_and_project
revoked_stays = refl
