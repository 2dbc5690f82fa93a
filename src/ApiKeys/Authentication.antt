-- ===== src/ApiKeys/Authentication.antt =====
-- Which keys authenticate.
use outbox_service.Prelude.{
  ℕ, ◌≡◌, refl, sym, Bool, true, false, ◌&&◌, Option, none, some, List, [], ◌∷◌, ◌++◌, String, ok,
  inl, inr, arith, str_eq, eq_iff, Bool-cases, All, select-All, select, truncate, OnOk, OnOk-bind,
  OnOk-eq,
}
use outbox_service.ApiKeys.Service.{
  ApiKey, Keys, one_or_none, find_active_by_prefix, check_hash, authenticate_api_key, new_key,
  plain_key_of, create_api_key, save_key,
}

abbrev matches : String → ApiKey → Bool
matches prefix k = str_eq k.key_prefix prefix && k.is_active

-- no active row has the prefix
abbrev pub IsFree : String → List ApiKey → Type 0
IsFree prefix ks = All (λ k. matches prefix k ≡ false) ks

select-new :
    (prefix : String) (ks : List ApiKey) (k : ApiKey)
    → IsFree prefix ks
    → matches prefix k ≡ true
    → select (matches prefix) (ks ++ k ∷ []) ≡ k ∷ []
select-new prefix [] k free h = rw h refl
select-new prefix (x ∷ ks) k free h = rw free.0 (select-new prefix ks k free.1 h)

-- If no active key has the prefix of a new key, the new key's plain text authenticates as the row
-- that was created, with the time of its use.
pub create_api_key_authenticates :
    (hash_key : String → String) (now : ℕ) (random_part name : String) (project_id : ℕ) (db : Keys)
    → IsFree (truncate 32 (plain_key_of random_part)) db.rows
    → let (db', created) = create_api_key hash_key random_part project_id name db in
      let used : ApiKey = record (created.api_key) { last_used_at = some now } in
      authenticate_api_key hash_key now created.plain_key db' ≡ ok (save_key used db', some used)
unfolding create_api_key authenticate_api_key find_active_by_prefix one_or_none check_hash
create_api_key_authenticates hash_key now random_part name project_id db free =
    let plain = plain_key_of random_part in
    let k = new_key hash_key db.next_id project_id name plain in
    let same : str_eq (truncate 32 plain) (truncate 32 plain) ≡ true = (eq_iff _ _).1 refl in
    let same_hash : str_eq (hash_key plain) (hash_key plain) ≡ true = (eq_iff _ _).1 refl in
    let found : select (matches (truncate 32 plain)) (db.rows ++ k ∷ []) ≡ k ∷ [] =
      select-new (truncate 32 plain) db.rows k free (rw same refl) in
    simp (found, same_hash) refl

-- what an authenticated key is: active, with the prefix and the hash of the plain key
abbrev pub IsAuthentic : (String → String) → String → Option ApiKey → Type 0
IsAuthentic hash_key plain_key none = Unit
IsAuthentic hash_key plain_key (some k) =
    (k.is_active ≡ true)
    × (k.key_prefix ≡ truncate 32 plain_key)
    × (k.key_hash ≡ hash_key plain_key)

abbrev IsMatch : String → Option ApiKey → Type 0
IsMatch prefix none = Unit
IsMatch prefix (some k) = matches prefix k ≡ true

one_or_none-IsMatch :
    (prefix : String) (ks : List ApiKey)
    → All (λ k. matches prefix k ≡ true) ks
    → OnOk (IsMatch prefix) (one_or_none ks)
unfolding one_or_none
one_or_none-IsMatch prefix [] h = tt
one_or_none-IsMatch prefix (k ∷ []) h = h.0
one_or_none-IsMatch prefix (k ∷ l ∷ ks) h = tt

check_hash-IsAuthentic :
    (hash_key : String → String) (now : ℕ) (plain_key : String) (k : Option ApiKey) (db : Keys)
    → IsMatch (truncate 32 plain_key) k
    → IsAuthentic hash_key plain_key (check_hash hash_key now plain_key k db).1
unfolding check_hash
check_hash-IsAuthentic hash_key now plain_key none db h = tt
check_hash-IsAuthentic hash_key now plain_key (some k) db h =
    elim (Bool-cases (str_eq (hash_key plain_key) k.key_hash)) [
      | inl same ↦ rw same (
        ground (arith, h),
        (eq_iff k.key_prefix (truncate 32 plain_key)).0 (ground (arith, h)),
        sym ((eq_iff (hash_key plain_key) k.key_hash).0 same),
      )
      | inr other ↦ rw other tt
    ]

-- A key that authenticates is active and has the prefix and the hash of the plain key.
pub authenticate_api_key-IsAuthentic :
    (hash_key : String → String) (now : ℕ) (plain_key : String) (db db' : Keys) (k : Option ApiKey)
    → authenticate_api_key hash_key now plain_key db ≡ ok (db', k)
    → IsAuthentic hash_key plain_key k
unfolding authenticate_api_key find_active_by_prefix
authenticate_api_key-IsAuthentic hash_key now plain_key db db' k e =
    let prefix = truncate 32 plain_key in
    let Sound : Keys × Option ApiKey → Type 0 = λ r. IsAuthentic hash_key plain_key r.1 in
    let found = one_or_none-IsMatch prefix _ (select-All (matches prefix) db.rows) in
    OnOk-eq Sound (authenticate_api_key hash_key now plain_key db)
      (OnOk-bind Sound (find_active_by_prefix prefix db) _ (λ o is.
        check_hash-IsAuthentic hash_key now plain_key o db
          (OnOk-eq (IsMatch prefix) (find_active_by_prefix prefix db) found is)))
      e
