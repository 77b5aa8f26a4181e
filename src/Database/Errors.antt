-- ===== src/Database/Errors.antt =====
-- The errors of internal/database/errors.go and of the packages that the database calls, and results
-- that may be errors.
use go_gwiot.Prelude.{◌≡◌, refl}
use go_gwiot.Prelude.Bytes.{Bytes, ascii}

-- The errors of bbolt that the code names, and any other.
pub data BoltError : Type 0 where
  database_not_open : BoltError
  database_open : BoltError
  database_read_only : BoltError
  tx_not_writable : BoltError
  key_required : BoltError
  bucket_not_found : BoltError
  other_bolt : Bytes → BoltError

pub data Error : Type 0 where
  data_update_not_allow : Error
  database_not_found : Error
  bolt : BoltError → Error
  uuid_error : Bytes → Error
  -- an error made from a text, as `errors.New(msg.Error)`
  error_new : Bytes → Error
  request_error : Error
  without_response : Error

-- `errDataUpdateNotAllow` and `errDatabaseNotFound` of errors.go, by the text of each.
abbrev pub err_data_update_not_allow : Bytes
err_data_update_not_allow = ascii "DataUpdateNotAllowed"

abbrev pub err_database_not_found : Bytes
err_database_not_found = ascii "DataUpdateNotAllowed"

-- A Go pair of a value and an error, one of which is nil.
pub data Result {ℓ} (A : Type ℓ) : Type ℓ where
  returned : A → Result A
  failed : Error → Result A

infixl 5 ◌>>=◌
-- `if err != nil { return err }`
abbrev pub ◌>>=◌ {κ ℓ} : {B : Type κ} {A : Type ℓ} → Result B → (B → Result A) → Result A
failed x >>= next = failed x
returned b >>= next = next b

pub >>=-eq-returned {κ ℓ} :
    {B : Type κ} {A : Type ℓ} (run : Result B) (next : B → Result A) {a : A}
    → (run >>= next) ≡ returned a
    → (b : B) × (run ≡ returned b) × (next b ≡ returned a)
>>=-eq-returned (failed x) next e = cc
>>=-eq-returned (returned b) next e = (b, refl, e)

pub returned-injective {ℓ} : {A : Type ℓ} {a b : A} → returned a ≡ returned b → a ≡ b
returned-injective e = cc
