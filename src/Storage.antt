-- ===== src/Storage.antt =====
-- crates/themql-storage/src/lib.rs: the storage types, their errors, the `Storage` trait as a record
-- of operations, and the sled backend.
use the_mql.Base.{ℕ, Bool, true, false, Option, none, some, List, [], ◌∷◌, ◌++◌, is_empty}
use the_mql.Base.Effects.{M}
use the_mql.Base.Text.{Text, codes}
use the_mql.Core.Error.{Error, resolver_error, transport_error, internal_error}
use the_mql.Core.Pattern.{SubjectPattern}
use the_mql.Core.Query.{FormatTag}
pub mod Sled
mod Tests

pub record StorageKey : Type 0 where
  pub text : Text

pub record StorageValue : Type 0 where
  pub bytes : List ℕ
  pub format : FormatTag

pub data StorageQuery (J : Type 0) : Type 0 where
  by_key : StorageKey → StorageQuery J
  by_subject_pattern : SubjectPattern → StorageQuery J
  by_predicate : J → StorageQuery J

pub record StorageResultSet : Type 0 where
  pub entries : List (StorageKey × StorageValue)
  pub has_more : Bool
  pub cursor : Option Text

-- A page that no further page follows.
abbrev pub last_page : List (StorageKey × StorageValue) → StorageResultSet
last_page entries = record { entries = entries; has_more = false; cursor = none }

-- `StorageResultSet::empty`
abbrev pub empty_page : StorageResultSet
empty_page = last_page []

-- `StorageResultSet::is_empty`
unfoldable pub page_is_empty : StorageResultSet → Bool
page_is_empty page = is_empty page.entries

pub data StorageError : Type 0 where
  not_found already_exists connection_failed timeout internal_failure : StorageError
  serialization_error query_error : Text → StorageError

-- The `#[error("…")]` texts.
unfoldable pub storage_error_text : StorageError → Text
storage_error_text not_found = codes "storage key not found"
storage_error_text already_exists = codes "storage key already exists"
storage_error_text connection_failed = codes "storage connection failed"
storage_error_text timeout = codes "storage operation timed out"
storage_error_text internal_failure = codes "storage internal error"
storage_error_text (serialization_error e) = codes "storage serialization error: " ++ e
storage_error_text (query_error e) = codes "storage query error: " ++ e

-- `From<StorageError> for CoreError`
unfoldable pub error_of_storage_error : {J U : Type 0} → StorageError → Error J U
unfolding resolver_error transport_error internal_error storage_error_text
error_of_storage_error not_found = resolver_error (storage_error_text not_found)
error_of_storage_error already_exists = resolver_error (storage_error_text already_exists)
error_of_storage_error (query_error e) = resolver_error (storage_error_text (query_error e))
error_of_storage_error (serialization_error e) =
    transport_error (storage_error_text (serialization_error e))
error_of_storage_error connection_failed = internal_error (storage_error_text connection_failed)
error_of_storage_error timeout = internal_error (storage_error_text timeout)
error_of_storage_error internal_failure = internal_error (storage_error_text internal_failure)

-- The trait `Storage`, over the state `W` of a backend.
pub record Storage (J W : Type 0) : Type 0 where
  pub get : StorageKey → M W StorageError (Option StorageValue)
  pub put : StorageKey → StorageValue → M W StorageError (Unit {0})
  pub delete : StorageKey → M W StorageError (Unit {0})
  pub query : StorageQuery J → M W StorageError StorageResultSet
