-- ===== src/Storage/Index.antt =====
-- storage/store/checksum_index.go: `BoltChecksumIndex`. The bucket of bbolt is a map from keys to
-- bytes, which a transaction changes as a whole or not at all; a transaction that fails is a fault
-- of the caller. Opening creates the bucket, so that it is never missing.
use distributed_fs.Common.{
  ℕ, String, Bool, true, false, List, [], ◌∷◌, Option, none, some, Bytes, ◌==◌, if◌then◌else◌,
  length, nat_eq,
}
use distributed_fs.Common.Registry.{Registry, lookup, insert, delete}
use distributed_fs.Storage.Errors.{
  StoreError, database_not_opened, database_already_opened, key_not_found, empty_key, fault, Result,
  ok, err,
}
pub mod Laws

pub record Codec (T : Type 0) : Type 0 where
  pub marshal : T → Result Bytes
  pub unmarshal : Bytes → Result T

abbrev pub byte_codec : Codec Bytes
byte_codec = record { marshal = λ v. ok v; unmarshal = λ b. ok b }

-- A checksum is an array of 32 bytes, so `Marshal` is given a slice of that length.
abbrev pub sha256_codec : Codec Bytes
sha256_codec = record {
  marshal = λ v. ok v;
  unmarshal = λ b. if nat_eq (length b) 32 then ok b else err (fault "sha256: expected 32 bytes");
}

-- `db`, when it is open, and the file that it is opened from.
pub record BoltChecksumIndex : Type 0 where
  pub db : Option (Registry Bytes)
  pub file : Registry Bytes

unfoldable pub open_index : BoltChecksumIndex → BoltChecksumIndex × Option StoreError
open_index c = elim (c.db) [
  | some _ ↦ (c, some database_already_opened)
  | none ↦ (record c { db = some c.file }, none)
]

-- Every committed transaction is in the file.
abbrev pub committed : Registry Bytes → BoltChecksumIndex
committed bucket = record { db = some bucket; file = bucket }

module _ {T : Type 0} (codec : Codec T) where
  unfoldable pub put : String → T → BoltChecksumIndex → BoltChecksumIndex × Option StoreError
  put key value c = if key == "" then (c, some empty_key) else elim (c.db) [
    | none ↦ (c, some database_not_opened)
    | some bucket ↦ elim (codec.marshal value) [
      | err e ↦ (c, some e)
      | ok data' ↦ (committed (insert key data' bucket), none)
    ]
  ]

  unfoldable pub get : String → BoltChecksumIndex → Result T
  get key c = elim (c.db) [
    | none ↦ err database_not_opened
    | some bucket ↦ elim (lookup key bucket) [
      | none ↦ err key_not_found
      | some data' ↦ codec.unmarshal data'
    ]
  ]

  -- The loop stops at the first error.
  unfoldable pub put_all :
      List (String × T) → BoltChecksumIndex → BoltChecksumIndex × Option StoreError
  put_all [] c = elim (c.db) [ none ↦ (c, some database_not_opened) | some _ ↦ (c, none) ]
  put_all ((k, v) ∷ kvs) c =
      let (c', e) = put k v c in
      elim (c.db) [
        | none ↦ (c, some database_not_opened)
        | some _ ↦ elim e [ some x ↦ (c', some x) | none ↦ put_all kvs c' ]
      ]

abbrev pub keys : Registry Bytes → List String
keys [] = []
keys ((k, _) ∷ m) = k ∷ keys m

unfoldable pub get_all : BoltChecksumIndex → Result (List String)
get_all c = elim (c.db) [ none ↦ err database_not_opened | some bucket ↦ ok (keys bucket) ]

unfoldable pub delete_key : String → BoltChecksumIndex → BoltChecksumIndex × Option StoreError
delete_key key c = if key == "" then (c, some empty_key) else elim (c.db) [
  | none ↦ (c, some database_not_opened)
  | some bucket ↦ elim (lookup key bucket) [
    | none ↦ (c, some key_not_found)
    | some _ ↦ (committed (delete key bucket), none)
  ]
]

unfoldable pub clean_up : BoltChecksumIndex → BoltChecksumIndex
clean_up c = record c { db = none }
