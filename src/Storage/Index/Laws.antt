-- ===== src/Storage/Index/Laws.antt =====
-- An open index behaves as a map, and its content survives that it is closed and opened again.
use distributed_fs.Common.{String, ◌≡◌, none, arith, ◌≢◌, ◌==◌, Bytes, if◌then◌else◌}
use distributed_fs.Common.Registry.{Registry, lookup-insert, lookup-delete}
use distributed_fs.Storage.Errors.{ok, err, key_not_found}
use distributed_fs.Storage.Index.{Codec, committed, put, get, delete_key, open_index, clean_up}

-- What a codec owes: it reads back what it wrote.
abbrev pub Decodes : {T : Type 0} → Codec T → Type 0
Decodes {T} codec = (v : T) (b : Bytes) → codec.marshal v ≡ ok b → codec.unmarshal b ≡ ok v

-- A put of a value that its codec writes, under a key that is not empty, succeeds, and also after a
-- restart of the database `Get` returns the value at its key and what it returned before at any
-- other key; after a delete the key is not found, and every other key is as before.
pub get-put_delete :
    {T : Type 0} (codec : Codec T) (bucket : Registry Bytes) (key : String) (v : T) (b : Bytes)
    (j : String)
    → Decodes codec
    → key ≢ ""
    → codec.marshal v ≡ ok b
    → let c = committed bucket in
      let c' = put codec key v c in
      (c'.1 ≡ none)
      × (get codec j (open_index (clean_up c'.0)).0 ≡ (if key == j then ok v else get codec j c))
      × (get codec j (open_index (clean_up (delete_key key c).0)).0
          ≡ (if key == j then err key_not_found else get codec j c))
unfolding put get delete_key open_index clean_up
get-put_delete codec bucket key v b j back k e = (
  ground arith,
  ground (arith, back v b e, lookup-insert key b bucket j),
  ground (arith, lookup-delete key bucket j),
)
