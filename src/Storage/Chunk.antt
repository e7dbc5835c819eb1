-- ===== src/Storage/Chunk.antt =====
-- storage/chunk: the writer of a chunk's temporary file, and the reader of a chunk by frames. A file
-- that is open is the file at its path. The running hash is the bytes that were hashed.
use distributed_fs.Common.{
  ℕ, ◌+◌, ◌*◌, String, Bool, true, false, not, [], ◌++◌, Option, none, some, Bytes, bytes_equal,
  length, leb, ◌==◌, if◌then◌else◌, min, take, drop,
}
use distributed_fs.Common.Registry.{lookup, insert, delete}
use distributed_fs.Storage.Errors.{
  StoreError, invalid_chunk_id, chunk_not_found, checksum_mismatch, operation_aborted,
  writer_closed, Result, ok, err,
}
use distributed_fs.Storage.Disk.{
  Layout, DiskStore, Os, no_such_file, exists, path_for_chunk, temp_dir_for, rename,
}

pub record ChunkWriter : Type 0 where
  pub filepath : String
  pub chunk_id : String
  pub is_done : Bool
  pub hashed : Bytes

-- A writer, with the store that it shares.
abbrev pub Writing : Type 0
Writing = ChunkWriter × DiskStore

-- `IsLast`, and the checksum of the data alone.
pub record Frame : Type 0 where
  pub data_bytes : Bytes
  pub checksum : Bytes
  pub is_last : Bool

-- `rest` is what follows the offset of the open file.
pub record ChunkReader : Type 0 where
  pub rest : Bytes
  pub frame_size : ℕ

abbrev pub default_frame_size : ℕ
default_frame_size = 32 * 1024

module _ (l : Layout) where
  unfoldable pub new_chunk_writer : Os → String → DiskStore → DiskStore × Result ChunkWriter
  new_chunk_writer os c s = if c == "" then (s, err invalid_chunk_id) else elim (temp_dir_for l c) [
    | err e ↦ (s, err e)
    | ok path ↦ elim (os.create) [
      | some e ↦ (s, err e)
      | none ↦ (
        record s { files = insert path [] s.files },
        ok (record { filepath = path; chunk_id = c; is_done = false; hashed = [] }),
      )
    ]
  ]

  -- A failed write of the file leaves something in it, and nothing is hashed.
  unfoldable pub append_frame : Os → Bytes → Writing → Writing × Option StoreError
  append_frame os d (w, s) =
      let old : Bytes = elim (lookup w.filepath s.files) [ none ↦ [] | some b ↦ b ] in
      if w.is_done then ((w, s), some writer_closed) else elim (os.write_file) [
        | some (e, left) ↦ ((w, record s { files = insert w.filepath left s.files }), some e)
        | none ↦ (
          (
            record w { hashed = w.hashed ++ d },
            record s { files = insert w.filepath (old ++ d) s.files },
          ),
          os.sync,
        )
      ]

  unfoldable pub computed_checksum : ChunkWriter → Bytes
  computed_checksum w = l.sha256 w.hashed

  -- What fails here is ignored.
  unfoldable pub abort : Os → Writing → Writing
  abort os (w, s) = (
    record w { is_done = true },
    elim (os.remove) [ some _ ↦ s | none ↦ record s { files = delete w.filepath s.files } ],
  )

  unfoldable pub finalize : Os → Bytes → Writing → Writing × Option StoreError
  finalize os expected (w, s) =
      if w.is_done
      then ((w, s), some operation_aborted)
      else if not (bytes_equal (computed_checksum w) expected)
      then (abort os (w, s), some checksum_mismatch)
      else (let (s', e) = rename l os w.filepath w.chunk_id s in
          let w' = record w { is_done = true } in
          elim e [ some x ↦ (abort os (w', s'), some x) | none ↦ ((w', s'), none) ])

  -- A frame size that is not positive, given as 0, is the default.
  unfoldable pub new_chunk_reader : Os → String → DiskStore → ℕ → Result ChunkReader
  new_chunk_reader os c s n =
      if c == ""
      then err invalid_chunk_id
      else if not (exists l c s)
      then err chunk_not_found
      else elim (path_for_chunk l c) [
        | err e ↦ err e
        | ok path ↦ elim (os.read_file) [
          | some e ↦ err e
          | none ↦ elim (lookup path s.files) [
            | none ↦ err no_such_file
            | some d ↦
                ok (record { rest = d; frame_size = if leb n 0 then default_frame_size else n })
          ]
        ]
      ]

  -- One byte more than the frame is read, and the offset set back over it; no frame is io.EOF.
  unfoldable pub next : Os → ChunkReader → ChunkReader × Result (Option Frame)
  next os r =
      let buf = take (r.frame_size + 1) r.rest in
      let is_last = leb (length buf) r.frame_size in
      let data_bytes = take (min (length buf) r.frame_size) buf in
      let frame : Frame = record {
        data_bytes = data_bytes;
        checksum = l.sha256 data_bytes;
        is_last = is_last;
      } in
      elim (os.read_file) [
        | some e ↦ (r, err e)
        | none ↦
            if leb (length buf) 0
            then (r, ok none)
            else if is_last
            then (record r { rest = [] }, ok (some frame))
            else elim (os.seek) [
              | some e ↦ (record r { rest = drop (length buf) r.rest }, err e)
              | none ↦ (record r { rest = drop r.frame_size r.rest }, ok (some frame))
            ]
      ]
