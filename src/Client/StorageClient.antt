-- ===== src/Client/StorageClient.antt =====
-- client/internal/storageclient/grpc.go. A connection is of any type `C`; what gRPC answers is input.
-- A connection is shared by all calls to its address, so a call gives the pool that it leaves.
use distributed_fs.Common.{
  ℕ, zero, suc, ◌+◌, ◌-◌, ◌*◌, String, Bool, true, List, [], ◌∷◌, ◌++◌, Option, none, some, Bytes,
  length, take, drop, map, ltb, leb, nat_eq, if◌then◌else◌,
}
use distributed_fs.Common.Registry.{Registry, lookup, insert}
use distributed_fs.Common.Int.{ℤ, pos, negsuc}
use distributed_fs.Storage.Serve.{PutChunkRequest}
use distributed_fs.Client.Errors.{ClientError, Reply, done, failed}
pub mod Frames
pub mod Arrivals
pub mod Roundtrip

abbrev pub default_frame_size : ℕ
default_frame_size = 32 * 1024

pub record GrpcClient (C : Type 0) : Type 0 where
  pub conns : Registry C
  pub frame_size : ℕ

unfoldable pub new_grpc_client : {C : Type 0} → ℤ → GrpcClient C
new_grpc_client (pos n) = record {
  conns = [];
  frame_size = if leb n 0 then default_frame_size else n;
}
new_grpc_client (negsuc n) = record { conns = []; frame_size = default_frame_size }

-- What gRPC answers: to NewClient, at the opening of the stream, at each frame that is sent, and when
-- the stream of these requests is closed.
pub record PutCall (C : Type 0) : Type 0 where
  pub dial : String → Reply C
  pub open_stream : C → Option ClientError
  pub send : ℕ → Option ClientError
  pub close_and_recv : List PutChunkRequest → Option ClientError

-- Of the stream of GetChunk what is received, and the error at its end if that is not io.EOF.
pub record GetCall (C : Type 0) : Type 0 where
  pub dial : String → Reply C
  pub open_stream : C → Option ClientError
  pub received : List Bytes
  pub at_end : Option ClientError

-- The arguments of `PutChunk` that stand in each request.
pub record Header : Type 0 where
  pub chunk_id : String
  pub checksum : Bytes
  pub replicate_to : List String

module _ {C : Type 0} where
  unfoldable pub get_or_dial : (String → Reply C) → String → GrpcClient C → GrpcClient C × Reply C
  get_or_dial dial addr g = elim (lookup addr g.conns) [
    | some conn ↦ (g, done conn)
    | none ↦ elim (dial addr) [
      | failed e ↦ (g, failed e)
      | done conn ↦ (record g { conns = insert addr conn g.conns }, done conn)
    ]
  ]

  -- `Close`, given what each connection answers: the first error, and an empty pool.
  unfoldable pub close_conns :
      (C → Option ClientError) → Registry C → Option ClientError → Option ClientError
  close_conns close [] first = first
  close_conns close ((_, conn) ∷ conns) first =
      close_conns close conns (elim first [ some e ↦ some e | none ↦ close conn ])

  unfoldable pub close_pool :
      (C → Option ClientError) → GrpcClient C → GrpcClient C × Option ClientError
  close_pool close g = (record g { conns = [] }, close_conns close g.conns none)

abbrev pub put_frame : Header → Bytes → Bool → PutChunkRequest
put_frame h d is_last = record {
  chunk_id = h.chunk_id;
  data_bytes = d;
  checksum = h.checksum;
  is_last = is_last;
  replicate_to = map (λ a. some a) h.replicate_to;
}

module _ (h : Header) (bytes : Bytes) (frame_size : ℕ) where
  -- The loop of `PutChunk` from byte `i` on.
  unfoldable pub frames_from : ℕ → ℕ → List PutChunkRequest
  frames_from zero i = []
  frames_from (suc fuel) i =
      let end = if ltb (length bytes) (i + frame_size) then length bytes else i + frame_size in
      let rest = frames_from fuel (i + frame_size) in
      if ltb i (length bytes)
      then put_frame h (take (end - i) (drop i bytes)) (nat_eq end (length bytes)) ∷ rest
      else []

  -- The requests of a chunk; there is one turn of the loop at most for each byte.
  unfoldable pub put_frames : List PutChunkRequest
  put_frames =
      if leb (length bytes) 0 then put_frame h [] true ∷ [] else frames_from (length bytes) 0

-- The requests are sent until one fails: those that were, and the error.
unfoldable pub send_all :
    (ℕ → Option ClientError) → ℕ → List PutChunkRequest → List PutChunkRequest × Option ClientError
send_all send n [] = ([], none)
send_all send n (r ∷ rs) =
    let (sent, e) = send_all send (suc n) rs in
    elim (send n) [ some e' ↦ ([], some e') | none ↦ (r ∷ sent, e) ]

-- The pool, what was sent, and the error.
unfoldable pub client_put_chunk :
    {C : Type 0}
    → PutCall C
    → String
    → Header
    → Bytes
    → GrpcClient C
    → (GrpcClient C × List PutChunkRequest) × Option ClientError
client_put_chunk call addr h bytes g =
    let (g', r) = get_or_dial call.dial addr g in
    elim r [
      | failed e ↦ ((g', []), some e)
      | done conn ↦ elim (call.open_stream conn) [
        | some e ↦ ((g', []), some e)
        | none ↦
            let (sent, e) = send_all call.send 0 (put_frames h bytes g.frame_size) in
            elim e [
              | some e' ↦ ((g', sent), some e')
              | none ↦ ((g', sent), call.close_and_recv sent)
            ]
      ]
    ]

-- The loop of `GetChunk`.
unfoldable pub receive_all : List Bytes → Option ClientError → Bytes → Reply Bytes
receive_all [] none chunk = done chunk
receive_all [] (some e) chunk = failed e
receive_all (d ∷ ds) at_end chunk = receive_all ds at_end (chunk ++ d)

unfoldable pub client_get_chunk :
    {C : Type 0} → GetCall C → String → GrpcClient C → GrpcClient C × Reply Bytes
client_get_chunk call addr g =
    let (g', r) = get_or_dial call.dial addr g in
    elim r [
      | failed e ↦ (g', failed e)
      | done conn ↦ elim (call.open_stream conn) [
        | some e ↦ (g', failed e)
        | none ↦ (g', receive_all call.received call.at_end [])
      ]
    ]
