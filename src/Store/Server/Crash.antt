-- ===== src/Store/Server/Crash.antt =====
-- Requests that stop the server.
use audible.Base.{ℕ, true, ◌≡◌, ap, Option, none, some, List, [], ◌∷◌, ◌++◌, length, arith}
use audible.Store.Transactions.{TransStatus}
use audible.Store.Blobs.{Blobs, Blob, content_at, blob_hash, key_create}
use audible.Store.Blobs.Counts.{new_blob, blob_at-last, blob_create_lem}
use audible.Store.Protocol.{XactoPacket, Rio, proto_recv_packet}
use audible.Store.Server.{
  World, StoreOps, Phase, get_pkt, packet_create, create_key, get_value, xacto_get, serve,
}

key_create-none : (p : ℕ) (blobs : Blobs) → content_at p blobs ≡ none → key_create p blobs ≡ none
unfolding key_create blob_hash
key_create-none p blobs e = ground (arith, e)

module _ {S M : Type 0} (rio : Rio S) (clock : S → ℕ × ℕ) (ops : StoreOps M) where
  create_key-none : (size : ℕ) (blobs : Blobs) → create_key rio clock ops none size blobs ≡ none
  unfolding create_key
  create_key-none size blobs =
      let heap : Blobs = blobs ++ some (new_blob none size) ∷ [] in
      ground (
        arith,
        blob_create_lem none size blobs,
        key_create-none (length blobs) heap (
            ap
              (λ (b : Option Blob). elim b as (λ _. Option (List ℕ)) [
                | none ↦ none
                | some b' ↦ b'.content
              ])
              (blob_at-last blobs (some (new_blob none size)))),
      )

  -- A GET whose packet with the key announces no bytes crashes the server, for all its clients: the key
  -- is a blob without content, and its hash reads through NULL.
  pub serve-crashed :
      (fd tp : ℕ) (pkt : XactoPacket) (status : TransStatus) (w : World S M)
      → pkt.type ≡ get_pkt
      → (proto_recv_packet rio (packet_create 0 0) true w.conn).0 ≡ 0
      → (proto_recv_packet rio (packet_create 0 0) true w.conn).2 ≡ none
      → serve rio clock ops fd tp pkt status w ≡ some (Phase.crashed, w)
  unfolding serve xacto_get get_value
  serve-crashed fd tp pkt status w get received empty = ground (
    arith,
    get,
    received,
    empty,
    create_key-none (proto_recv_packet rio (packet_create 0 0) true w.conn).1.size w.blobs,
  )
