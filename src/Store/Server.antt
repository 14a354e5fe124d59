-- ===== src/Store/Server.antt =====
-- Server Store/src/server.c: the service of one client.
--
-- A service thread is a state machine: a phase of the loop of `xacto_client_service` and the world, the
-- connection and what the threads share. `trans_commit` waits for other threads, so each of its steps is
-- one of the machine. The functions of store.h, whose bodies are a comment in store.c, and the clock are
-- parameters. Allocation does not fail; what the source frees, and the output of the store and of the
-- transactions for debugging, are left out.
pub mod Ends
pub mod Requests
pub mod Runs
pub mod Crash
use audible.Base.{
  ℕ, zero, suc, ◌+◌, ◌^◌, Bool, true, false, Option, none, some, List, [], ◌∷◌, ◌==◌, if◌then◌else◌,
  is_negative, length, u32,
}
use audible.Store.Registry.{ClientRegistry, creg_register, creg_unregister}
use audible.Store.Transactions.{
  TransStatus, Transaction, TransManager, Outcome, Walk, trans_create, trans_abort, begin_commit,
  commit_step, commit_end,
}
use audible.Store.Blobs.{Blob, Blobs, Key, blob_at, blob_create, key_create}
use audible.Store.Protocol.{XactoPacket, Rio, proto_send_packet, proto_recv_packet}

-- What a thread of the server reads and changes.
pub record World (S M : Type 0) : Type 0 where
  pub conn : S
  pub registry : ClientRegistry
  pub manager : TransManager
  pub blobs : Blobs
  pub store : M

-- `store_put` gives the status, `store_get` the status and the value.
pub record StoreOps (M : Type 0) : Type 0 where
  pub put : ℕ → Key → ℕ → TransManager × Blobs × M → TransStatus × TransManager × Blobs × M
  pub get : ℕ → Key → TransManager × Blobs × M → TransStatus × Option ℕ × TransManager × Blobs × M

-- Where the thread is: at the top of the loop, with the packet and the status so far; in
-- `trans_commit`; ended; or the process has crashed or exited.
pub data Phase : Type 0 where
  ready : XactoPacket → TransStatus → Phase
  committing : XactoPacket → Walk → Phase
  ended : Phase
  crashed : Phase

abbrev pub put_pkt : ℕ
put_pkt = 1

abbrev pub get_pkt : ℕ
get_pkt = 2

abbrev pub data_pkt : ℕ
data_pkt = 3

abbrev pub commit_pkt : ℕ
commit_pkt = 4

abbrev pub reply_pkt : ℕ
reply_pkt = 5

abbrev pub status_code : TransStatus → ℕ
status_code TransStatus.trans_pending = 0
status_code TransStatus.trans_committed = 1
status_code TransStatus.trans_aborted = 2

abbrev pub packet_create : ℕ → ℕ → XactoPacket
packet_create type status = record {
  type = type;
  status = status;
  null = 0;
  padding = 0;
  size = 0;
  timestamp_sec = 0;
  timestamp_nsec = 0;
}

module _ {S M : Type 0} (rio : Rio S) (clock : S → ℕ × ℕ) (ops : StoreOps M) where
  abbrev pub set_pkt_time : XactoPacket → S → XactoPacket
  set_pkt_time pkt s = record pkt {
    timestamp_sec = u32 (clock s).0;
    timestamp_nsec = u32 (clock s).1;
  }

  -- The second packet of `xacto_reply`, behind a reply to a GET; NULL stands for no value.
  unfoldable pub reply_data : XactoPacket → Option ℕ → Blobs → S → Option S
  reply_data response none blobs s =
      some (proto_send_packet rio (record response { null = 1 }) none s).2
  reply_data response (some p) blobs s = elim (blob_at p blobs) [
    | none ↦ none
    | some b ↦ some (proto_send_packet rio (record response { size = u32 b.size }) b.content s).2
  ]

  -- `xacto_reply(fd, type, status, blob)`; `none` where the blob is freed.
  unfoldable pub xacto_reply : ℕ → TransStatus → Option ℕ → Blobs → S → Option S
  xacto_reply type status blob blobs s =
      let (result, sent, s1) =
        proto_send_packet rio (set_pkt_time (packet_create reply_pkt (status_code status)) s) none
          s in
      if type == get_pkt
      then reply_data (set_pkt_time (record sent { type = data_pkt }) s1) blob blobs s1
      else some s1

  -- `key_create(blob_create(*key, keyPkt->size))`
  unfoldable pub create_key : Option (List ℕ) → ℕ → Blobs → Option (Key × Blobs)
  create_key content size blobs = elim (blob_create content size blobs) [
    | none ↦ none
    | some (p, blobs') ↦ elim (key_create p blobs') [ none ↦ none | some key ↦ some (key, blobs') ]
  ]

  -- `xacto_get(fd, trans, valueBlob)` behind the packet with the key.
  unfoldable pub get_value :
      ℕ → XactoPacket → Option (List ℕ) → World S M → Option (TransStatus × Option ℕ × World S M)
  get_value tp key_pkt content w = elim (create_key content key_pkt.size w.blobs) [
    | none ↦ none
    | some (key, blobs) ↦
        let (status, value, manager, blobs', store) = ops.get tp key (w.manager, blobs, w.store) in
        some (status, value, record w { manager = manager; blobs = blobs'; store = store })
  ]

  -- `none` where the process crashes.
  unfoldable pub xacto_get : ℕ → World S M → Option (TransStatus × Option ℕ × World S M)
  xacto_get tp w =
      let (result, key_pkt, content, conn) =
        proto_recv_packet rio (packet_create 0 0) true w.conn in
      if is_negative result
      then some (TransStatus.trans_aborted, none, record w { conn = conn })
      else get_value tp key_pkt content (record w { conn = conn })

  -- `store_put(trans, keyKey, valueBlob)` with the new blob.
  abbrev pub store_value :
      ℕ → Key → Option (ℕ × Blobs) → World S M → Option (TransStatus × World S M)
  store_value tp key none w = none
  store_value tp key (some (p, blobs)) w =
      let (status, manager, blobs', store) = ops.put tp key p (w.manager, blobs, w.store) in
      some (status, record w { manager = manager; blobs = blobs'; store = store })

  -- `xacto_put(fd, trans)` behind both packets.
  unfoldable pub put_value :
      ℕ
      → XactoPacket
      → Option (List ℕ)
      → XactoPacket
      → Option (List ℕ)
      → World S M
      → Option (TransStatus × World S M)
  put_value tp key_pkt content value_pkt value w = elim (create_key content key_pkt.size w.blobs) [
    | none ↦ none
    | some (key, blobs) ↦ store_value tp key (blob_create value value_pkt.size blobs) w
  ]

  unfoldable pub xacto_put : ℕ → World S M → Option (TransStatus × World S M)
  xacto_put tp w =
      let (result, key_pkt, content, conn) =
        proto_recv_packet rio (packet_create 0 0) true w.conn in
      let (result', value_pkt, value, conn') =
        proto_recv_packet rio (packet_create 0 0) true conn in
      if is_negative result
      then some (TransStatus.trans_aborted, record w { conn = conn })
      else if is_negative result'
      then some (TransStatus.trans_aborted, record w { conn = conn' })
      else put_value tp key_pkt content value_pkt value (record w { conn = conn' })

  -- `trans_abort(trans)` of the service; each call inside another finds one more transaction pending, so
  -- the fuel is enough.
  abbrev pub abort_own : ℕ → TransManager → Outcome
  abort_own tp m = trans_abort (suc (length m.trans_list)) tp m.trans_list

  -- What follows `trans_abort`, where it returns; where it waits there is no step yet.
  abbrev pub after_abort :
      (World S M → World S M) → World S M → Outcome → Option (Phase × World S M)
  after_abort close w (Outcome.returned list) =
      some (Phase.ended, close (record w { manager = record (w.manager) { trans_list = list } }))
  after_abort close w Outcome.fatal = some (Phase.crashed, w)
  after_abort close w Outcome.blocked = none
  after_abort close w Outcome.out_of_fuel = none

  abbrev pub unregistered : ℕ → World S M → World S M
  unregistered fd w = record w { registry = creg_unregister fd w.registry }

  -- The end of a turn of the loop, after the reply.
  unfoldable pub end_turn :
      ℕ → ℕ → XactoPacket → TransStatus → World S M → Option (Phase × World S M)
  end_turn fd tp pkt TransStatus.trans_aborted w =
      after_abort (λ w'. w') (unregistered fd w) (abort_own tp w.manager)
  end_turn fd tp pkt TransStatus.trans_pending w =
      if pkt.type == commit_pkt
      then some (Phase.ended, unregistered fd w)
      else some (Phase.ready pkt TransStatus.trans_pending, w)
  end_turn fd tp pkt TransStatus.trans_committed w =
      if pkt.type == commit_pkt
      then some (Phase.ended, unregistered fd w)
      else some (Phase.ready pkt TransStatus.trans_committed, w)

  -- The reply and the end of the turn.
  unfoldable pub reply_turn :
      ℕ → ℕ → XactoPacket → TransStatus → Option ℕ → World S M → Option (Phase × World S M)
  reply_turn fd tp pkt status blob w = elim (xacto_reply pkt.type status blob w.blobs w.conn) [
    | none ↦ some (Phase.crashed, w)
    | some conn ↦ end_turn fd tp pkt status (record w { conn = conn })
  ]

  abbrev pub with_list : List Transaction → World S M → World S M
  with_list list w = record w { manager = record (w.manager) { trans_list = list } }

  -- A step inside `trans_commit`.
  abbrev pub walked :
      XactoPacket → World S M → Option (List Transaction × Walk) → Option (Phase × World S M)
  walked pkt w none = none
  walked pkt w (some (list, walk)) = some (Phase.committing pkt walk, with_list list w)

  -- A turn of the loop, behind the packet with the request.
  unfoldable pub serve : ℕ → ℕ → XactoPacket → TransStatus → World S M → Option (Phase × World S M)
  serve fd tp pkt status w =
      if pkt.type == put_pkt
      then elim (xacto_put tp w) [
        | none ↦ some (Phase.crashed, w)
        | some (status', w') ↦ reply_turn fd tp pkt status' none w'
      ]
      else if pkt.type == get_pkt
      then elim (xacto_get tp w) [
        | none ↦ some (Phase.crashed, w)
        | some (status', blob, w') ↦ reply_turn fd tp pkt status' blob w'
      ]
      else if pkt.type == commit_pkt
      then walked pkt w (begin_commit tp w.manager.trans_list)
      else reply_turn fd tp pkt status none w

  -- The top of the loop: without a packet the client is gone.
  unfoldable pub receive :
      ℕ → ℕ → XactoPacket → TransStatus → World S M → Option (Phase × World S M)
  receive fd tp pkt status w =
      let (result, pkt', content, conn) = proto_recv_packet rio pkt false w.conn in
      if is_negative result
      then after_abort (unregistered fd) (record w { conn = conn }) (abort_own tp w.manager)
      else serve fd tp pkt' status (record w { conn = conn })

  -- Behind the loop of `trans_commit`.
  unfoldable pub end_commit :
      ℕ → ℕ → XactoPacket → TransStatus → World S M → Option (Phase × World S M)
  end_commit fd tp pkt status w =
      reply_turn fd tp pkt status none (with_list (commit_end tp status w.manager.trans_list) w)

  -- One step of the thread that serves `fd` in the transaction `tp`; `none` where it waits or is over.
  unfoldable pub service_step : ℕ → ℕ → Phase → World S M → Option (Phase × World S M)
  service_step fd tp (Phase.ready pkt status) w = receive fd tp pkt status w
  service_step fd tp (Phase.committing pkt (Walk.finished status)) w = end_commit fd tp pkt status w
  service_step fd tp (Phase.committing pkt walk) w =
      walked pkt w (commit_step walk w.manager.trans_list)
  service_step fd tp Phase.ended w = none
  service_step fd tp Phase.crashed w = none

  -- The start of `xacto_client_service`, with the position of the new transaction.
  unfoldable pub service_start : ℕ → World S M → ℕ × Phase × World S M
  service_start fd w = (
    length w.manager.trans_list,
    Phase.ready (packet_create 0 0) TransStatus.trans_pending,
    record w { registry = creg_register fd w.registry; manager = trans_create w.manager },
  )
