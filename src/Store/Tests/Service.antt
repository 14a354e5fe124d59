-- ===== src/Store/Tests/Service.antt =====
-- Concrete runs of the theorems on blobs and on the service of a client.
use audible.Base.{
  ℕ, ◌≡◌, refl, true, false, none, some, List, [], ◌∷◌, arith, minus_one, u32, sub32,
}
use audible.Store.Registry.{creg_init, creg_register, creg_unregister}
use audible.Store.Registry.Reachable.{creg_init-IsRegistry, creg_init-clients}
use audible.Store.Transactions.{
  TransStatus, trans_create, trans_abort, abort_at, abort_pending, entered, sem_wait, sem_post,
  abort_end, abort_depends, set_status, trans_unref, release_dependents, add_trans_list, trans_ref,
  update, find,
}
use audible.Store.Transactions.Abort.Own.{IsDecided}
use audible.Store.Blobs.{Blobs, Key, blob_create, blob_hash, key_create, hash_loop}
use audible.Store.Blobs.Counts.{references, looked_up, new_blob, blob_create-references}
use audible.Store.Protocol.{proto_recv_packet, recv_data}
use audible.Store.Protocol.Pipe.{pipe}
use audible.Store.Server.{
  World, StoreOps, Phase, receive, serve, service_step, service_start, packet_create, get_pkt,
}
use audible.Store.Server.Crash.{serve-crashed}
use audible.Store.Server.Ends.{slots_of}
use audible.Store.Server.Runs.{Serves, service_start-ends}

-- The blobs `a` and `b`.
abbrev two_keys : Blobs
two_keys = some (new_blob (some (97 ∷ [])) 1) ∷ some (new_blob (some (98 ∷ [])) 1) ∷ []

abbrev key_a : Key
key_a = record { hash = u32 (hash_loop 5381 (97 ∷ [])); blob = some 0 }

abbrev key_b : Key
key_b = record { hash = u32 (hash_loop 5381 (98 ∷ [])); blob = some 1 }

key_a_lem : key_create 0 two_keys ≡ some key_a
unfolding key_create blob_hash
key_a_lem = refl

key_b_lem : key_create 1 two_keys ≡ some key_b
unfolding key_create blob_hash
key_b_lem = refl

-- The difference of the first characters.
abbrev first_difference : List ℕ → List ℕ → ℕ
first_difference (c ∷ cs) (d ∷ ds) = sub32 c d
first_difference [] ds = minus_one
first_difference (c ∷ cs) [] = c

blob_create-references_example :
    (blob_create (some (97 ∷ [])) 1 [] ≡ some (0, some (new_blob (some (97 ∷ [])) 1) ∷ []))
    × (looked_up 0
          (references (true ∷ false ∷ false ∷ []) 0 (some (new_blob (some (97 ∷ [])) 1) ∷ []))
        ≡ some none)
blob_create-references_example =
    blob_create-references (some (97 ∷ [])) 1 [] (true ∷ false ∷ false ∷ []) (omega arith)

-- A server whose store has nothing, without transactions.
abbrev no_store : StoreOps Unit
no_store = record {
  put = λ tp key value w. (TransStatus.trans_pending, w.0, w.1, w.2);
  get = λ tp key w. (TransStatus.trans_pending, none, w.0, w.1, w.2);
}

abbrev no_clock : List ℕ → ℕ × ℕ
no_clock s = (0, 0)

abbrev quiet : World (List ℕ) Unit
quiet = record {
  conn = [];
  registry = creg_init;
  manager = record { trans_list = []; next_id = 0 };
  blobs = [];
  store = tt;
}

-- After the client has gone.
abbrev gone : World (List ℕ) Unit
gone = record quiet {
  registry = creg_unregister 5 (creg_register 5 creg_init);
  manager = record {
    trans_list =
        record {
          id = 0;
          refcnt = 0;
          status = TransStatus.trans_aborted;
          depends = [];
          waitcnt = 0;
          sem = 1;
        }
        ∷ [];
    next_id = 1;
  };
}

-- The run of a service whose client closes the connection at once.
abbrev started : ℕ × Phase × World (List ℕ) Unit
started = service_start pipe no_clock no_store 5 quiet

closed_at_once :
    service_step pipe no_clock no_store 5 started.0 started.1 started.2 ≡ some (Phase.ended, gone)
unfolding service_start service_step receive proto_recv_packet recv_data trans_create trans_abort
    abort_at abort_pending entered sem_wait sem_post abort_end abort_depends set_status trans_unref
    release_dependents add_trans_list trans_ref update find
closed_at_once = refl

service_start-ends_example :
    (slots_of 5 gone ≡ slots_of 5 quiet) × IsDecided started.0 gone.manager.trans_list
service_start-ends_example =
    service_start-ends pipe no_clock no_store 5 quiet gone (omega arith) creg_init-IsRegistry
      (omega (arith, creg_init-clients))
      (Serves.step started.1 started.1 Phase.ended started.2 started.2 gone
        (Serves.here started.1 started.2) closed_at_once)

-- A GET whose key has no bytes.
abbrev empty_key : World (List ℕ) Unit
empty_key = record quiet {
  conn = 3 ∷ 0 ∷ 1 ∷ 0 ∷ 0 ∷ 0 ∷ 0 ∷ 0 ∷ 0 ∷ 0 ∷ 0 ∷ 0 ∷ 0 ∷ 0 ∷ 0 ∷ 0 ∷ [];
}

received_empty :
    ((proto_recv_packet pipe (packet_create 0 0) true empty_key.conn).0 ≡ 0)
    × ((proto_recv_packet pipe (packet_create 0 0) true empty_key.conn).2 ≡ none)
unfolding proto_recv_packet recv_data
received_empty = (refl, refl)

serve-crashed_example :
    serve pipe no_clock no_store 5 0 (packet_create get_pkt 0) TransStatus.trans_pending empty_key
    ≡ some (Phase.crashed, empty_key)
serve-crashed_example =
    serve-crashed pipe no_clock no_store 5 0 (packet_create get_pkt 0) TransStatus.trans_pending
      empty_key refl received_empty.0 received_empty.1
