-- ===== src/Store/Tests.antt =====
-- Concrete runs of the theorems on Server Store/src.
pub mod Service
use audible.Base.{Option, none, some}
use audible.Store.Shutdown.{Shutdown, HasCommitted, terminate, terminate-exits}
use audible.Store.Transactions.Abort.Clean.{IsClean}
use audible.Base.{
  ℕ, zero, suc, ◌-◌, ◌^◌, ◌<◌, ◌≡◌, refl, ◌⊎◌, ◌↔◌, inl, inr, true, List, [], ◌∷◌, arith, length,
  ltb, ◌==◌, if◌then◌else◌, ◌&&◌, false,
}
use audible.Store.Registry.{
  ClientRegistry, max_clients, creg_init, creg_register, creg_unregister, creg_shutdown_all,
  is_empty,
}
use audible.Store.Registry.Laws.{count, IsRegistry}
use audible.Store.Registry.Reachable.{
  Reachable, Reachable-IsRegistry, creg_register-count, creg_unregister-count,
  creg_shutdown_all-count, is_empty_iff,
}
use audible.Store.Protocol.{
  XactoPacket, Rio, proto_send_packet, proto_recv_packet, with_words, packet_bytes, packet_of_bytes,
  sizeof_packet,
}
use audible.Store.Protocol.Pipe.{pipe, pipe-IsPipe, swap_word}
use audible.Store.Protocol.RoundTrip.{FitsPacket, recv-send, proto_send_packet-unnoticed}
use audible.Store.Transactions.{
  abort_at, abort_pending, entered, sem_wait, sem_post, abort_end, abort_depends, set_status,
  trans_unref, release_dependents, update, commit_step, check_depend, recheck_depend, Walk,
  TransManager, trans_create, trans_add_dependency, commit_end, TransStatus, Transaction, Outcome,
  find, status_at, depends_at, trans_abort, trans_fini,
}
use audible.Store.Transactions.Commit.{
  Run, Saw, AllPassed, SomeFailed, AllCommitted, SomeAborted, AllFinal, commit_steps, commit_ends,
}
use audible.Store.Transactions.Commit.Verdict.{commit_verdict}
use audible.Store.Transactions.Create.{
  trans_create-find, trans_add_dependency-depends, commit_end-status,
}
use audible.Store.Transactions.Abort.{HasHeld, Ended, trans_abort-Ended}
use audible.Store.Transactions.Abort.Closed.{
  Leaves, trans_abort-depends, trans_abort-fatal, trans_fini-fatal,
}

abbrev one_client : ClientRegistry
one_client = creg_register 5 creg_init

one_client-Reachable : Reachable one_client
one_client-Reachable = Reachable.register 5 creg_init Reachable.init (omega arith)

Reachable-IsRegistry_example : IsRegistry one_client
Reachable-IsRegistry_example = Reachable-IsRegistry one_client-Reachable

one_client-IsRegistry : IsRegistry one_client
one_client-IsRegistry = Reachable-IsRegistry one_client-Reachable

abbrev transaction : ℕ → TransStatus → List ℕ → Transaction
transaction id status depends = record {
  id = id;
  refcnt = 1;
  status = status;
  depends = depends;
  waitcnt = 0;
  sem = 1;
}

-- The third transaction depends on the other two.
abbrev mixed : List Transaction
mixed =
    transaction 0 TransStatus.trans_committed []
    ∷ transaction 1 TransStatus.trans_aborted []
    ∷ transaction 2 TransStatus.trans_pending (0 ∷ 1 ∷ [])
    ∷ []

mixed-AllFinal : AllFinal (0 ∷ 1 ∷ []) mixed
unfolding find
mixed-AllFinal = (inl refl, (inr refl, tt))

commit_ends_example :
    (AllCommitted (0 ∷ 1 ∷ []) mixed
      × (commit_steps 5 (Walk.checking (0 ∷ 1 ∷ []) TransStatus.trans_committed) mixed
          ≡ (mixed, Walk.finished TransStatus.trans_committed)))
    ⊎ (SomeAborted (0 ∷ 1 ∷ []) mixed
        × (commit_steps 5 (Walk.checking (0 ∷ 1 ∷ []) TransStatus.trans_committed) mixed
            ≡ (mixed, Walk.finished TransStatus.trans_aborted)))
commit_ends_example = commit_ends (0 ∷ 1 ∷ []) TransStatus.trans_committed mixed mixed-AllFinal

pending-two : status_at 2 mixed ≡ some TransStatus.trans_pending
unfolding find
pending-two = refl

mixed-free : ¬ HasHeld mixed
unfolding find
mixed-free (zero, e, s) = absurd (cc e)
mixed-free (suc zero, e, s) = absurd (cc e)
mixed-free (suc (suc zero), e, s) = omega arith
mixed-free (suc (suc (suc p)), e, s) = absurd (cc e)

-- The second transaction depends on the first, and both are pending.
abbrev two_pending : List Transaction
two_pending =
    transaction 0 TransStatus.trans_pending []
    ∷ transaction 1 TransStatus.trans_pending (0 ∷ [])
    ∷ []

abbrev first_aborted : List Transaction
first_aborted =
    transaction 0 TransStatus.trans_aborted []
    ∷ transaction 1 TransStatus.trans_pending (0 ∷ [])
    ∷ []

-- The first one is aborted between the two tests of the commit of the second one, which commits.
abbrev slipped :
    Run first_aborted TransStatus.trans_committed two_pending
      (Walk.checking (0 ∷ []) TransStatus.trans_committed)
unfolding commit_step check_depend recheck_depend find
slipped = Run.own _ _ two_pending (Walk.rechecking 0 [] TransStatus.trans_committed) refl (
    Run.other _ first_aborted _ (
      Run.own _ _ first_aborted (Walk.checking [] TransStatus.trans_committed) refl
        (Run.own _ _ first_aborted (Walk.finished TransStatus.trans_committed) refl Run.done)))

commit_verdict_example :
    (AllPassed (Saw slipped) (0 ∷ []) × (TransStatus.trans_committed ≡ TransStatus.trans_committed))
    ⊎ (SomeFailed (Saw slipped) (0 ∷ [])
        × (TransStatus.trans_committed ≡ TransStatus.trans_aborted))
commit_verdict_example =
    commit_verdict first_aborted two_pending TransStatus.trans_committed (0 ∷ []) slipped

-- The call returns here, with both transactions aborted.
trans_abort-Ended_example : Ended two_pending (trans_abort 3 1 two_pending)
trans_abort-Ended_example = trans_abort-Ended 3 1 two_pending (omega arith)

pending-one : status_at 1 two_pending ≡ some TransStatus.trans_pending
unfolding find
pending-one = refl

trans_abort-depends_example : Leaves (1 ∷ depends_at 1 two_pending) (trans_abort 3 1 two_pending)
trans_abort-depends_example = trans_abort-depends 3 1 two_pending (omega arith) pending-one

both_aborted :
    trans_abort 3 1 two_pending
    ≡ Outcome.returned (
        record (transaction 0 TransStatus.trans_aborted []) { refcnt = 0 }
        ∷ record (transaction 1 TransStatus.trans_aborted (0 ∷ [])) { refcnt = 0 }
        ∷ [])
unfolding trans_abort abort_at abort_pending entered sem_wait sem_post abort_end abort_depends
    set_status trans_unref release_dependents update find
both_aborted = refl

committed-zero : status_at 0 mixed ≡ some TransStatus.trans_committed
unfolding find
committed-zero = refl

trans_abort-fatal_example : trans_abort 2 2 mixed ≡ Outcome.fatal
unfolding find
trans_abort-fatal_example =
    trans_abort-fatal 2 2 mixed (omega arith) mixed-free pending-two (inl committed-zero)

abbrev manager : TransManager
manager = record { trans_list = mixed; next_id = 3 }

-- A packet of two bytes, of which the client's array has three.
abbrev two_bytes : XactoPacket
two_bytes = record {
  type = 5;
  status = 0;
  null = 0;
  padding = 0;
  size = 2;
  timestamp_sec = 7;
  timestamp_nsec = 9;
}

two_bytes-FitsPacket : FitsPacket two_bytes
two_bytes-FitsPacket = record {
  size = omega arith;
  timestamp_sec = omega arith;
  timestamp_nsec = omega arith;
}

abbrev sent_two : ℕ × XactoPacket × List ℕ
sent_two = proto_send_packet pipe two_bytes (some (65 ∷ 66 ∷ 67 ∷ [])) []

abbrev got_two : ℕ × XactoPacket × Option (List ℕ) × List ℕ
got_two = proto_recv_packet pipe two_bytes true sent_two.2

recv-send_example :
    (sent_two.0 ≡ 0)
    × (got_two.0 ≡ 0)
    × (got_two.1 ≡ two_bytes)
    × (got_two.2 ≡ some (65 ∷ 66 ∷ []))
    × (got_two.3 ≡ [])
recv-send_example =
    recv-send pipe (λ s. s) pipe-IsPipe two_bytes two_bytes (65 ∷ 66 ∷ 67 ∷ []) []
      two_bytes-FitsPacket (omega arith) (omega arith) refl

terminate-exits_example :
    ((terminate 2 creg_init mixed ≡ Shutdown.exits 0) × IsClean mixed)
    ⊎ ((terminate 2 creg_init mixed ≡ Shutdown.exits 1) × HasCommitted mixed)
unfolding is_empty creg_init
terminate-exits_example = terminate-exits 2 creg_init mixed (omega arith) mixed-free refl
