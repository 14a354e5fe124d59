-- ===== src/Store/Server/Runs.antt =====
-- The service of a client from its start to its end.
use audible.Base.{
  ℕ, suc, ◌<◌, ◌^◌, ◌≡◌, ◌≢◌, ◌∙◌, Bool-cases, false, inl, inr, none, some, is_negative, length,
  arith,
}
use mathlib.Core.Path.{subst}
use audible.Store.Registry.{max_clients}
use audible.Store.Registry.Laws.{IsRegistry}
use audible.Store.Registry.Reachable.{creg_register-count}
use audible.Store.Transactions.{TransStatus, Walk, commit_step, commit_end}
use audible.Store.Transactions.Abort.Own.{commit_step-HasVerdict, IsDecided, commit_end-IsDecided}
use audible.Store.Protocol.{XactoPacket, Rio, proto_recv_packet}
use audible.Store.Server.{
  World, StoreOps, Phase, receive, with_list, end_commit, service_step, service_start,
}
use audible.Store.Server.Requests.{serve-Leads}
use audible.Store.Server.Ends.{slots_of, Good, Leads, walked-Leads, reply_turn-Leads, end_closed}

module _ {S M : Type 0} (rio : Rio S) (clock : S → ℕ × ℕ) (ops : StoreOps M) where
  receive-Leads :
      (fd tp n : ℕ) (pkt : XactoPacket) (status : TransStatus) (w : World S M)
      → fd < 2 ^ 31
      → slots_of fd w ≡ n
      → Leads fd tp n (receive rio clock ops fd tp pkt status w)
  unfolding receive
  receive-Leads fd tp n pkt status w small here =
      let got = proto_recv_packet rio pkt false w.conn in
      elim (Bool-cases (is_negative got.0)) [
        | inl e ↦ rw e (end_closed rio clock ops fd tp n (record w { conn = got.3 }) small here)
        | inr e ↦
            rw e (
              serve-Leads rio clock ops fd tp n got.1 status (record w { conn = got.3 }) small here)
      ]

  end_commit-Leads :
      (fd tp n : ℕ) (pkt : XactoPacket) (status : TransStatus) (w : World S M)
      → fd < 2 ^ 31
      → slots_of fd w ≡ n
      → status ≢ TransStatus.trans_pending
      → Leads fd tp n (end_commit rio clock ops fd tp pkt status w)
  unfolding end_commit
  end_commit-Leads fd tp n pkt status w small here decided =
      reply_turn-Leads rio clock ops fd tp n pkt status none
        (with_list rio clock ops (commit_end tp status w.manager.trans_list) w) small here
        (λ _. commit_end-IsDecided tp status w.manager.trans_list decided)

  -- Every step of a service keeps the slots of its descriptor while the service runs, takes one away
  -- where it ends, and ends it only with its transaction committed or aborted.
  service_step-Good :
      (fd tp n : ℕ) (phase : Phase) (w : World S M)
      → fd < 2 ^ 31
      → Good fd tp n phase w
      → Leads fd tp n (service_step rio clock ops fd tp phase w)
  unfolding service_step
  service_step-Good fd tp n (Phase.ready pkt status) w small good =
      receive-Leads fd tp n pkt status w small good
  service_step-Good fd tp n (Phase.committing pkt (Walk.finished st)) w small good =
      end_commit-Leads fd tp n pkt st w small good.0 good.1
  service_step-Good fd tp n (Phase.committing pkt (Walk.checking ds st)) w small good =
      walked-Leads rio clock ops fd tp n pkt w
        (commit_step (Walk.checking ds st) w.manager.trans_list) good.0
        (commit_step-HasVerdict (Walk.checking ds st) w.manager.trans_list good.1)
  service_step-Good fd tp n (Phase.committing pkt (Walk.rechecking d ds st)) w small good =
      walked-Leads rio clock ops fd tp n pkt w
        (commit_step (Walk.rechecking d ds st) w.manager.trans_list) good.0
        (commit_step-HasVerdict (Walk.rechecking d ds st) w.manager.trans_list good.1)
  service_step-Good fd tp n (Phase.committing pkt (Walk.waiting d ds st)) w small good =
      walked-Leads rio clock ops fd tp n pkt w
        (commit_step (Walk.waiting d ds st) w.manager.trans_list) good.0
        (commit_step-HasVerdict (Walk.waiting d ds st) w.manager.trans_list good.1)
  service_step-Good fd tp n Phase.ended w small good = tt
  service_step-Good fd tp n Phase.crashed w small good = tt

  -- A run of the service `fd` in the transaction `tp`, between the steps of other threads, which leave
  -- its slots alone and decided transactions decided.
  pub data Serves (fd tp : ℕ) : Phase → World S M → Phase → World S M → Type 0 where
    here : (phase : Phase) (w : World S M) → Serves fd tp phase w phase w
    step :
        (phase phase1 phase2 : Phase) (w w1 w2 : World S M)
        → Serves fd tp phase w phase1 w1
        → service_step rio clock ops fd tp phase1 w1 ≡ some (phase2, w2)
        → Serves fd tp phase w phase2 w2
    other :
        (phase phase1 : Phase) (w w1 w2 : World S M)
        → Serves fd tp phase w phase1 w1
        → slots_of fd w2 ≡ slots_of fd w1
        → (IsDecided tp w1.manager.trans_list → IsDecided tp w2.manager.trans_list)
        → Serves fd tp phase w phase1 w2

  Good-other :
      (fd tp n : ℕ) (phase : Phase) (w w' : World S M)
      → slots_of fd w' ≡ slots_of fd w
      → (IsDecided tp w.manager.trans_list → IsDecided tp w'.manager.trans_list)
      → Good fd tp n phase w
      → Good fd tp n phase w'
  Good-other fd tp n (Phase.ready pkt status) w w' same decided good = same ∙ good
  Good-other fd tp n (Phase.committing pkt walk) w w' same decided good = (same ∙ good.0, good.1)
  Good-other fd tp n Phase.ended w w' same decided good = (same ∙ good.0, decided good.1)
  Good-other fd tp n Phase.crashed w w' same decided good = tt

  pub Serves-Good :
      (fd tp n : ℕ) {phase phase' : Phase} {w w' : World S M}
      → fd < 2 ^ 31
      → Serves fd tp phase w phase' w'
      → Good fd tp n phase w
      → Good fd tp n phase' w'
  Serves-Good fd tp n small (Serves.here phase w) good = good
  Serves-Good fd tp n small (Serves.step phase phase1 phase2 w w1 w2 before e) good =
      subst (Leads fd tp n) e
        (service_step-Good fd tp n phase1 w1 small (Serves-Good fd tp n small before good))
  Serves-Good fd tp n small (Serves.other phase phase1 w w1 w2 before same decided) good =
      Good-other fd tp n phase1 w1 w2 same decided (Serves-Good fd tp n small before good)

  -- A service that starts in a registry with room for its client and that ends, whatever the client sent
  -- and the other threads did to the rest, leaves as many slots with its descriptor as it found, and
  -- its transaction committed or aborted.
  pub service_start-ends :
      (fd : ℕ) (w w' : World S M)
      → fd < 2 ^ 31
      → IsRegistry w.registry
      → w.registry.clients < max_clients
      → Serves fd
          (service_start rio clock ops fd w).0
          (service_start rio clock ops fd w).1
          (service_start rio clock ops fd w).2
          Phase.ended
          w'
      → (slots_of fd w' ≡ slots_of fd w)
        × IsDecided (service_start rio clock ops fd w).0 w'.manager.trans_list
  unfolding service_start
  service_start-ends fd w w' small registry room run =
      let final =
        Serves-Good fd (length w.manager.trans_list) (suc (slots_of fd w)) small run
          (ground (arith, creg_register-count fd fd w.registry small small registry, room)) in
      (final.0 ∙ omega arith, final.1)
