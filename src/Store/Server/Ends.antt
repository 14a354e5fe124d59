-- ===== src/Store/Server/Ends.antt =====
-- How the service of a client ends.
use audible.Base.{
  ℕ, ◌-◌, ◌<◌, ◌^◌, ◌≡◌, refl, ◌∙◌, ap, sym, Bool-cases, inl, inr, Option, none, some, List, ◌==◌,
  arith,
}
use audible.Store.Registry.Laws.{count}
use audible.Store.Registry.Reachable.{creg_unregister-count}
use audible.Store.Transactions.{TransStatus, Transaction, Outcome, Walk, status_at}
use audible.Store.Transactions.Abort.{Ended}
use audible.Store.Transactions.Abort.Own.{
  HasVerdict, HasVerdictAfter, IsDecided, Decides, trans_abort-enough, trans_abort-Decides,
}
use audible.Store.Protocol.{XactoPacket, Rio}
use audible.Store.Server.{
  World, StoreOps, Phase, commit_pkt, xacto_reply, abort_own, after_abort, unregistered, end_turn,
  reply_turn, with_list, walked,
}

-- The slots with the descriptor of the service.
abbrev pub slots_of : {S M : Type 0} → ℕ → World S M → ℕ
slots_of fd w = count fd w.registry.client_list

-- A service in its phase, with `n` slots for its descriptor while it runs.
abbrev pub Good : {S M : Type 0} → ℕ → ℕ → ℕ → Phase → World S M → Type 0
Good fd tp n (Phase.ready pkt status) w = slots_of fd w ≡ n
Good fd tp n (Phase.committing pkt walk) w = (slots_of fd w ≡ n) × HasVerdict walk
Good fd tp n Phase.ended w = (slots_of fd w ≡ n - 1) × IsDecided tp w.manager.trans_list
Good fd tp n Phase.crashed w = Unit

-- A step, where there is one, leads to such a phase.
abbrev pub Leads : {S M : Type 0} → ℕ → ℕ → ℕ → Option (Phase × World S M) → Type 0
Leads fd tp n none = Unit
Leads fd tp n (some (phase, w)) = Good fd tp n phase w

module _ {S M : Type 0} (rio : Rio S) (clock : S → ℕ × ℕ) (ops : StoreOps M) where
  unregistered-slots :
      (fd : ℕ) (w : World S M)
      → fd < 2 ^ 31
      → slots_of fd (unregistered rio clock ops fd w) ≡ slots_of fd w - 1
  unregistered-slots fd w small = ground (arith, creg_unregister-count fd fd w.registry small small)

  after_abort-Leads :
      (fd tp n : ℕ) (close : World S M → World S M) (w : World S M) (list : List Transaction)
      (o : Outcome)
      → Ended list o
      → Decides tp o
      → ((l : List Transaction) → slots_of fd (close (with_list rio clock ops l w)) ≡ n - 1)
      → ((l : List Transaction) → (close (with_list rio clock ops l w)).manager.trans_list ≡ l)
      → Leads fd tp n (after_abort rio clock ops close w o)
  after_abort-Leads fd tp n close w list (Outcome.returned l) h d slots same =
      (slots l, λ e. d (ap (status_at tp) (sym (same l)) ∙ e))
  after_abort-Leads fd tp n close w list Outcome.fatal h d slots same = tt
  after_abort-Leads fd tp n close w list Outcome.blocked h d slots same = tt
  after_abort-Leads fd tp n close w list Outcome.out_of_fuel h d slots same = absurd h

  -- The abort behind the turn that unregistered the client.
  end_aborted :
      (fd tp n : ℕ) (w : World S M)
      → fd < 2 ^ 31
      → slots_of fd w ≡ n
      → Leads fd tp n (
          after_abort rio clock ops
            (λ w'. w')
            (unregistered rio clock ops fd w)
            (abort_own rio clock ops tp w.manager))
  end_aborted fd tp n w small here =
      after_abort-Leads fd tp n (λ w'. w') (unregistered rio clock ops fd w) w.manager.trans_list
        (abort_own rio clock ops tp w.manager) (trans_abort-enough tp w.manager.trans_list)
        (trans_abort-Decides tp w.manager.trans_list)
        (λ l. unregistered-slots fd w small ∙ ap (λ m. m - 1) here) (λ l. refl)

  -- A client that is gone.
  pub end_closed :
      (fd tp n : ℕ) (w : World S M)
      → fd < 2 ^ 31
      → slots_of fd w ≡ n
      → Leads fd tp n (
          after_abort rio clock ops
            (unregistered rio clock ops fd)
            w
            (abort_own rio clock ops tp w.manager))
  end_closed fd tp n w small here =
      after_abort-Leads fd tp n (unregistered rio clock ops fd) w w.manager.trans_list
        (abort_own rio clock ops tp w.manager) (trans_abort-enough tp w.manager.trans_list)
        (trans_abort-Decides tp w.manager.trans_list)
        (λ l. unregistered-slots fd (with_list rio clock ops l w) small ∙ ap (λ m. m - 1) here)
        (λ l. refl)

  -- At the end of a turn the transaction is decided where the turn was a commit.
  end_turn-Leads :
      (fd tp n : ℕ) (pkt : XactoPacket) (status : TransStatus) (w : World S M)
      → fd < 2 ^ 31
      → slots_of fd w ≡ n
      → (pkt.type ≡ commit_pkt → IsDecided tp w.manager.trans_list)
      → Leads fd tp n (end_turn rio clock ops fd tp pkt status w)
  unfolding end_turn
  end_turn-Leads fd tp n pkt TransStatus.trans_aborted w small here decided =
      end_aborted fd tp n w small here
  end_turn-Leads fd tp n pkt TransStatus.trans_pending w small here decided =
      elim (Bool-cases (pkt.type == commit_pkt)) [
        | inl e ↦
            rw e (unregistered-slots fd w small ∙ ap (λ m. m - 1) here, decided (ground (arith, e)))
        | inr e ↦ rw e here
      ]
  end_turn-Leads fd tp n pkt TransStatus.trans_committed w small here decided =
      elim (Bool-cases (pkt.type == commit_pkt)) [
        | inl e ↦
            rw e (unregistered-slots fd w small ∙ ap (λ m. m - 1) here, decided (ground (arith, e)))
        | inr e ↦ rw e here
      ]

  pub reply_turn-Leads :
      (fd tp n : ℕ) (pkt : XactoPacket) (status : TransStatus) (blob : Option ℕ) (w : World S M)
      → fd < 2 ^ 31
      → slots_of fd w ≡ n
      → (pkt.type ≡ commit_pkt → IsDecided tp w.manager.trans_list)
      → Leads fd tp n (reply_turn rio clock ops fd tp pkt status blob w)
  unfolding reply_turn
  reply_turn-Leads fd tp n pkt status blob w small here decided =
      elim (xacto_reply rio clock ops pkt.type status blob w.blobs w.conn)
        as (λ x. Leads fd tp n (elim x as (λ _. Option (Phase × World S M)) [
          | none ↦ some (Phase.crashed, w)
          | some conn ↦ end_turn rio clock ops fd tp pkt status (record w { conn = conn })
        ])) [
          | none ↦ tt
          | some conn ↦
              end_turn-Leads fd tp n pkt status (record w { conn = conn }) small here decided
        ]

  pub walked-Leads :
      (fd tp n : ℕ) (pkt : XactoPacket) (w : World S M) (next : Option (List Transaction × Walk))
      → slots_of fd w ≡ n
      → HasVerdictAfter next
      → Leads fd tp n (walked rio clock ops pkt w next)
  walked-Leads fd tp n pkt w none here h = tt
  walked-Leads fd tp n pkt w (some (list, walk')) here h = (here, h)
