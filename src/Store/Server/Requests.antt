-- ===== src/Store/Server/Requests.antt =====
-- The requests of a client, and a turn of the loop.
use audible.Base.{
  ℕ, ◌<◌, ◌^◌, ◌≡◌, Bool-cases, true, inl, inr, Option, none, some, List, ◌==◌, is_negative, arith,
}
use audible.Store.Transactions.{TransStatus, begin_commit}
use audible.Store.Blobs.{Blobs, Key, blob_create}
use audible.Store.Protocol.{XactoPacket, Rio, proto_recv_packet}
use audible.Store.Server.{
  World, StoreOps, Phase, put_pkt, get_pkt, commit_pkt, packet_create, create_key, get_value,
  xacto_get, store_value, put_value, xacto_put, reply_turn, serve,
}
use audible.Store.Server.Ends.{slots_of, Leads, walked-Leads, reply_turn-Leads}
use audible.Store.Transactions.Abort.Own.{begin_commit-HasVerdict}

module _ {S M : Type 0} (rio : Rio S) (clock : S → ℕ × ℕ) (ops : StoreOps M) where
  -- The requests leave the registry alone.
  abbrev KeptGet : ℕ → ℕ → Option (TransStatus × Option ℕ × World S M) → Type 0
  KeptGet fd n none = Unit
  KeptGet fd n (some (status, value, w)) = slots_of fd w ≡ n

  abbrev KeptPut : ℕ → ℕ → Option (TransStatus × World S M) → Type 0
  KeptPut fd n none = Unit
  KeptPut fd n (some (status, w)) = slots_of fd w ≡ n

  get_value-KeptGet :
      (fd tp n : ℕ) (pkt : XactoPacket) (content : Option (List ℕ)) (w : World S M)
      → slots_of fd w ≡ n
      → KeptGet fd n (get_value rio clock ops tp pkt content w)
  unfolding get_value
  get_value-KeptGet fd tp n pkt content w here =
      elim (create_key rio clock ops content pkt.size w.blobs)
        as (λ x. KeptGet fd n (elim x as (λ _. Option (TransStatus × Option ℕ × World S M)) [
          | none ↦ none
          | some (key, blobs) ↦
              let (status, value, manager, blobs', store) =
                ops.get tp key (w.manager, blobs, w.store) in
              some (status, value, record w { manager = manager; blobs = blobs'; store = store })
        ])) [ none ↦ tt | some (key, blobs) ↦ here ]

  xacto_get-KeptGet :
      (fd tp n : ℕ) (w : World S M)
      → slots_of fd w ≡ n
      → KeptGet fd n (xacto_get rio clock ops tp w)
  unfolding xacto_get
  xacto_get-KeptGet fd tp n w here =
      let got = proto_recv_packet rio (packet_create 0 0) true w.conn in
      elim (Bool-cases (is_negative got.0)) [
        | inl e ↦ rw e here
        | inr e ↦ rw e (get_value-KeptGet fd tp n got.1 got.2 (record w { conn = got.3 }) here)
      ]

  store_value-KeptPut :
      (fd tp n : ℕ) (key : Key) (created : Option (ℕ × Blobs)) (w : World S M)
      → slots_of fd w ≡ n
      → KeptPut fd n (store_value rio clock ops tp key created w)
  store_value-KeptPut fd tp n key none w here = tt
  store_value-KeptPut fd tp n key (some (p, blobs)) w here = here

  put_value-KeptPut :
      (fd tp n : ℕ) (pkt pkt' : XactoPacket) (content value : Option (List ℕ)) (w : World S M)
      → slots_of fd w ≡ n
      → KeptPut fd n (put_value rio clock ops tp pkt content pkt' value w)
  unfolding put_value
  put_value-KeptPut fd tp n pkt pkt' content value w here =
      elim (create_key rio clock ops content pkt.size w.blobs)
        as (λ x. KeptPut fd n (elim x as (λ _. Option (TransStatus × World S M)) [
          | none ↦ none
          | some (key, blobs) ↦
              store_value rio clock ops tp key (blob_create value pkt'.size blobs) w
        ])) [
          | none ↦ tt
          | some (key, blobs) ↦
              store_value-KeptPut fd tp n key (blob_create value pkt'.size blobs) w here
        ]

  xacto_put-KeptPut :
      (fd tp n : ℕ) (w : World S M)
      → slots_of fd w ≡ n
      → KeptPut fd n (xacto_put rio clock ops tp w)
  unfolding xacto_put
  xacto_put-KeptPut fd tp n w here =
      let got = proto_recv_packet rio (packet_create 0 0) true w.conn in
      let got' = proto_recv_packet rio (packet_create 0 0) true got.3 in
      elim (Bool-cases (is_negative got.0)) [
        | inl e ↦ rw e here
        | inr e ↦ elim (Bool-cases (is_negative got'.0)) [
          | inl e' ↦ rw (e, e') here
          | inr e' ↦
              rw (e, e')
                (put_value-KeptPut fd tp n got.1 got'.1 got.2 got'.2 (record w { conn = got'.3 })
                  here)
        ]
      ]

  pub serve-Leads :
      (fd tp n : ℕ) (pkt : XactoPacket) (status : TransStatus) (w : World S M)
      → fd < 2 ^ 31
      → slots_of fd w ≡ n
      → Leads fd tp n (serve rio clock ops fd tp pkt status w)
  unfolding serve
  serve-Leads fd tp n pkt status w small here = elim (Bool-cases (pkt.type == put_pkt)) [
    | inl e ↦ rw e (
        elim (xacto_put rio clock ops tp w)
            as (λ x.
              KeptPut fd n x
              → Leads fd tp n (elim x as (λ _. Option (Phase × World S M)) [
                | none ↦ some (Phase.crashed, w)
                | some (status', w') ↦ reply_turn rio clock ops fd tp pkt status' none w'
              ])) [
                | none ↦ λ _. tt
                | some (status', w') ↦ λ here'.
                    reply_turn-Leads rio clock ops fd tp n pkt status' none w' small here'
                      (λ c. absurd (ground (arith, e, c)))
              ]
          (xacto_put-KeptPut fd tp n w here))
    | inr e ↦ elim (Bool-cases (pkt.type == get_pkt)) [
      | inl e' ↦
          rw (e, e')
            (elim (xacto_get rio clock ops tp w)
                as (λ x.
                  KeptGet fd n x
                  → Leads fd tp n (elim x as (λ _. Option (Phase × World S M)) [
                    | none ↦ some (Phase.crashed, w)
                    | some (status', blob, w') ↦ reply_turn rio clock ops fd tp pkt status' blob w'
                  ])) [
                    | none ↦ λ _. tt
                    | some (status', blob, w') ↦ λ here'.
                        reply_turn-Leads rio clock ops fd tp n pkt status' blob w' small here'
                          (λ c. absurd (ground (arith, e', c)))
                  ]
              (xacto_get-KeptGet fd tp n w here))
      | inr e' ↦ elim (Bool-cases (pkt.type == commit_pkt)) [
        | inl e'' ↦
            rw (e, e', e'')
              (walked-Leads rio clock ops fd tp n pkt w (begin_commit tp w.manager.trans_list) here
                (begin_commit-HasVerdict tp w.manager.trans_list))
        | inr e'' ↦
            rw (e, e', e'')
              (reply_turn-Leads rio clock ops fd tp n pkt status none w small here
                (λ c. absurd (ground (arith, e'', c))))
      ]
    ]
  ]
