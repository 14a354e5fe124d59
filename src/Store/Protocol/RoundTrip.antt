-- ===== src/Store/Protocol/RoundTrip.antt =====
-- A packet that was sent is received.
use audible.Base.{
  ℕ, zero, suc, ◌+◌, ◌-◌, ◌*◌, ◌/◌, ◌%◌, ◌^◌, ◌≤◌, ◌<◌, ◌≡◌, refl, ◌∙◌, ap, ap₂, true, false,
  Option, none, some, List, [], ◌∷◌, ◌++◌, ltb, if◌then◌else◌, take, drop, length, length-take,
  minus_one, arith,
}
use audible.Store.Protocol.{
  XactoPacket, Rio, sizeof_packet, packet_bytes, packet_of_bytes, with_words, proto_send_packet,
  recv_data, proto_recv_packet,
}

-- A connection without errors: what is written waits to be read, in order; the conversions of byte
-- order undo each other on words.
pub record IsPipe {S : Type 0} (rio : Rio S) (pending : S → List ℕ) : Type 0 where
  pub writes : (bytes : List ℕ) (s : S) → (rio.writen bytes s).0 ≡ length bytes
  pub appends : (bytes : List ℕ) (s : S) → pending (rio.writen bytes s).1 ≡ pending s ++ bytes
  pub reads :
      (n : ℕ) (s : S)
      → n ≤ length (pending s)
      → ((rio.readn n s).0 ≡ n)
        × ((rio.readn n s).1 ≡ take n (pending s))
        × (pending (rio.readn n s).2 ≡ drop n (pending s))
  pub order : (v : ℕ) → v < 2 ^ 32 → (rio.htonl v < 2 ^ 32) × (rio.ntohl (rio.htonl v) ≡ v)

-- The fields fit.
pub record FitsPacket (p : XactoPacket) : Type 0 where
  pub size : p.size < 2 ^ 31
  pub timestamp_sec : p.timestamp_sec < 2 ^ 32
  pub timestamp_nsec : p.timestamp_nsec < 2 ^ 32

word_of_le :
    (v : ℕ)
    → v < 2 ^ 32
    → v % 256 + v / 2 ^ 8 % 256 * 2 ^ 8 + v / 2 ^ 16 % 256 * 2 ^ 16 + v / 2 ^ 24 % 256 * 2 ^ 24 ≡ v
word_of_le v h = omega arith

-- The bytes of a packet stand for it, whatever follows.
packet_of_bytes-packet_bytes :
    (p : XactoPacket) (rest : List ℕ)
    → p.size < 2 ^ 32
    → p.timestamp_sec < 2 ^ 32
    → p.timestamp_nsec < 2 ^ 32
    → packet_of_bytes (packet_bytes p ++ rest) ≡ p
packet_of_bytes-packet_bytes p rest a b c =
    ground (arith, word_of_le p.size a, word_of_le p.timestamp_sec b, word_of_le p.timestamp_nsec c)

length-packet_bytes : (p : XactoPacket) → length (packet_bytes p) ≡ 16
length-packet_bytes p = refl

take-take : (n : ℕ) (xs : List ℕ) → take n (take n xs) ≡ take n xs
take-take zero xs = refl
take-take (suc n) [] = refl
take-take (suc n) (x ∷ xs) = ap (λ ys. x ∷ ys) (take-take n xs)

drop-take : (n : ℕ) (xs : List ℕ) → drop n (take n xs) ≡ []
drop-take zero xs = refl
drop-take (suc n) [] = refl
drop-take (suc n) (x ∷ xs) = drop-take n xs

module _ {S : Type 0} (rio : Rio S) (pending : S → List ℕ) (pipe : IsPipe rio pending) where
  -- The connection after both parts.
  abbrev pub after_send : XactoPacket → List ℕ → S → S
  after_send pkt bytes s =
      (rio.writen (take pkt.size bytes)
        (rio.writen (packet_bytes (with_words rio.htonl pkt)) s).1).1

  send_lem :
      (pkt : XactoPacket) (bytes : List ℕ) (s : S)
      → FitsPacket pkt
      → 0 < pkt.size
      → pkt.size ≤ length bytes
      → proto_send_packet rio pkt (some bytes) s
        ≡ (0, with_words rio.htonl pkt, after_send pkt bytes s)
  unfolding proto_send_packet
  send_lem pkt bytes s fits pos enough = ground (
    arith,
    fits.size,
    pipe.writes (packet_bytes (with_words rio.htonl pkt)) s,
    pipe.writes (take pkt.size bytes) (rio.writen (packet_bytes (with_words rio.htonl pkt)) s).1,
    length-take pkt.size bytes,
  )

  pending-after_send :
      (pkt : XactoPacket) (bytes : List ℕ) (s : S)
      → pending s ≡ []
      → pending (after_send pkt bytes s)
        ≡ packet_bytes (with_words rio.htonl pkt) ++ take pkt.size bytes
  pending-after_send pkt bytes s none_yet =
      pipe.appends (take pkt.size bytes) (rio.writen (packet_bytes (with_words rio.htonl pkt)) s).1
      ∙ ap (λ xs. xs ++ take pkt.size bytes)
          (pipe.appends (packet_bytes (with_words rio.htonl pkt)) s
            ∙ ap (λ xs. xs ++ packet_bytes (with_words rio.htonl pkt)) none_yet)

  -- The words come back.
  with_words_back :
      (pkt : XactoPacket) → FitsPacket pkt → with_words rio.ntohl (with_words rio.htonl pkt) ≡ pkt
  with_words_back pkt fits =
      let size : rio.ntohl (rio.htonl pkt.size) ≡ pkt.size =
        (pipe.order pkt.size (omega (arith, fits.size))).1 in
      let sec : rio.ntohl (rio.htonl pkt.timestamp_sec) ≡ pkt.timestamp_sec =
        (pipe.order pkt.timestamp_sec fits.timestamp_sec).1 in
      let nsec : rio.ntohl (rio.htonl pkt.timestamp_nsec) ≡ pkt.timestamp_nsec =
        (pipe.order pkt.timestamp_nsec fits.timestamp_nsec).1 in
      λ i. record pkt { size = size i; timestamp_sec = sec i; timestamp_nsec = nsec i }

  -- What the receiver has after its first read.
  first_read :
      (pkt : XactoPacket) (bytes : List ℕ) (s : S)
      → FitsPacket pkt
      → pending s ≡ packet_bytes (with_words rio.htonl pkt) ++ bytes
      → ((rio.readn 16 s).0 ≡ 16)
        × ((rio.readn 16 s).1 ≡ packet_bytes (with_words rio.htonl pkt))
        × (pending (rio.readn 16 s).2 ≡ bytes)
  first_read pkt bytes s fits waits =
      let enough : 16 ≤ length (pending s) = ground (arith, ap length waits) in
      let got = pipe.reads 16 s enough in
      (got.0, got.1 ∙ ap (take 16) waits, got.2 ∙ ap (drop 16) waits)

  recv_data_lem :
      (pkt : XactoPacket) (s : S)
      → FitsPacket pkt
      → 0 < pkt.size
      → length (pending s) ≡ pkt.size
      → recv_data rio pkt true s ≡ (0, pkt, some (rio.readn pkt.size s).1, (rio.readn pkt.size s).2)
  unfolding recv_data
  recv_data_lem pkt s fits pos len =
      ground (arith, fits.size, (pipe.reads pkt.size s (omega (arith, len))).0)

  -- `proto_recv_packet` after its first read.
  abbrev first_part : XactoPacket → ℕ → List ℕ → S → ℕ × XactoPacket × Option (List ℕ) × S
  first_part into read got s =
      let raw = packet_of_bytes (got ++ drop (length got) (packet_bytes into)) in
      if ltb read sizeof_packet
      then (minus_one, raw, none, s)
      else recv_data rio (with_words rio.ntohl raw) true s

  proto_recv_packet_lem :
      (pkt into : XactoPacket) (bytes : List ℕ) (s : S)
      → FitsPacket pkt
      → pending s ≡ packet_bytes (with_words rio.htonl pkt) ++ bytes
      → proto_recv_packet rio into true s ≡ recv_data rio pkt true (rio.readn 16 s).2
  unfolding proto_recv_packet
  proto_recv_packet_lem pkt into bytes s fits waits =
      let first = first_read pkt bytes s fits waits in
      let sent = with_words rio.htonl pkt in
      let whole : packet_of_bytes (packet_bytes sent ++ []) ≡ sent =
        packet_of_bytes-packet_bytes sent [] (pipe.order pkt.size (omega (arith, fits.size))).0
          (pipe.order pkt.timestamp_sec fits.timestamp_sec).0
          (pipe.order pkt.timestamp_nsec fits.timestamp_nsec).0 in
      ap₂ (λ (r : ℕ) (g : List ℕ). first_part into r g (rio.readn 16 s).2) first.0 first.1
      ∙ ap (λ (p : XactoPacket). recv_data rio (with_words rio.ntohl p) true (rio.readn 16 s).2)
          whole
      ∙ ap (λ (p : XactoPacket). recv_data rio p true (rio.readn 16 s).2) (with_words_back pkt fits)

  -- A packet that `proto_send_packet` sent with its data, over a connection without errors on which
  -- nothing waits, is received by `proto_recv_packet`, whatever the receiver's packet held: both return
  -- 0, and the receiver has the packet as it was before the sender converted it, the first `size` bytes
  -- of the sender's data, and nothing left to read. The size is positive, is below `2 ^ 31`, and the
  -- sender has as many bytes.
  pub recv-send :
      (pkt into : XactoPacket) (bytes : List ℕ) (s : S)
      → FitsPacket pkt
      → 0 < pkt.size
      → pkt.size ≤ length bytes
      → pending s ≡ []
      → let sent = proto_send_packet rio pkt (some bytes) s in
        let got = proto_recv_packet rio into true sent.2 in
        (sent.0 ≡ 0)
        × (got.0 ≡ 0)
        × (got.1 ≡ pkt)
        × (got.2 ≡ some (take pkt.size bytes))
        × (pending got.3 ≡ [])
  recv-send pkt into bytes s fits pos enough none_yet =
      let after : S = after_send pkt bytes s in
      let sent = send_lem pkt bytes s fits pos enough in
      let waits = pending-after_send pkt bytes s none_yet in
      let s1 : S = (rio.readn 16 after).2 in
      let left : pending s1 ≡ take pkt.size bytes =
        (first_read pkt (take pkt.size bytes) after fits waits).2 in
      let len : length (pending s1) ≡ pkt.size =
        ap length left ∙ ground (arith, length-take pkt.size bytes) in
      let rest = pipe.reads pkt.size s1 (omega (arith, len)) in
      let got =
        ap (λ (x : ℕ × XactoPacket × S). proto_recv_packet rio into true x.2) sent
        ∙ proto_recv_packet_lem pkt into (take pkt.size bytes) after fits waits
        ∙ recv_data_lem pkt s1 fits pos len in
      (
        ap (λ x. x.0) sent,
        ap (λ x. x.0) got,
        ap (λ x. x.1) got,
        ap (λ x. x.2) got ∙ ap some (rest.1 ∙ ap (take pkt.size) left ∙ take-take pkt.size bytes),
        ap (λ x. pending x.3) got ∙ rest.2 ∙ ap (drop pkt.size) left ∙ drop-take pkt.size bytes,
      )

module _ {S : Type 0} (rio : Rio S) where
  -- A packet without data of which nothing reaches the connection, because `rio_writen` gives `-1`,
  -- counts as sent: `proto_send_packet` returns 0. A packet for which `rio_readn` gives `-1` counts as
  -- received in the same way, and what the receiver then has is what its own packet held, with the order
  -- of the bytes of the words changed.
  pub proto_send_packet-unnoticed :
      (pkt into : XactoPacket) (s : S)
      → (rio.writen (packet_bytes (with_words rio.htonl pkt)) s).0 ≡ 2 ^ 64 - 1
      → (rio.readn sizeof_packet s).0 ≡ 2 ^ 64 - 1
      → (rio.readn sizeof_packet s).1 ≡ []
      → ((proto_send_packet rio pkt none s).0 ≡ 0)
        × ((proto_recv_packet rio into false s).0 ≡ 0)
        × ((proto_recv_packet rio into false s).1
            ≡ with_words rio.ntohl (packet_of_bytes (packet_bytes into)))
  unfolding proto_send_packet proto_recv_packet recv_data
  proto_send_packet-unnoticed pkt into s fails fails' nothing =
      (ground (arith, fails), ground (arith, fails', nothing), ground (arith, fails', nothing))
