-- ===== src/Store/Protocol.antt =====
-- Server Store/src/protocol.c: packets over a connection.
--
-- `rio_readn` and `rio_writen` of the csapp library and the conversions of byte order of the C library
-- are parameters. A result of type `ssize_t` is its 64-bit pattern; a packet in memory is its sixteen
-- bytes, with the words in the order of a little-endian machine.
pub mod Pipe
pub mod RoundTrip
use audible.Base.{
  ℕ, zero, suc, ◌+◌, ◌-◌, ◌*◌, ◌/◌, ◌%◌, ◌^◌, ◌≡◌, Bool, true, false, ◌&&◌, Option, none, some,
  List, [], ◌∷◌, ◌++◌, ltb, ◌==◌, if◌then◌else◌, not, take, drop, length, get_or, u32, minus_one,
  lts,
}

pub record XactoPacket : Type 0 where
  pub type : ℕ
  pub status : ℕ
  pub null : ℕ
  pub padding : ℕ
  pub size : ℕ
  pub timestamp_sec : ℕ
  pub timestamp_nsec : ℕ

-- `rio_writen` gives its result; `rio_readn` gives its result and the bytes that it stored.
pub record Rio (S : Type 0) : Type 0 where
  pub writen : List ℕ → S → ℕ × S
  pub readn : ℕ → S → ℕ × List ℕ × S
  pub htonl : ℕ → ℕ
  pub ntohl : ℕ → ℕ

abbrev pub sizeof_packet : ℕ
sizeof_packet = 16

-- A word in memory, and the word that stands at an index of the memory.
abbrev pub le_word : ℕ → List ℕ
le_word v = v % 256 ∷ v / 2 ^ 8 % 256 ∷ v / 2 ^ 16 % 256 ∷ v / 2 ^ 24 % 256 ∷ []

abbrev pub word_at : List ℕ → ℕ → ℕ
word_at bytes i =
    get_or bytes i 0
    + get_or bytes (i + 1) 0 * 2 ^ 8
    + get_or bytes (i + 2) 0 * 2 ^ 16
    + get_or bytes (i + 3) 0 * 2 ^ 24

abbrev pub packet_bytes : XactoPacket → List ℕ
packet_bytes p =
    p.type
    ∷ p.status
    ∷ p.null
    ∷ p.padding
    ∷ (le_word p.size ++ (le_word p.timestamp_sec ++ le_word p.timestamp_nsec))

abbrev pub packet_of_bytes : List ℕ → XactoPacket
packet_of_bytes bytes = record {
  type = get_or bytes 0 0;
  status = get_or bytes 1 0;
  null = get_or bytes 2 0;
  padding = get_or bytes 3 0;
  size = word_at bytes 4;
  timestamp_sec = word_at bytes 8;
  timestamp_nsec = word_at bytes 12;
}

-- The three words, each through `f`.
abbrev pub with_words : (ℕ → ℕ) → XactoPacket → XactoPacket
with_words f p = record p {
  size = f p.size;
  timestamp_sec = f p.timestamp_sec;
  timestamp_nsec = f p.timestamp_nsec;
}

-- `a < b` between two values of type `ssize_t`, of which the second is not negative.
abbrev pub less_signed : ℕ → ℕ → Bool
less_signed a b = if ltb a (2 ^ 63) then ltb a b else true

module _ {S : Type 0} (rio : Rio S) where
  -- `proto_send_packet(fd, pkt, data)`: the result, and what it leaves in the packet. The first
  -- comparison is one of unsigned values, since `sizeof` is.
  unfoldable pub proto_send_packet : XactoPacket → Option (List ℕ) → S → ℕ × XactoPacket × S
  proto_send_packet pkt payload s =
      let size = pkt.size in
      let sent = with_words rio.htonl pkt in
      let (written, s1) = rio.writen (packet_bytes sent) s in
      if ltb written sizeof_packet then (minus_one, sent, s1) else elim payload [
        | none ↦ (0, sent, s1)
        | some bytes ↦
            if lts 0 size
            then (let (written', s2) = rio.writen (take size bytes) s1 in
                if less_signed written' size then (minus_one, sent, s2) else (0, sent, s2))
            else (0, sent, s1)
      ]

  -- The data after the packet, where the client wants them.
  unfoldable pub recv_data : XactoPacket → Bool → S → ℕ × XactoPacket × Option (List ℕ) × S
  recv_data pkt wants s =
      if ltb 0 pkt.size && wants
      then (let (read, bytes, s1) = rio.readn pkt.size s in
          if less_signed read pkt.size
          then (minus_one, pkt, some bytes, s1)
          else (0, pkt, some bytes, s1))
      else (0, pkt, none, s)

  -- `proto_recv_packet(fd, pkt, datap)`: the result, the packet, the data stored through `datap`, which
  -- may be NULL. A short read leaves the end of the packet as it was.
  unfoldable pub proto_recv_packet : XactoPacket → Bool → S → ℕ × XactoPacket × Option (List ℕ) × S
  proto_recv_packet pkt wants s =
      let (read, got, s1) = rio.readn sizeof_packet s in
      let raw = packet_of_bytes (got ++ drop (length got) (packet_bytes pkt)) in
      if ltb read sizeof_packet
      then (minus_one, raw, none, s1)
      else recv_data (with_words rio.ntohl raw) wants s1
