-- ===== src/Store/Protocol/Pipe.antt =====
-- A connection that is a list of bytes, for the tests of the packets.
use audible.Base.{
  ℕ, ◌+◌, ◌*◌, ◌/◌, ◌%◌, ◌^◌, ◌<◌, ◌≡◌, refl, List, ◌++◌, ltb, take, drop, length, if◌then◌else◌,
  arith,
}
use audible.Store.Protocol.{Rio}
use audible.Store.Protocol.RoundTrip.{IsPipe}

abbrev pub swap_word : ℕ → ℕ
swap_word v =
    v % 256 * 2 ^ 24 + v / 2 ^ 8 % 256 * 2 ^ 16 + v / 2 ^ 16 % 256 * 2 ^ 8 + v / 2 ^ 24 % 256

abbrev pub pipe : Rio (List ℕ)
pipe = record {
  writen = λ bytes s. (length bytes, s ++ bytes);
  readn = λ n s. ((if ltb (length s) n then length s else n), take n s, drop n s);
  htonl = swap_word;
  ntohl = swap_word;
}

swap_word-swap_word : (v : ℕ) → v < 2 ^ 32 → swap_word (swap_word v) ≡ v
swap_word-swap_word v h = omega arith

pub pipe-IsPipe : IsPipe pipe (λ s. s)
pipe-IsPipe = record {
  writes = λ bytes s. refl;
  appends = λ bytes s. refl;
  reads = λ n s h. (ground arith, refl, refl);
  order = λ v h. (omega arith, swap_word-swap_word v h);
}
