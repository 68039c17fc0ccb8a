-- ===== src/Protocol/Record/Pack.antt =====
-- The struct of witness/benchmark/protocol.py, packed and unpacked.
use witness_subnet.Base.{
  ℕ, zero, suc, ◌<◌, ◌≡◌, refl, ap, List, ◌++◌, arith, length, take, drop, All, take-append_length,
  drop-append_length,
}
use witness_subnet.Protocol.Codec.Hex.{to_hex}
use witness_subnet.Protocol.Record.{big_endian, from_big_endian, unpack}

pub length-big_endian : (size n : ℕ) → length (big_endian size n) ≡ size
unfolding big_endian
length-big_endian zero n = refl
length-big_endian (suc size) n = ap suc (length-big_endian size n)

pub big_endian-bytes : (size n : ℕ) → All (λ b. b < 256) (big_endian size n)
unfolding big_endian
big_endian-bytes zero n = tt
big_endian-bytes (suc size) n = (omega arith, big_endian-bytes size n)

pub from_big_endian-one : (n : ℕ) → n < 256 → from_big_endian 0 (big_endian 1 n) ≡ n
unfolding big_endian from_big_endian
from_big_endian-one n h = omega arith

pub from_big_endian-two : (n : ℕ) → n < 65536 → from_big_endian 0 (big_endian 2 n) ≡ n
unfolding big_endian from_big_endian
from_big_endian-two n h = omega arith

pub from_big_endian-four : (n : ℕ) → n < 4294967296 → from_big_endian 0 (big_endian 4 n) ≡ n
unfolding big_endian from_big_endian
from_big_endian-four n h = omega arith

-- The two ends of a list that is put together from a front of known length.
pub take_front : (k : ℕ) (xs ys : List ℕ) → length xs ≡ k → take k (xs ++ ys) ≡ xs
take_front k xs ys h = rw (← h) (take-append_length xs ys)

pub drop_front : (k : ℕ) (xs ys : List ℕ) → length xs ≡ k → drop k (xs ++ ys) ≡ ys
drop_front k xs ys h = rw (← h) (drop-append_length xs ys)

-- Unpacking takes apart what stands at the struct's offsets.
pub unpack_fields :
    (w u m p e q r kq kr f : List ℕ)
    → length w ≡ 4
    → length u ≡ 2
    → length m ≡ 32
    → length p ≡ 12
    → length e ≡ 32
    → length q ≡ 2
    → length r ≡ 2
    → length kq ≡ 2
    → length kr ≡ 2
    → unpack (w ++ (u ++ (m ++ (p ++ (e ++ (q ++ (r ++ (kq ++ (kr ++ f))))))))) ≡ record {
      window = from_big_endian 0 w;
      uid = from_big_endian 0 u;
      model_id = to_hex m;
      policy = to_hex p;
      evidence = to_hex e;
      quality = from_big_endian 0 q;
      reward = from_big_endian 0 r;
      king_quality = from_big_endian 0 kq;
      king_reward = from_big_endian 0 kr;
      flags = from_big_endian 0 f;
    }
unfolding unpack
unpack_fields w u m p e q r kq kr f hw hu hm hp he hq hr hkq hkr =
    let t9 = kr ++ f in
    let t8 = kq ++ t9 in
    let t7 = r ++ t8 in
    let t6 = q ++ t7 in
    let t5 = e ++ t6 in
    let t4 = p ++ t5 in
    let t3 = m ++ t4 in
    let t2 = u ++ t3 in
    rw (
      drop_front 4 w t2 hw,
      drop_front 2 u t3 hu,
      drop_front 32 m t4 hm,
      drop_front 12 p t5 hp,
      drop_front 32 e t6 he,
      drop_front 2 q t7 hq,
      drop_front 2 r t8 hr,
      drop_front 2 kq t9 hkq,
      drop_front 2 kr f hkr,
      take_front 4 w t2 hw,
      take_front 2 u t3 hu,
      take_front 32 m t4 hm,
      take_front 12 p t5 hp,
      take_front 32 e t6 he,
      take_front 2 q t7 hq,
      take_front 2 r t8 hr,
      take_front 2 kq t9 hkq,
      take_front 2 kr f hkr,
    )
