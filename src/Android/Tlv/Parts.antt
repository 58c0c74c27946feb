-- ===== src/Android/Tlv/Parts.antt =====
-- What the readers of a tag number and of a length have read, by the form of a header.
use attestation.Common.{
  ℕ, zero, suc, ◌+◌, ◌*◌, ◌%◌, ◌^◌, ◌≤◌, ◌<◌, bit_and, ◌≡◌, refl, ap, some, [], ◌∷◌, ◌++◌, arith,
  ◌==◌, ltb, Bool-cases, inl, inr, length, All, Bytes, IsByte, be_from, mask_7f, mask_80, mask_1f,
}
use attestation.Android.Tlv.{tag_loop, len_loop, parse_tag, parse_len}
use attestation.Android.Tlv.Read.{
  push_group_wraps, push_octet_fits, base128-mod, room, room-le, room_pos,
}
use attestation.Android.Tlv.Forms.{
  TagForm, low, high, LenForm, short, long, base128, tag_value, len_value, low5_of, marked,
  tag_octets, len_octets, IsGroup, IsTag, IsLen,
}

-- The bytes `bs` begin with the groups of a long tag number, and `n'` is what the loop makes of it.
record Groups (bs : Bytes) (n n' cur cur' : ℕ) (rest : Bytes) : Type 0 where
  groups : Bytes
  last : ℕ
  are_groups : All IsGroup groups
  last_lt : last < 128
  splits : bs ≡ marked groups last ++ rest
  rest_bytes : All IsByte rest
  moved : cur' ≡ cur + length (marked groups last)
  value : n' ≡ (base128 n groups * 128 + last) % 2 ^ 32

tag_loop-Groups :
    (bs : Bytes) (n cur n' cur' : ℕ) (rest : Bytes)
    → All IsByte bs
    → tag_loop bs n cur ≡ some (n', cur', rest)
    → Groups bs n n' cur cur' rest
unfolding tag_loop
tag_loop-Groups [] n cur n' cur' rest h e = cc
tag_loop-Groups (b ∷ bs) n cur n' cur' rest (hb, h) e = elim (Bool-cases (bit_and b 0x80 == 0)) [
  | inl stop ↦ record {
    groups = [];
    last = b;
    are_groups = tt;
    last_lt = ground (arith, mask_80 b);
    splits = ground (arith, push_group_wraps n b);
    rest_bytes = let r : bs ≡ rest = ground (arith, push_group_wraps n b) in rw (← r) h;
    moved = ground (arith, push_group_wraps n b);
    value = ground (arith, push_group_wraps n b, mask_80 b);
  }
  | inr more ↦
      let e' : tag_loop bs ((n * 128 + b % 128) % 2 ^ 32) (cur + 1) ≡ some (n', cur', rest) =
        ground (arith, push_group_wraps n b) in
      let g = tag_loop-Groups bs ((n * 128 + b % 128) % 2 ^ 32) (cur + 1) n' cur' rest h e' in
      record {
        groups = (b % 128) ∷ g.groups;
        last = g.last;
        are_groups = (omega arith, g.are_groups);
        last_lt = g.last_lt;
        splits = ground (arith, mask_80 b, g.splits);
        rest_bytes = g.rest_bytes;
        moved = omega (arith, g.moved);
        value = omega (
          arith,
          g.value,
          base128-mod g.groups ((n * 128 + b % 128) % 2 ^ 32) (n * 128 + b % 128) (omega arith),
        );
      }
]

-- The bytes `bs` begin with `k` octets, and `v'` is the number that they go on from `v`.
record Octets (k : ℕ) (bs : Bytes) (v v' cur cur' : ℕ) (rest : Bytes) : Type 0 where
  os : Bytes
  are_bytes : All IsByte os
  length_is : length os ≡ k
  splits : bs ≡ os ++ rest
  moved : cur' ≡ cur + length os
  value : v' ≡ be_from v os

len_loop-Octets :
    (k : ℕ) (bs : Bytes) (v cur v' cur' : ℕ) (rest : Bytes)
    → All IsByte bs
    → v < room k
    → len_loop k bs v cur ≡ some (v', cur', rest)
    → Octets k bs v v' cur cur' rest
unfolding len_loop
len_loop-Octets zero bs v cur v' cur' rest h fits e = record {
  os = [];
  are_bytes = tt;
  length_is = refl;
  splits = ground arith;
  moved = ground arith;
  value = ground arith;
}
len_loop-Octets (suc k) [] v cur v' cur' rest h fits e = cc
len_loop-Octets (suc k) (b ∷ bs) v cur v' cur' rest (hb, h) fits e =
    let e' : len_loop k bs (v * 256 + b) (cur + 1) ≡ some (v', cur', rest) =
      ground (arith, push_octet_fits v b hb, room-le k) in
    let g = len_loop-Octets k bs (v * 256 + b) (cur + 1) v' cur' rest h (omega arith) e' in
    record {
      os = b ∷ g.os;
      are_bytes = (hb, g.are_bytes);
      length_is = ap suc g.length_is;
      splits = ap (◌∷◌ b) g.splits;
      moved = omega (arith, g.moved);
      value = g.value;
    }

-- The part of `bs` that `parse_tag` has read.
pub record TagRead (first : ℕ) (bs : Bytes) (tag cur : ℕ) (rest : Bytes) : Type 0 where
  pub form : TagForm
  pub is_tag : IsTag form
  pub low5 : first % 32 ≡ low5_of form
  pub splits : bs ≡ tag_octets form ++ rest
  pub moved : cur ≡ 1 + length (tag_octets form)
  pub value : tag ≡ tag_value form % 2 ^ 32
  pub rest_bytes : All IsByte rest

pub parse_tag-TagRead :
    (first : ℕ) (bs : Bytes) (tag cur : ℕ) (rest : Bytes)
    → IsByte first
    → All IsByte bs
    → parse_tag first bs ≡ some (tag, cur, rest)
    → TagRead first bs tag cur rest
unfolding parse_tag
parse_tag-TagRead first bs tag cur rest hf h e = elim (Bool-cases (ltb (bit_and first 0x1f) 0x1f)) [
  | inl short_tag ↦ record {
    form = low (first % 32);
    is_tag = ground (arith, mask_1f first);
    low5 = refl;
    splits = ground arith;
    moved = ground arith;
    value = ground (arith, mask_1f first);
    rest_bytes = let r : bs ≡ rest = ground arith in rw (← r) h;
  }
  | inr long_tag ↦
      let g = tag_loop-Groups bs 0 1 tag cur rest h (ground arith) in
      record {
        form = high g.groups g.last;
        is_tag = (g.are_groups, g.last_lt);
        low5 = ground (arith, mask_1f first);
        splits = g.splits;
        moved = g.moved;
        value = g.value;
        rest_bytes = g.rest_bytes;
      }
]

pub record LenRead (bs : Bytes) (cur len end : ℕ) (rest : Bytes) : Type 0 where
  pub form : LenForm
  pub is_len : IsLen form
  pub splits : bs ≡ len_octets form ++ rest
  pub moved : end ≡ cur + length (len_octets form)
  pub value : len ≡ len_value form

pub parse_len-LenRead :
    (bs : Bytes) (cur len end : ℕ) (rest : Bytes)
    → All IsByte bs
    → parse_len bs cur ≡ some (len, end, rest)
    → LenRead bs cur len end rest
unfolding parse_len
parse_len-LenRead [] cur len end rest h e = cc
parse_len-LenRead (l ∷ bs) cur len end rest (hl, h) e = elim (Bool-cases (bit_and l 0x80 == 0)) [
  | inl short_len ↦ record {
    form = short l;
    is_len = ground (arith, mask_80 l);
    splits = ground arith;
    moved = ground arith;
    value = ground arith;
  }
  | inr long_len ↦
      let small : (1 ≤ bit_and l 0x7f) × (bit_and l 0x7f ≤ 4) = ground arith in
      let g =
        len_loop-Octets (bit_and l 0x7f) bs 0 (cur + 1) len end rest h
          (room_pos (bit_and l 0x7f) small.1) (ground arith) in
      record {
        form = long g.os;
        is_len = (g.are_bytes, omega (arith, g.length_is), omega (arith, g.length_is));
        splits = ground (arith, mask_80 l, mask_7f l, g.length_is, g.splits);
        moved = omega (arith, g.moved);
        value = g.value;
      }
]
