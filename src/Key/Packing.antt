-- ===== src/Key/Packing.antt =====
-- The parts of a key (src/cfg.rs, src/lib.rs), put together and taken apart.
use sharded_slab.Base.{ℕ, ◌+◌, ◌-◌, ◌^◌, ◌<◌, ◌≡◌, sym, ap, ◌∙◌, arith}
use sharded_slab.Word.Fields.{two_pow-pos}
use sharded_slab.Pack.Three.{
  join, InRange, join-lt, join-InRange, from_packed-first, from_packed-second, from_packed-third,
  pack-second, pack-third,
}
use sharded_slab.Pack.{pack, from_packed}
use sharded_slab.Config.{Config, addr_field, tid_field, gen_field}
use sharded_slab.Config.Valid.{
  IsConfig, gen_len, key_Fits, tid_shift, addr_field_lem, tid_field_lem, gen_field_lem,
}
use sharded_slab.Key.{unpack_addr, unpack_tid, unpack_gen, insert_key, vacant_key}

-- An address, a thread and a generation that fit their fields.
pub record KeyParts (c : Config) (addr tid gen : ℕ) : Type 0 where
  pub addr_fits : addr < 2 ^ (addr_field c).len
  pub tid_fits : tid < 2 ^ (tid_field c).len
  pub gen_fits : gen < 2 ^ (gen_field c).len

module _ {c : Config} (v : IsConfig c) {addr tid gen : ℕ} (k : KeyParts c addr tid gen) where
  abbrev joined : ℕ → ℕ → ℕ → ℕ
  joined x y z = join (addr_field c).len (tid_field c).len (gen_field c).len x y z 0

  zero_rest : addr ≡ joined addr 0 0
  zero_rest = omega arith

  no_tid : 0 < 2 ^ (tid_field c).len
  no_tid = two_pow-pos (tid_field c).len

  no_gen : 0 < 2 ^ (gen_field c).len
  no_gen = two_pow-pos (gen_field c).len

  all : InRange c.width (addr_field c).len (tid_field c).len (gen_field c).len addr tid gen 0
  all = join-InRange (key_Fits v) k.addr_fits k.tid_fits k.gen_fits

  in_range :
      {x y z : ℕ}
      → x < 2 ^ (addr_field c).len
      → y < 2 ^ (tid_field c).len
      → z < 2 ^ (gen_field c).len
      → InRange c.width (addr_field c).len (tid_field c).len (gen_field c).len x y z 0
  in_range p q r = join-InRange (key_Fits v) p q r

  set_tid :
      {x y z : ℕ} (u : ℕ)
      → x < 2 ^ (addr_field c).len
      → y < 2 ^ (tid_field c).len
      → z < 2 ^ (gen_field c).len
      → u < 2 ^ (tid_field c).len
      → pack c.width (tid_field c) u (joined x y z) ≡ joined x u z
  set_tid {x} {y} {z} u p q r h =
      ap (λ f. pack c.width f u (joined x y z)) (tid_field_lem c)
      ∙ pack-second (key_Fits v) (in_range p q r) u h

  set_gen :
      {x y z : ℕ} (u : ℕ)
      → x < 2 ^ (addr_field c).len
      → y < 2 ^ (tid_field c).len
      → z < 2 ^ (gen_field c).len
      → u < 2 ^ (gen_field c).len
      → pack c.width (gen_field c) u (joined x y z) ≡ joined x y u
  set_gen {x} {y} {z} u p q r h =
      ap (λ f. pack c.width f u (joined x y z)) (gen_field_lem c)
      ∙ pack-third (key_Fits v) (in_range p q r) u h

  insert_key-joined : insert_key c tid gen addr ≡ joined addr tid gen
  unfolding insert_key
  insert_key-joined =
      ap (λ t. pack c.width (tid_field c) tid (pack c.width (gen_field c) gen t)) zero_rest
      ∙ ap (pack c.width (tid_field c) tid) (set_gen gen k.addr_fits no_tid no_gen k.gen_fits)
      ∙ set_tid tid k.addr_fits no_tid k.gen_fits k.tid_fits

  vacant_key-joined : vacant_key c tid gen addr ≡ joined addr tid gen
  unfolding vacant_key
  vacant_key-joined =
      ap (λ t. pack c.width (gen_field c) gen (pack c.width (tid_field c) tid t)) zero_rest
      ∙ ap (pack c.width (gen_field c) gen) (set_tid tid k.addr_fits no_tid no_gen k.tid_fits)
      ∙ set_gen gen k.addr_fits k.tid_fits no_gen k.gen_fits

  -- The two orders of packing make the same key, and nothing but it is unpacked from it.
  pub key-roundtrip :
      (vacant_key c tid gen addr ≡ insert_key c tid gen addr)
      × (unpack_addr c (insert_key c tid gen addr) ≡ addr)
      × (unpack_tid c (insert_key c tid gen addr) ≡ tid)
      × (unpack_gen c (insert_key c tid gen addr) ≡ gen)
  unfolding unpack_addr unpack_tid unpack_gen
  key-roundtrip = (
    vacant_key-joined ∙ sym insert_key-joined,
    ap (from_packed c.width (addr_field c)) insert_key-joined
        ∙ ap (λ f. from_packed c.width f (joined addr tid gen)) (addr_field_lem c)
        ∙ from_packed-first (key_Fits v) all,
    ap (from_packed c.width (tid_field c)) insert_key-joined
        ∙ ap (λ f. from_packed c.width f (joined addr tid gen)) (tid_field_lem c)
        ∙ from_packed-second (key_Fits v) all,
    ap (from_packed c.width (gen_field c)) insert_key-joined
        ∙ ap (λ f. from_packed c.width f (joined addr tid gen)) (gen_field_lem c)
        ∙ from_packed-third (key_Fits v) all,
  )

  -- The reserved bits of a key are clear.
  pub key-reserved : insert_key c tid gen addr < 2 ^ (c.width - c.reserved_bits)
  key-reserved =
      let e : (addr_field c).len + (tid_field c).len + (gen_field c).len
          ≡ c.width - c.reserved_bits =
        omega (arith, gen_len c, tid_shift c, v.gen_room) in
      omega (
        arith,
        insert_key-joined,
        join-lt (key_Fits v) k.addr_fits k.tid_fits k.gen_fits,
        ap (λ (t : ℕ). 2 ^ t) e,
      )
