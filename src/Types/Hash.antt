-- ===== src/Types/Hash.antt =====
-- crates/tandem-core/src/types.rs: the fixed-width byte types `Hash32`, `OutPointRef`, `Key33`,
-- their equality and their derived order.
use tandem_verifier_rs.Prelude.{
  ℕ, ◌<◌, ◌≡◌, ap, List, ◌++◌, Bool, arith, length, replicate, Ordering, Eq, Ord, IsExact, lex,
  bytes_ord, nat_ord, lex-IsExact, ord_eq, length-append, ◌==◌, ◌^◌,
}
use tandem_verifier_rs.Prelude.Bytes.{le_bytes, length-le_bytes}

-- `Hash32(pub [u8; 32])`
pub record Hash32 : Type 0 where
  pub bytes : List ℕ

-- `Key33(pub [u8; 33])`
pub record Key33 : Type 0 where
  pub bytes : List ℕ

-- `OutPointRef { txid, vout }`
pub record OutPointRef : Type 0 where
  pub txid : Hash32
  pub vout : ℕ

-- The fixed widths, which the Rust types carry.
abbrev pub IsHash : Hash32 → Type 0
IsHash h = length h.bytes ≡ 32

abbrev pub IsKey : Key33 → Type 0
IsKey k = length k.bytes ≡ 33

abbrev pub IsOutPoint : OutPointRef → Type 0
IsOutPoint p = IsHash p.txid × (p.vout < 2 ^ 32)

-- `Hash32::ZERO`, `Key33::ZERO`, `OutPointRef::ZERO`
abbrev pub zero_hash : Hash32
zero_hash = record { bytes = replicate 32 0 }

abbrev pub zero_key : Key33
zero_key = record { bytes = replicate 33 0 }

abbrev pub zero_outpoint : OutPointRef
zero_outpoint = record { txid = zero_hash; vout = 0 }

-- The derived `Ord` compares the bytes, and an outpoint by `txid` and then `vout`.
abbrev cmp_hash : Hash32 → Hash32 → Ordering
cmp_hash a b = bytes_ord.cmp a.bytes b.bytes

hash-IsExact : IsExact cmp_hash
hash-IsExact = record {
  cmp_refl = λ a. bytes_ord.cmp_refl a.bytes;
  eq_of_cmp = λ a b h. λ i. record { bytes = bytes_ord.eq_of_cmp a.bytes b.bytes h i };
}

instance unfoldable pub hash_ord : Ord Hash32
unfolding bytes_ord hash-IsExact
hash_ord = record { cmp = cmp_hash; exact = hash-IsExact }

abbrev cmp_key : Key33 → Key33 → Ordering
cmp_key a b = bytes_ord.cmp a.bytes b.bytes

key-IsExact : IsExact cmp_key
key-IsExact = record {
  cmp_refl = λ a. bytes_ord.cmp_refl a.bytes;
  eq_of_cmp = λ a b h. λ i. record { bytes = bytes_ord.eq_of_cmp a.bytes b.bytes h i };
}

instance unfoldable pub key_ord : Ord Key33
unfolding bytes_ord key-IsExact
key_ord = record { cmp = cmp_key; exact = key-IsExact }

abbrev fields : OutPointRef → Hash32 × ℕ
fields p = (p.txid, p.vout)

abbrev cmp_outpoint : OutPointRef → OutPointRef → Ordering
cmp_outpoint a b = lex (fields a) (fields b)

outpoint-IsExact : IsExact cmp_outpoint
outpoint-IsExact =
    let l = lex-IsExact {A = Hash32} {B = ℕ} in
    record {
      cmp_refl = λ a. l.cmp_refl (fields a);
      eq_of_cmp = λ a b h.
          ap (λ (t : Hash32 × ℕ). let r : OutPointRef = record { txid = t.0; vout = t.1 } in r)
            (l.eq_of_cmp (fields a) (fields b) h);
    }

instance unfoldable pub outpoint_ord : Ord OutPointRef
unfolding hash_ord outpoint-IsExact
outpoint_ord = record { cmp = cmp_outpoint; exact = outpoint-IsExact }

instance abbrev pub hash_eq : Eq Hash32
hash_eq = ord_eq hash_ord

instance abbrev pub key_eq : Eq Key33
key_eq = ord_eq key_ord

instance abbrev pub outpoint_eq : Eq OutPointRef
outpoint_eq = ord_eq outpoint_ord

-- `Hash32::is_zero`
unfoldable pub is_zero : Hash32 → Bool
is_zero h = h == zero_hash

-- `OutPointRef::wire_bytes`: the 32 bytes of `txid`, and `vout` in four bytes.
unfoldable pub wire_bytes : OutPointRef → List ℕ
wire_bytes p = p.txid.bytes ++ le_bytes 4 p.vout

pub length-wire_bytes : (p : OutPointRef) → IsOutPoint p → length (wire_bytes p) ≡ 36
unfolding wire_bytes
length-wire_bytes p h =
    omega (arith, length-append p.txid.bytes (le_bytes 4 p.vout), length-le_bytes 4 p.vout)
