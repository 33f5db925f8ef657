-- ===== src/Verifier/Rpc/Signed.antt =====
-- crates/tandem-verifier/src/rpc.rs and crates/tandem-core/src/types.rs: the keys that sign an input,
-- and the keys that the reducer reads from it.
use tandem_verifier_rs.Prelude.{
  ℕ, ◌≡◌, refl, sym, subst, List, [], ◌∷◌, Option, none, some, get_elem?, length, Bool, true, false,
  ◌&&◌, ◌==◌, same_iff, nat_eq, bytes_eq, bytes_ord, option_eq, ◌+◌, ◌≤◌, ◌∙◌, arith,
}
use tandem_verifier_rs.Prelude.Maybe.{◌>>=◌, require}
use tandem_verifier_rs.Prelude.Bytes.{slice, length-slice}
use tandem_verifier_rs.Types.Views.{InputView, p2wpkh_revealed_key, carrier_revealed_keys, to_key}
use tandem_verifier_rs.Verifier.Rpc.Crates.{TxIn, TxOut, Transaction, Bitcoin}
use tandem_verifier_rs.Verifier.Rpc.Signatures.{
  strict_signature, verify_p2wpkh, verify_p2wsh_2of2, is_template, verify_witness,
  verify_input_signature, holds,
}
use tandem_verifier_rs.Verifier.Rpc.Resolved.{ResolvedTransaction}
use tandem_verifier_rs.Verifier.Rpc.Spent.{Shows}

-- a chain of options that ends in a value went through a value
maybe-some :
    {A B : Type 0} (m : Option A) {f : A → Option B} {b : B}
    → (m >>= f) ≡ some b
    → (a : A) × (m ≡ some a) × (f a ≡ some b)
maybe-some none e = absurd (ground arith)
maybe-some (some a) e = (a, refl, e)

require-some : (t : Bool) {u : Unit {0}} → require t ≡ some u → t ≡ true
require-some true e = refl
require-some false e = absurd (ground arith)

holds-true : (o : Option Bool) → holds o ≡ true → o ≡ some true
holds-true none e = absurd (ground arith)
holds-true (some t) e = ground arith

and-true : (s t : Bool) → (s && t) ≡ true → (s ≡ true) × (t ≡ true)
and-true true t e = (refl, e)
and-true false t e = absurd (ground arith)

empty_of_length : (xs : List ℕ) → (length xs == 0) ≡ true → xs ≡ []
empty_of_length [] e = refl
empty_of_length (n ∷ xs) e = absurd (ground arith)

to_key-slice :
    (script : List ℕ) (start : ℕ)
    → length script ≡ 71
    → start + 33 ≤ 71
    → to_key (slice script start (start + 33))
      ≡ some (record { bytes = slice script start (start + 33) })
to_key-slice script start e h = ground (arith, length-slice script start (start + 33))

module _ ⦃b : Bitcoin⦄ (transaction : Transaction) (index : ℕ) (prevout : TxOut) where
  -- The signature and the key of a spend of a P2WPKH output.
  pub record ByKey (signature key : List ℕ) : Type 0 where
    pub is_p2wpkh : b.is_p2wpkh prevout.script_pubkey ≡ true
    pub strict : b.Signature
    pub public_key : b.PublicKey
    pub message : List ℕ
    pub signature_read : strict_signature signature ≡ some strict
    pub key_read : b.key_from_slice key ≡ some public_key
    pub sighash :
        b.p2wpkh_signature_hash transaction index prevout.script_pubkey prevout.value ≡ some message
    pub verified : b.verify_ecdsa message strict public_key ≡ true

  -- The signatures and the script of a spend of a carrier.
  pub record ByPair (signature0 signature1 script : List ℕ) : Type 0 where
    pub is_p2wsh : b.is_p2wsh prevout.script_pubkey ≡ true
    pub template : is_template script ≡ true
    pub strict0 : b.Signature
    pub strict1 : b.Signature
    pub key0 : b.PublicKey
    pub key1 : b.PublicKey
    pub message : List ℕ
    pub signatures_read :
        (strict_signature signature0 ≡ some strict0) × (strict_signature signature1 ≡ some strict1)
    pub keys_read :
        (b.key_from_slice (slice script 2 35) ≡ some key0)
        × (b.key_from_slice (slice script 36 69) ≡ some key1)
    pub sighash : b.p2wsh_signature_hash transaction index script prevout.value ≡ some message
    pub verified :
        (b.verify_ecdsa message strict0 key0 ≡ true) × (b.verify_ecdsa message strict1 key1 ≡ true)

  verify_p2wpkh-ByKey :
      (signature key : List ℕ)
      → b.is_p2wpkh prevout.script_pubkey ≡ true
      → verify_p2wpkh transaction index prevout signature key ≡ true
      → ByKey signature key
  unfolding verify_p2wpkh
  verify_p2wpkh-ByKey signature key kind e =
      let (s, q0, e0) = maybe-some _ (holds-true _ e) in
      let (k, q1, e1) = maybe-some _ e0 in
      let (m, q2, e2) = maybe-some _ e1 in
      record {
        is_p2wpkh = kind;
        strict = s;
        public_key = k;
        message = m;
        signature_read = q0;
        key_read = q1;
        sighash = q2;
        verified = ground arith;
      }

  verify_p2wsh_2of2-ByPair :
      (signature0 signature1 script : List ℕ)
      → b.is_p2wsh prevout.script_pubkey ≡ true
      → verify_p2wsh_2of2 transaction index prevout signature0 signature1 script ≡ true
      → ByPair signature0 signature1 script
  unfolding verify_p2wsh_2of2
  verify_p2wsh_2of2-ByPair signature0 signature1 script kind e =
      let (u, q, e0) = maybe-some _ (holds-true _ e) in
      let (s0, q0, e1) = maybe-some _ e0 in
      let (s1, q1, e2) = maybe-some _ e1 in
      let (k0, q2, e3) = maybe-some _ e2 in
      let (k1, q3, e4) = maybe-some _ e3 in
      let (m, q4, e5) = maybe-some _ e4 in
      record {
        is_p2wsh = kind;
        template = require-some _ q;
        strict0 = s0;
        strict1 = s1;
        key0 = k0;
        key1 = k1;
        message = m;
        signatures_read = (q0, q1);
        keys_read = (q2, q3);
        sighash = q4;
        verified = ground arith;
      }

  -- The view of an input that is signed, with the keys that the reducer reads from it.
  pub data Signed (view : InputView) : Type 0 where
    by_key :
        (signature key : List ℕ)
        → view.witness ≡ signature ∷ key ∷ []
        → p2wpkh_revealed_key view ≡ to_key key
        → ByKey signature key
        → Signed view
    by_pair :
        (signature0 signature1 script : List ℕ)
        → view.witness ≡ [] ∷ signature0 ∷ signature1 ∷ script ∷ []
        → carrier_revealed_keys view
          ≡ some (record { bytes = slice script 2 35 }, record { bytes = slice script 36 69 })
        → ByPair signature0 signature1 script
        → Signed view

  p2wpkh_revealed_key-witness :
      (view : InputView) (signature key : List ℕ)
      → view.script_sig ≡ []
      → view.witness ≡ signature ∷ key ∷ []
      → b.is_p2wpkh view.prevout_script ≡ true
      → p2wpkh_revealed_key view ≡ to_key key
  unfolding p2wpkh_revealed_key
  p2wpkh_revealed_key-witness view signature key e e' kind =
      rw
        (
          e,
          e',
          b.is_p2wpkh-length view.prevout_script kind,
          b.is_p2wpkh-prefix view.prevout_script kind,
          (same_iff ⦃o = bytes_ord⦄ (0x00 ∷ 0x14 ∷ []) (0x00 ∷ 0x14 ∷ [])).1 refl,
        )
        refl

  carrier_revealed_keys-witness :
      (view : InputView) (signature0 signature1 script : List ℕ)
      → view.script_sig ≡ []
      → view.witness ≡ [] ∷ signature0 ∷ signature1 ∷ script ∷ []
      → b.is_p2wsh view.prevout_script ≡ true
      → is_template script ≡ true
      → carrier_revealed_keys view
        ≡ some (record { bytes = slice script 2 35 }, record { bytes = slice script 36 69 })
  unfolding carrier_revealed_keys
  carrier_revealed_keys-witness view signature0 signature1 script e e' kind t =
      let (n, r0) = and-true (length script == 71) _ t in
      let (a, r1) = and-true (slice script 0 2 == 0x52 ∷ 0x21 ∷ []) _ r0 in
      let (m, z) = and-true (get_elem? script 35 == some 0x21) _ r1 in
      let long : length script ≡ 71 = ground arith in
      rw
        (
          e,
          e',
          b.is_p2wsh-length view.prevout_script kind,
          b.is_p2wsh-prefix view.prevout_script kind,
          (same_iff ⦃o = bytes_ord⦄ (0x00 ∷ 0x20 ∷ []) (0x00 ∷ 0x20 ∷ [])).1 refl,
          n,
          a,
          m,
          z,
          to_key-slice script 2 long (omega arith),
          to_key-slice script 36 long (omega arith),
        )
        refl

  verify_witness-Signed :
      (view : InputView) (witness : List (List ℕ))
      → view.script_sig ≡ []
      → view.witness ≡ witness
      → view.prevout_script ≡ prevout.script_pubkey
      → verify_witness transaction index prevout witness ≡ true
      → Signed view
  verify_witness-Signed view (signature ∷ key ∷ []) empty shown spent e =
      let (kind, e') = and-true (b.is_p2wpkh prevout.script_pubkey) _ e in
      by_key signature key shown
        (p2wpkh_revealed_key-witness view signature key empty shown
          (subst (λ s. b.is_p2wpkh s ≡ true) (sym spent) kind))
        (verify_p2wpkh-ByKey signature key kind e')
  verify_witness-Signed view ([] ∷ s0 ∷ s1 ∷ script ∷ []) empty shown spent e =
      let (kind, e') = and-true (b.is_p2wsh prevout.script_pubkey) _ e in
      let signed = verify_p2wsh_2of2-ByPair s0 s1 script kind e' in
      by_pair s0 s1 script shown
        (carrier_revealed_keys-witness view s0 s1 script empty shown
          (subst (λ s. b.is_p2wsh s ≡ true) (sym spent) kind) signed.template)
        signed
  verify_witness-Signed view _ empty shown spent e = absurd (ground arith)

  verify_input_signature-witness :
      (input : TxIn)
      → get_elem? transaction.input index ≡ some input
      → verify_input_signature transaction index prevout ≡ true
      → (input.script_sig ≡ []) × (verify_witness transaction index prevout input.witness ≡ true)
  unfolding verify_input_signature
  verify_input_signature-witness input e v =
      let (found, q, r) = maybe-some (get_elem? transaction.input index) (holds-true _ v) in
      let (u, q', r') = maybe-some (require (length found.script_sig == 0)) r in
      let same : found ≡ input = ground arith in
      let empty = require-some (length found.script_sig == 0) q' in
      (
        subst (λ (i : TxIn). i.script_sig ≡ []) same (empty_of_length found.script_sig empty),
        subst (λ (i : TxIn). verify_witness transaction index prevout i.witness ≡ true) same
            (ground arith),
      )

  -- An input that is shown with valid signatures has a witness whose signatures verify under the
  -- keys of the same witness. Of a spend by one key the reducer reads this key where it has 33 bytes,
  -- and no key otherwise; of a spend by a pair it reads both keys.
  pub verify_input_signature-Signed :
      (input : TxIn) (parent : ResolvedTransaction) (view : InputView)
      → get_elem? transaction.input index ≡ some input
      → Shows transaction index input parent prevout view
      → view.signatures_valid ≡ true
      → Signed view
  verify_input_signature-Signed input parent view at_index shown valid =
      let v = sym shown.signatures ∙ valid in
      let (empty, signed) = verify_input_signature-witness input at_index v in
      verify_witness-Signed view input.witness (shown.unlocking.0 ∙ empty) shown.unlocking.1
        shown.prevout_script signed
