-- ===== src/Types/State/Equality.antt =====
-- crates/tandem-core/src/types.rs: the derived equality of the chain state and of the roots.
use native.Mathlib.Decide.{ℕ_discrete}
use tandem_verifier_rs.Prelude.{◌≡◌, ◌↔◌, Bool, true, false, Eq, refl}
use tandem_verifier_rs.Map.{TreeMap}
use tandem_verifier_rs.Types.Hash.{Hash32, Key33, OutPointRef}
use tandem_verifier_rs.Types.Codes.{Network}
use tandem_verifier_rs.Types.Keys.{KeyPair}
use tandem_verifier_rs.Types.Binding.{Binding}
use tandem_verifier_rs.Types.State.{ObjectState, ProtocolStatus, ChainState, HeightRoots, Counters}

unfoldable pub hash_discrete : Discrete Hash32
hash_discrete = hlevel (ℕ_discrete)

unfoldable pub key_discrete : Discrete Key33
key_discrete = hlevel (ℕ_discrete)

unfoldable pub outpoint_discrete : Discrete OutPointRef
outpoint_discrete = hlevel (ℕ_discrete, hash_discrete)

unfoldable pub pair_discrete : Discrete KeyPair
pair_discrete = hlevel (key_discrete)

unfoldable pub network_discrete : Discrete Network
network_discrete = hlevel

unfoldable pub binding_discrete : Discrete Binding
binding_discrete = hlevel (network_discrete, hash_discrete)

unfoldable pub object_discrete : Discrete ObjectState
object_discrete = hlevel (ℕ_discrete, hash_discrete, outpoint_discrete, pair_discrete)

unfoldable pub status_discrete : Discrete ProtocolStatus
status_discrete = hlevel (ℕ_discrete)

unfoldable pub map_discrete : {K V : Type 0} → Discrete K → Discrete V → Discrete (TreeMap K V)
map_discrete k v = hlevel (k, v)

unfoldable pub state_discrete : Discrete ChainState
state_discrete = hlevel (
  ℕ_discrete,
  hash_discrete,
  binding_discrete,
  status_discrete,
  map_discrete hash_discrete object_discrete,
  map_discrete outpoint_discrete hash_discrete,
)

unfoldable pub counters_discrete : Discrete Counters
counters_discrete = hlevel (ℕ_discrete)

unfoldable pub heights_discrete : Discrete HeightRoots
heights_discrete = hlevel (ℕ_discrete, hash_discrete, counters_discrete)

-- The test of a decidable equality.
abbrev pub eq_of_discrete : {A : Type 0} → Discrete A → A → A → Bool
eq_of_discrete d a b = elim (d a b) [ yes p ↦ true | no p ↦ false ]

pub eq_of_discrete_iff :
    {A : Type 0} (d : Discrete A) (a b : A) → (eq_of_discrete d a b ≡ true) ↔ (a ≡ b)
eq_of_discrete_iff d a b =
    elim (d a b) as (λ r. ((elim r [ yes p ↦ true | no p ↦ false ]) ≡ true) ↔ (a ≡ b)) [
      | yes p ↦ (λ e. p, λ e. refl)
      | no p ↦ (λ e. cc, λ e. absurd (p e))
    ]

instance unfoldable pub binding_eq : Eq Binding
binding_eq = record {
  beq = eq_of_discrete binding_discrete;
  beq_iff = eq_of_discrete_iff binding_discrete;
}

instance unfoldable pub state_eq : Eq ChainState
state_eq = record {
  beq = eq_of_discrete state_discrete;
  beq_iff = eq_of_discrete_iff state_discrete;
}

instance unfoldable pub heights_eq : Eq HeightRoots
heights_eq = record {
  beq = eq_of_discrete heights_discrete;
  beq_iff = eq_of_discrete_iff heights_discrete;
}
