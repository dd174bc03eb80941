-- ===== src/Lib.antt =====
-- Verification library of golden-rs: the distributed key generation and its consensus replica.
--
-- The program. golden-dkg deals Shamir sharings among participants, publishes Feldman commitments
-- to them, encrypts the shares under pads that two parties derive from a Diffie-Hellman secret, and
-- adds up what each participant decrypts to a share of a common secret key. The shares sign with
-- BLS signatures, and a Simplex consensus replica votes with such partial signatures: the combined
-- signature of a notarization or nullification seeds the election of the next leader.
--
-- The files.
--   Common and below   Boolean tests, lists, maps, option chains and byte strings. A HashMap is an
--                      association list with one entry for a key, visited in its order.
--   Algebra            arkworks and SHA-256 as interfaces: Field (ark_ff::Field), Curve (a group
--                      with its generator), Pairing, Hashing, Encoding and Rng, with the laws that
--                      their documentation states, and PairingGroup for the sum of two pairings.
--                      Algebra/Group has lemmas that follow, Algebra/Polynomials the values of
--                      polynomials, and Roots that one with too many roots vanishes.
--   Shamir             golden-dkg/src/shamir.rs: new_random, evaluate, generate_shares and
--                      lagrange_interpolate_at_zero.
--   Vss                golden-dkg/src/vss.rs: commit, verify_share, expected_share_commitment.
--   Schnorr            golden-dkg/src/schnorr_pok.rs: prove, verify, compute_challenge.
--   Evrf               golden-dkg/src/evrf.rs: derive_pad. hash_to_curve is a parameter.
--   Circuit            golden-dkg/src/zk_evrf: nonnative.rs in ConstraintSystem, bit_decompose.rs in
--                      BitDecompose, circuit.rs in Evrf (generate_constraints of EVRFCircuit and
--                      BatchEVRFCircuit, over the gadgets of arkworks, a parameter in Gadgets) with
--                      capture_circuit of adapter.rs, the rest of adapter.rs in Adapter, and
--                      prove_evrf, prove_evrf_batch, verify_evrf and verify_evrf_batch of mod.rs in
--                      Prover, with ark-spartan as a parameter.
--   Dkg                golden-dkg/src/protocol.rs in Round0, Round1 and Refresh (round0,
--                      round0_refresh, round1, round1_refresh), golden-dkg/src/dkg.rs in Api,
--                      golden-dkg/src/refresh.rs in Refresh, reshare_protocol.rs and reshare.rs in
--                      Reshare, the messages and errors of golden-dkg/src/types.rs and
--                      golden-dkg/src/error.rs in Types. The rounds, which drop the answers of the
--                      verification, take golden-dkg/src/zk_evrf as an interface (ZkEvrf), which
--                      the definitions of Circuit/Prover do not fill yet.
--   Threshold          golden-dkg/src/threshold: partial_sign, verify_partial, combine_one,
--                      combine_dynamic, lagrange_coeff and verify of signing.rs in Signing, the
--                      beacons of beacon.rs in Beacon, cache.rs and the combine of signing.rs in
--                      Cache, the encryption to identities and encrypted keys of ibe.rs in Ibe,
--                      bootstrap and run_dkg of dkg.rs in Bootstrap.
--   Consensus          golden-dkg/src/consensus: types.rs in Types, vrf.rs in Vrf, replica.rs in
--                      Replica, whose child State has the record and advance_view, Thresholds
--                      try_notarize, try_nullify and try_finalize, and Handlers the handlers and
--                      apply_message. Safety has the theorems on one replica.
--   Examples           the field with five elements as an instance of the interfaces, runs of the
--                      code on it, and the theorems applied to these runs.
--
-- State and errors. A method with `&mut self` takes the replica and returns the new one; `none` is
-- a panic (an index out of range, a missing key, an inverse of zero). A round of the key generation
-- or of the resharing returns an Outcome: a value, an error, or a panic. `run` is a caller that
-- delivers messages one after the other. A random generator is passed along as a state.
--
-- Numbers. Node ids, views and counters are natural numbers; `+= 1` on a u64 and `t - 1` on a u32
-- wrap around as in a release build. The theorems over runs assume fewer than 2^64 - 1 messages
-- where a wrapped view would matter. The loops are recursions on the lists or ranges that they
-- visit; only the mask loop of hash_h4 has fuel, a round for each byte wanted, of which every round
-- adds at least one.
--
-- Not modelled: the gadgets of golden-dkg/src/zk_evrf/exponentiation.rs, the borsh encodings, and the
-- demonstrations, simulations and servers around the library (simplex-consensus, golden-demo, safetee-demo, threshold_crypto).
pub mod Common
pub mod Algebra
pub mod Shamir
pub mod Vss
pub mod Schnorr
pub mod Evrf
pub mod Circuit
pub mod Dkg
pub mod Threshold
pub mod Consensus
mod Examples
