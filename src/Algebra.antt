-- ===== src/Algebra.antt =====
-- What the program takes from its libraries, as interfaces, and the lemmas that follow from them.
mod Interfaces
pub mod Group
pub mod Polynomials
pub use Interfaces.{Field, Curve, Pairing, Hashing, Rng, Encoding, PairingGroup}
