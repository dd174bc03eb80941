-- ===== src/Threshold/Bootstrap.antt =====
-- From the outputs of a key generation to key shares: golden-dkg/src/threshold/dkg.rs.
pub mod Ceremony
pub mod Signatures
use golden_rs.Common.{ℕ, ◌%◌, u32_mod, List, [], ◌∷◌, Option, none, some, length, map}
use golden_rs.Dkg.Types.{DkgOutput}
use golden_rs.Threshold.Types.{GroupInfo, KeyShare}

module _ {F G1 : Type 0} where
  abbrev pub key_share : GroupInfo G1 → ℕ × DkgOutput F G1 → KeyShare F G1
  key_share group_info (id, out) = record {
    id = id;
    secret = out.secret_share;
    group_info = group_info;
  }

  -- An empty list of outputs panics.
  unfoldable pub bootstrap :
      List (ℕ × DkgOutput F G1) → ℕ → Option (List (KeyShare F G1) × GroupInfo G1)
  bootstrap [] t = none
  bootstrap ((id, out) ∷ rest) t =
      let group_info : GroupInfo G1 = record {
        public_key = out.public_key;
        threshold = t;
        num_nodes = length ((id, out) ∷ rest) % u32_mod;
      } in
      some (map (key_share group_info) ((id, out) ∷ rest), group_info)
