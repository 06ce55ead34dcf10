-- ===== src/RawNode/NodeInfo.antt =====
-- `parse_node_info_frame` of h9d/raw_node.cc.
use h9d.Prelude.{
  ℕ, ◌<◌, ◌≡◌, refl, arith, [], ◌∷◌, get_or, bit_or, bit_or_fields, u16, ◌<<<◌, ◌/◌, ◌%◌,
}
use h9d.Frame.{H9Frame}

pub record NodeInfo : Type 0 where
  pub node_type : ℕ
  pub version_major : ℕ
  pub version_minor : ℕ
  pub hardware_revision : ℕ
  pub reset_reason : ℕ

-- `data()[i] << 8 | data()[i + 1]`, as 16 bits.
unfoldable pub two_bytes : ℕ → ℕ → ℕ
two_bytes a b = u16 (bit_or (a <<< 8) b)

unfoldable pub parse_node_info_frame : H9Frame → NodeInfo
parse_node_info_frame f =
    let at = λ (i : ℕ). get_or f.data_bytes i 0 in
    record {
      node_type = two_bytes (at 0) (at 1);
      version_major = two_bytes (at 2) (at 3);
      version_minor = two_bytes (at 4) (at 5);
      hardware_revision = at 6;
      reset_reason = at 7;
    }

two_bytes_lem : (v : ℕ) → v < 65536 → two_bytes (v / 256 % 256) (v % 256) ≡ v
unfolding two_bytes
two_bytes_lem v small = rw (bit_or_fields 8 (v / 256 % 256) (v % 256) (omega arith)) (omega arith)

-- A NODE_INFO frame that carries type, versions, revision and reset reason in network order is read
-- back as they were.
pub parse_node_info_frame-network :
    (f : H9Frame) (i : NodeInfo)
    → i.node_type < 65536
    → i.version_major < 65536
    → i.version_minor < 65536
    → f.data_bytes
      ≡ i.node_type / 256 % 256
        ∷ i.node_type % 256
        ∷ i.version_major / 256 % 256
        ∷ i.version_major % 256
        ∷ i.version_minor / 256 % 256
        ∷ i.version_minor % 256
        ∷ i.hardware_revision
        ∷ i.reset_reason
        ∷ []
    → parse_node_info_frame f ≡ i
unfolding parse_node_info_frame
parse_node_info_frame-network f i p q r e =
    rw
      (
        e,
        two_bytes_lem i.node_type p,
        two_bytes_lem i.version_major q,
        two_bytes_lem i.version_minor r,
      )
      refl
