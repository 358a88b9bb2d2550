-- ===== src/Document.antt =====
-- Positions in documents (integrations/source_geometry.py, pyinc_tools/_document.py).
mod Tests
pub mod Lines
pub mod Chains
pub mod Offsets
pub mod Encoding
pub mod Convert
pub mod Slices
