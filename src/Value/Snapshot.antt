-- ===== src/Value/Snapshot.antt =====
-- value.py: the values that `freeze` produces. `int` is unbounded; texts and floats belong to Python
-- and come with their own encodings, as `Scalars`.
use pyinc.Prelude.{ℕ, ◌≡◌, Bool, Option, some, List}

abbrev pub Bytes : Type 0
Bytes = List ℕ

-- `negsuc n` is -(n + 1).
pub data ℤ : Type 0 where
  pos : ℕ → ℤ
  negsuc : ℕ → ℤ

-- `str.encode("utf-8")`, `bytes.decode("utf-8")`, `float.hex` and `float.fromhex`. A text decodes from
-- its encoding, and a float is read back from its hexadecimal form.
pub record Scalars : Type 1 where
  pub Text : Type 0
  pub Float : Type 0
  pub encode_utf8 : Text → Bytes
  pub decode_utf8 : Bytes → Option Text
  pub hex : Float → Bytes
  pub fromhex : Bytes → Option Float
  pub decode-encode : (t : Text) → decode_utf8 (encode_utf8 t) ≡ some t
  pub fromhex-hex : (f : Float) → fromhex (hex f) ≡ some f

module _ (c : Scalars) where
  mutual
    pub data Snapshot : Type 0 where
      none_value : Snapshot
      bool : Bool → Snapshot
      int : ℤ → Snapshot
      float : c.Float → Snapshot
      complex : c.Float → c.Float → Snapshot
      str : c.Text → Snapshot
      bytes : Bytes → Snapshot
      frozen_list : Items → Snapshot
      frozen_dict : Entries → Snapshot
      frozen_set : c.Text → Items → Snapshot
      frozen_record : c.Text → Fields → Snapshot
      frozen_adapter_value : c.Text → Snapshot → Snapshot
      frozen_ref : ℤ → Snapshot
      frozen_graph : Items → Snapshot → Snapshot
      tuple : Items → Snapshot

    pub data Items : Type 0 where
      no_items : Items
      item : Snapshot → Items → Items

    pub data Entries : Type 0 where
      no_entries : Entries
      entry : Snapshot → Snapshot → Entries → Entries

    pub data Fields : Type 0 where
      no_fields : Fields
      field : c.Text → Snapshot → Fields → Fields
