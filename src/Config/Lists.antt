-- ===== src/Config/Lists.antt =====
-- The lists of nodes in a flag or a variable (internal/p2p/config.go).
use simple_block_chain.Config.{flag_list, parse_flags, Flags, Config, flag}
use simple_block_chain.Common.{
  [], ◌∷◌, refl, Bytes, List, eq_bytes, join, ◌≡◌, join-split, AllLack, AllLack-split,
}

-- A list that was read from `text`: its items, joined by commas, are the text, and none has a comma.
pub record IsListOf (text : Bytes) (items : List Bytes) : Type 0 where
  pub joined : join b',' items ≡ text
  pub separate : AllLack b',' items

-- `old` if the text is empty, else the list that was read from it.
abbrev pub ReadFrom : Bytes → List Bytes → List Bytes → Type 0
ReadFrom [] old items = items ≡ old
ReadFrom (c ∷ text) old items = IsListOf (c ∷ text) items

flag_list-ReadFrom : (text : Bytes) (old : List Bytes) → ReadFrom text old (flag_list text old)
unfolding flag_list eq_bytes
flag_list-ReadFrom [] old = refl
flag_list-ReadFrom (c ∷ text) old = record {
  joined = join-split b',' (c ∷ text);
  separate = AllLack-split b',' (c ∷ text);
}

-- `ParseFlags` takes the boot nodes and the bootstrap peers from the text of their flags, cut at its
-- commas, and keeps the list that was there for a flag that is missing or empty.
parse_flags-ReadFrom :
    (f : Flags) (c : Config)
    → ReadFrom (flag f.bootnode []) c.boot_node (parse_flags f c).boot_node
      × ReadFrom (flag f.bootstrap []) c.bootstrap_peers (parse_flags f c).bootstrap_peers
unfolding parse_flags
parse_flags-ReadFrom f c = (
  flag_list-ReadFrom (flag f.bootnode []) c.boot_node,
  flag_list-ReadFrom (flag f.bootstrap []) c.bootstrap_peers,
)
