-- ===== src/Config/Nodes.antt =====
-- `GetBootNodesAddr` of internal/p2p/config.go.
use simple_block_chain.Config.{
  addrs, invalid_multiaddr, parse_nodes, get_boot_nodes_addr, NodesAddr, Config, is_empty, and_addr,
}
use mathlib.Core.Bool.{true≢false}
use mathlib.Core.List.{Mem, mem-cons_self, mem-cons_of_mem}
use simple_block_chain.Common.{
  none, some, [], ◌∷◌, inl, inr, Bytes, Option, List, ◌≡◌, Bool-cases, ◌≢◌, eq_bytes_iff, codes,
  sym, ◌∙◌, Option-cases,
}

module _ (new_multiaddr : Bytes → Option Bytes) where
  -- Each text that is not empty is a multiaddr, in this order.
  pub data Parsed : List Bytes → List Bytes → Type 0 where
    done : Parsed [] []
    skip :
        {nodes found : List Bytes} (node : Bytes)
        → node ≡ []
        → Parsed nodes found
        → Parsed (node ∷ nodes) found
    take :
        {nodes found : List Bytes} (node ma : Bytes)
        → node ≢ []
        → new_multiaddr node ≡ some ma
        → Parsed nodes found
        → Parsed (node ∷ nodes) (ma ∷ found)

  -- What the answer says of the nodes: all are parsed, or the text is one that does not parse.
  abbrev pub Answers : List Bytes → NodesAddr → Type 0
  Answers nodes (addrs found) = Parsed nodes found
  Answers nodes (invalid_multiaddr a) = Mem a nodes × (a ≢ []) × (new_multiaddr a ≡ none)

  Answers-later :
      (node : Bytes) (nodes : List Bytes) (r : NodesAddr)
      → ((found : List Bytes) → Parsed nodes found → Parsed (node ∷ nodes) found)
      → Answers nodes r
      → Answers (node ∷ nodes) r
  Answers-later node nodes (addrs found) f v = f found v
  Answers-later node nodes (invalid_multiaddr a) f (m, ne, bad) = (mem-cons_of_mem node m, ne, bad)

  Answers-and_addr :
      (node ma : Bytes) (nodes : List Bytes) (r : NodesAddr)
      → node ≢ []
      → new_multiaddr node ≡ some ma
      → Answers nodes r
      → Answers (node ∷ nodes) (and_addr ma r)
  Answers-and_addr node ma nodes (addrs found) ne good v = Parsed.take node ma ne good v
  Answers-and_addr node ma nodes (invalid_multiaddr a) ne good (m, full, bad) =
      (mem-cons_of_mem node m, full, bad)

  parse_nodes-Answers : (nodes : List Bytes) → Answers nodes (parse_nodes new_multiaddr nodes)
  unfolding parse_nodes
  parse_nodes-Answers [] = Parsed.done
  parse_nodes-Answers (node ∷ nodes) = elim (Bool-cases (is_empty node)) [
    | inl empty ↦
        rw (empty, parse_nodes)
          (Answers-later node nodes (parse_nodes new_multiaddr nodes)
            (λ found v. Parsed.skip node ((eq_bytes_iff node (codes "")).0 empty) v)
            (parse_nodes-Answers nodes))
    | inr full ↦
        let ne : node ≢ [] =
          λ nil. true≢false (sym ((eq_bytes_iff node (codes "")).1 nil) ∙ full) in
        elim (Option-cases (new_multiaddr node)) [
          | inl bad ↦ rw (full, bad, parse_nodes) (mem-cons_self, ne, bad)
          | inr (ma, good) ↦
              rw (full, good, parse_nodes)
                (Answers-and_addr node ma nodes (parse_nodes new_multiaddr nodes) ne good
                  (parse_nodes-Answers nodes))
        ]
  ]

  -- `GetBootNodesAddr` answers the multiaddrs of all boot nodes whose text is not empty, in their order,
  -- if each of these texts parses, and otherwise an error that names a boot node that does not.
  get_boot_nodes_addr-Answers :
      (c : Config) → Answers c.boot_node (get_boot_nodes_addr new_multiaddr c)
  unfolding get_boot_nodes_addr
  get_boot_nodes_addr-Answers c = parse_nodes-Answers c.boot_node
