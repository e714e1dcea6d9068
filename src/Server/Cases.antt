-- ===== src/Server/Cases.antt =====
-- `handleMessage` of internal/p2p/server.go case by case: ten types of message, of which only two carry
-- a block into the chain.
use simple_block_chain.Chain.{deref}
use simple_block_chain.Chain.History.{ne_of_genesis}
use simple_block_chain.Server.Quiet.{
  Quiet, handle_ver_ack-Quiet, handle_version-Quiet, handle_get_blocks-Quiet, handle_inv-Quiet,
  handle_get_data-Quiet, handle_get_peers-Quiet, handle_peers-Quiet, handle_find_block-Quiet,
  Quiet-refl,
}
use simple_block_chain.Message.{
  Message, msg_version, msg_ver_ack, msg_block, msg_get_blocks, msg_inv, msg_get_data,
  msg_get_peers, msg_peers, msg_find_block, msg_block_found,
}
use simple_block_chain.Server.Handle.{
  handle_message, handle_ver_ack, handle_block, handle_block_found,
}
use simple_block_chain.Server.{Env, PeerId, Server}
use simple_block_chain.Server.Node.{IsNode}
use simple_block_chain.Chain.Append.{deref_tail-Represents}
use simple_block_chain.Common.{Returns, Returns-eq, Run, Returns-weaken, Returns-if, eq_bytes}

module _ (e : Env) where
  ver_ack-Quiet :
      (id : PeerId) (s : Server) → IsNode e s → Returns (Quiet s) (handle_ver_ack e id s)
  ver_ack-Quiet id s v =
      let ne = ne_of_genesis e.platform v.blocks v.genesis in
      let (n, at, last) =
        Returns-eq _ (deref s.blockchain.nodes s.blockchain.tail)
          (deref_tail-Represents s.blockchain v.blocks v.represents ne) in
      handle_ver_ack-Quiet e id s n at

  -- A property of the state after any message: what quiet steps and the two messages with a block
  -- establish.
  pub handle_message-cases :
      (P : Server → Type 0) (id : PeerId) (m : Message) (s : Server)
      → IsNode e s
      → ((t : Server) → Quiet s t → P t)
      → Returns P (handle_block e m.payload s)
      → Returns P (handle_block_found e m.payload s)
      → Returns P (handle_message e id m s)
  unfolding handle_message
  handle_message-cases P id m s v quiet block found =
      let r = v.represents in
      let calm : (c : Run Server) → Returns (Quiet s) c → Returns P c =
        λ c q. Returns-weaken (Quiet s) P c quiet q in
      Returns-if P (eq_bytes m.type msg_version) _ _
        (calm _ (handle_version-Quiet e id m.payload s))
        (Returns-if P (eq_bytes m.type msg_ver_ack) _ _ (calm _ (ver_ack-Quiet id s v)) (
          Returns-if P (eq_bytes m.type msg_block) _ _ block (
            Returns-if P (eq_bytes m.type msg_get_blocks) _ _
              (calm _ (handle_get_blocks-Quiet e id m.payload s v.blocks r))
              (Returns-if P (eq_bytes m.type msg_inv) _ _
                (calm _ (handle_inv-Quiet e id m.payload s))
                (Returns-if P (eq_bytes m.type msg_get_data) _ _
                  (calm _ (handle_get_data-Quiet e id m.payload s v.blocks r))
                  (Returns-if P (eq_bytes m.type msg_get_peers) _ _
                    (calm _ (handle_get_peers-Quiet e id s))
                    (Returns-if P (eq_bytes m.type msg_peers) _ _
                      (calm _ (handle_peers-Quiet e id m.payload s))
                      (Returns-if P (eq_bytes m.type msg_find_block) _ _
                        (calm _ (handle_find_block-Quiet e id m.payload s v.blocks r))
                        (Returns-if P (eq_bytes m.type msg_block_found) _ _ found
                          (quiet s (Quiet-refl s)))))))))))
