-- ===== src/Server/Grow.antt =====
-- What a node holds stays: the entry points of internal/p2p/server.go only ever put blocks behind the
-- last one. `TryAcceptChain` and `ReplaceChain` have no caller among them.
use mathlib.Core.Option.{some-injective}
use simple_block_chain.Chain.History.{ne_of_genesis}
use simple_block_chain.Chain.Spec.{accept-good, accept-bad}
use simple_block_chain.Server.Entry.{add_block-node}
use simple_block_chain.Chain.Read.{get_all_blocks-blocks}
use simple_block_chain.Server.Cases.{handle_message-cases}
use simple_block_chain.Chain.Accept.{Processed, process_block-accept}
use mathlib.Core.Path.{subst}
use simple_block_chain.Server.Node.{IsNode}
use simple_block_chain.Chain.Linked.{Represents}
use simple_block_chain.Chain.{Blockchain, process_block, add_block, new_blockchain, get_all_blocks}
use simple_block_chain.Server.Handle.{take_block, handle_block, handle_block_found, found_block}
use simple_block_chain.Platform.{Time, unix_epoch}
use simple_block_chain.Block.{Block, validate, max_time_drift}
use simple_block_chain.Server.{
  Env, Server, Net, is_processed, emit, block_received, payload_block, new_server, mark_processed,
}
use simple_block_chain.Common.{
  ok, inl, inr, [], ◌∷◌, ◌++◌, refl, List, ◌≡◌, Bytes, Returns, ok_inj, ◌≤◌, sym, if◌then◌else◌,
  Option-cases, ap, ◌+◌, Returns-weaken, append-nil, Returns-if, ◌∙◌, last?, Returns-bind,
  append_assoc, get_elem?, ◌≢◌, length, some,
}
use simple_block_chain.Server.History.{
  here, next, Step, Reach, Step-cases, Step-IsNode, reachable-IsNode,
}

-- The chain holds the blocks `bs`, and maybe more behind them.
pub record Extends (bs : List Block) (t : Server) : Type 0 where
  pub more : List Block
  pub represents : Represents t.blockchain (bs ++ more)

module _ (e : Env) where
  Processed-Extends :
      (now : Time) (b : Block) (bs : List Block) (bc : Blockchain Net) (n : Net)
      (bc' : Blockchain Net) (n' : Net)
      → Processed e.platform now b bs bc n (bc', n')
      → Extends bs (record { blockchain = bc'; net = n' })
  Processed-Extends now b bs bc n bc' n' (rep, same, told) =
      elim (Option-cases (validate e.platform now b (last? bs))) [
        | inl good ↦ record {
          more = b ∷ [];
          represents = subst (λ l. Represents bc' l) (accept-good e.platform now b bs good) rep;
        }
        | inr (err, bad) ↦ record {
          more = [];
          represents =
              subst (λ l. Represents bc' l)
                (accept-bad e.platform now b bs bad ∙ sym (append-nil bs)) rep;
        }
      ]

  process_block-Extends :
      (b : Block) (s : Server) (n : Net) (v : IsNode e s)
      → Returns
          (λ (bc, n'). Extends v.blocks (record { blockchain = bc; net = n' }))
          (process_block e.platform s.net.clock b s.blockchain n)
  process_block-Extends b s n v =
      Returns-weaken _ _ (process_block e.platform s.net.clock b s.blockchain n)
        (λ (bc, n') p. Processed-Extends s.net.clock b v.blocks s.blockchain n bc n' p)
        (process_block-accept e.platform s.net.clock b v.blocks s.blockchain n v.represents
          (ne_of_genesis e.platform v.blocks v.genesis))

  Extends-chain :
      (bs : List Block) (s t : Server) → t.blockchain ≡ s.blockchain → Extends bs s → Extends bs t
  Extends-chain bs s t same v = record {
    more = v.more;
    represents = subst (λ bc. Represents bc (bs ++ v.more)) (sym same) v.represents;
  }

  Extends-self : (s : Server) (v : IsNode e s) → Extends v.blocks s
  Extends-self s v = record {
    more = [];
    represents = subst (λ l. Represents s.blockchain l) (sym (append-nil v.blocks)) v.represents;
  }

  take_block-Extends :
      (b : Block) (s : Server) (v : IsNode e s) → Returns (Extends v.blocks) (take_block e b s)
  unfolding take_block
  take_block-Extends b s v =
      let told = if s.net.block_callback then emit (block_received b) s.net else s.net in
      Returns-bind _ (Extends v.blocks) (process_block e.platform s.net.clock b s.blockchain told)
        (λ r. ok (record { blockchain = r.0; net = mark_processed b.hash r.1 }))
        (process_block-Extends b s told v)
        (λ r w. Extends-chain v.blocks (record { blockchain = r.0; net = r.1 }) _ refl w)

  handle_block-Extends :
      (text : Bytes) (s : Server) (v : IsNode e s)
      → Returns (Extends v.blocks) (handle_block e text s)
  unfolding handle_block
  handle_block-Extends text s v = elim (Option-cases (e.json.block.unmarshal text)) [
    | inl bad ↦ rw (bad, handle_block) (Extends-self s v)
    | inr (p, good) ↦
        rw (good, handle_block)
          (Returns-if (Extends v.blocks) (is_processed p.hash s.net) _ _ (Extends-self s v)
            (take_block-Extends (payload_block p) s v))
  ]

  handle_block_found-Extends :
      (text : Bytes) (s : Server) (v : IsNode e s)
      → Returns (Extends v.blocks) (handle_block_found e text s)
  unfolding handle_block_found
  handle_block_found-Extends text s v = elim (Option-cases (e.json.block_found.unmarshal text)) [
    | inl bad ↦ rw (bad, handle_block_found) (Extends-self s v)
    | inr (p, good) ↦ elim (Option-cases (found_block p)) [
      | inl nothing ↦ rw (good, nothing, handle_block_found) (Extends-self s v)
      | inr (b, found) ↦
          rw (good, found, handle_block_found)
            (Returns-bind _ (Extends v.blocks)
              (process_block e.platform s.net.clock b s.blockchain s.net)
              (λ r. ok (record { blockchain = r.0; net = r.1 })) (process_block-Extends b s s.net v)
              (λ r w. w))
    ]
  ]

  Step-Extends : {s t : Server} (v : IsNode e s) → Step e s t → Extends v.blocks t
  Step-Extends {s} v step =
      Step-cases e (Extends v.blocks) (λ u q. Extends-chain v.blocks s u q.chain (Extends-self s v))
        (λ id m.
          handle_message-cases e (Extends v.blocks) id m s v
            (λ u q. Extends-chain v.blocks s u q.chain (Extends-self s v))
            (handle_block-Extends m.payload s v) (handle_block_found-Extends m.payload s v))
        (λ made bpm.
          let (b, done) = add_block-node e made bpm s v in
          Returns-weaken _ _ (add_block e.platform made s.net.clock bpm s.blockchain s.net)
            (λ (bc, n) p. Processed-Extends s.net.clock b v.blocks s.blockchain s.net bc n p) done)
        (λ now le. Extends-chain v.blocks s _ refl (Extends-self s v)) step

  Represents-unique :
      (bc : Blockchain Net) (bs cs : List Block) → Represents bc bs → Represents bc cs → bs ≡ cs
  Represents-unique bc bs cs p q = ok_inj (sym (get_all_blocks-blocks p) ∙ get_all_blocks-blocks q)

  Reach-Extends : {s t : Server} (v : IsNode e s) → Reach e s t → Extends v.blocks t × IsNode e t
  Reach-Extends {s} v here = (Extends-self s v, v)
  Reach-Extends {s} v (next {t} {u} r step) =
      let (x, w) = Reach-Extends v r in
      let y = Step-Extends w step in
      let same =
        Represents-unique t.blockchain w.blocks (v.blocks ++ x.more) w.represents x.represents in
      (
        record {
          more = x.more ++ y.more;
          represents =
              subst (λ l. Represents u.blockchain l)
                (ap (λ l. l ++ y.more) same ∙ append_assoc v.blocks x.more y.more) y.represents;
        },
        Step-IsNode e step w,
      )

  -- What a node holds in some state of its history it holds in every later one, in the same places:
  -- its chain then is the chain of before with blocks put behind it. The node runs on a new blockchain,
  -- from a time after 1970 less ten minutes.
  pub reachable-grows :
      (now : Time) {s t : Server}
      → unix_epoch.instant ≤ now.instant + max_time_drift
      → Reach e (new_server e now (new_blockchain e.platform)) s
      → Reach e s t
      → (bs more : List Block) × (get_all_blocks s.blockchain ≡ ok bs)
        × (get_all_blocks t.blockchain ≡ ok (bs ++ more))
  reachable-grows now h old new =
      let v = reachable-IsNode e now h old in
      let (x, w) = Reach-Extends v new in
      (v.blocks, x.more, get_all_blocks-blocks v.represents, get_all_blocks-blocks x.represents)

get_elem?-behind :
    (front : List Block) (x : Block) (xs : List Block)
    → get_elem? (front ++ x ∷ xs) (length front) ≡ some x
get_elem?-behind [] x xs = refl
get_elem?-behind (b ∷ front) x xs = get_elem?-behind front x xs

-- Two lists with one front that are the same list behind it go on with the same element.
parted : (front xs ys : List Block) (x y : Block) → front ++ x ∷ xs ≡ front ++ y ∷ ys → x ≡ y
parted front xs ys x y eq = some-injective x y (
    sym (get_elem?-behind front x xs)
    ∙ ap (λ l. get_elem? l (length front)) eq
    ∙ get_elem?-behind front y ys)

-- Two nodes whose chains have different blocks at one place never hold the same chain again, whatever
-- the two receive, mine or ask for: no message makes a node take over another's longer chain. Both run
-- on a new blockchain, from a time after 1970 less ten minutes.
pub reachable-parted :
    (e d : Env) (now started : Time) {s t s' t' : Server} (front xs ys : List Block) (x y : Block)
    → unix_epoch.instant ≤ now.instant + max_time_drift
    → unix_epoch.instant ≤ started.instant + max_time_drift
    → Reach e (new_server e now (new_blockchain e.platform)) s
    → Reach d (new_server d started (new_blockchain d.platform)) t
    → get_all_blocks s.blockchain ≡ ok (front ++ x ∷ xs)
    → get_all_blocks t.blockchain ≡ ok (front ++ y ∷ ys)
    → x ≢ y
    → Reach e s s'
    → Reach d t t'
    → get_all_blocks s'.blockchain ≢ get_all_blocks t'.blockchain
reachable-parted e d now started front xs ys x y h h' old old' here_is there_is differ new new'
      same =
    let (bs, more, was, is) = reachable-grows e now h old new in
    let (cs, rest, was', is') = reachable-grows d started h' old' new' in
    let one = ok_inj (sym was ∙ here_is) in
    let two = ok_inj (sym was' ∙ there_is) in
    let whole : bs ++ more ≡ cs ++ rest = ok_inj (sym is ∙ same ∙ is') in
    differ (
      parted front (xs ++ more) (ys ++ rest) x y (
        sym (append_assoc front (x ∷ xs) more)
        ∙ ap (λ l. l ++ more) (sym one)
        ∙ whole
        ∙ ap (λ l. l ++ rest) two
        ∙ append_assoc front (y ∷ ys) rest))
