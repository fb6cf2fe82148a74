-- ===== src/Netq.antt =====
-- netq.c: a list of packets in the order of their time stamps. A queue is the list of the nodes that
-- its head leads to. A node has an address, by which netq_remove finds it; its data and length are
-- one list.
pub mod Order
pub mod Remove
use gc2021_pqdtls.Base.{ℕ, ◌≤◌, leb, ◌==◌, if◌then◌else◌, Bool, Option, none, some, List, [], ◌∷◌}

pub record Node : Type 0 where
  pub addr : ℕ
  pub t : ℕ
  pub timeout : ℕ
  pub peer : Option ℕ
  pub epoch : ℕ
  pub type : ℕ
  pub retransmit_cnt : ℕ
  pub packet : List ℕ

-- netq_insert_node: behind every node at the head that is not later.
unfoldable pub insert_node : List Node → Node → List Node
insert_node [] node = node ∷ []
insert_node (p ∷ next) node =
    let rest = insert_node next node in if leb p.t node.t then p ∷ rest else node ∷ p ∷ next

-- netq_head
unfoldable pub head : List Node → Option Node
head [] = none
head (p ∷ next) = some p

-- netq_remove: the first node at that address.
unfoldable pub remove : List Node → ℕ → List Node
remove [] item = []
remove (curr ∷ next) item =
    let rest = remove next item in if curr.addr == item then next else curr ∷ rest

-- netq_pop_first: the first node and the queue behind it.
unfoldable pub pop_first : List Node → Option Node × List Node
pop_first [] = (none, [])
pop_first (p ∷ next) = (some p, next)

-- netq_node_new: a node of zeros at the address that the allocation gives, NULL where it fails.
unfoldable pub node_new : Option ℕ → Option Node
node_new none = none
node_new (some a) = some (record {
  addr = a;
  t = 0;
  timeout = 0;
  peer = none;
  epoch = 0;
  type = 0;
  retransmit_cnt = 0;
  packet = [];
})

-- netq_delete_all: the nodes it frees, in order, and the queue.
unfoldable pub delete_all : List Node → List Node × List Node
delete_all queue = (queue, [])
