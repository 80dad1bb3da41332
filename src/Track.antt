-- ===== src/Track.antt =====
-- include/lib/train/track_node.h: the nodes of a track. A pointer to a node is an address in one memory
-- of nodes, which holds the tables of src/lib/train/track_data.c and the copies that the program makes
-- of them. The names of nodes, and of an edge all but its end and length, are left out.
use cs.Base.{ℕ, Bool, true, false}

pub data NodeType : Type 0 where
  node_none node_sensor node_branch node_merge node_enter node_exit : NodeType

pub record Edge : Type 0 where
  pub dest : ℕ
  pub dist : ℕ

-- `reserver` is an `int`, and so are the numbers; `reverse` is a pointer.
pub record Node : Type 0 where
  pub reserver : ℕ
  pub type : NodeType
  pub id : ℕ
  pub num : ℕ
  pub reverse : ℕ
  pub edge : ℕ → Edge

abbrev pub Nodes : Type 0
Nodes = ℕ → Node

abbrev pub dir_ahead : ℕ
dir_ahead = 0

abbrev pub dir_straight : ℕ
dir_straight = 0

abbrev pub dir_curved : ℕ
dir_curved = 1

abbrev pub track_max : ℕ
track_max = 144

abbrev pub is_merge : NodeType → Bool
is_merge node_merge = true
is_merge t = false

abbrev pub is_branch : NodeType → Bool
is_branch node_branch = true
is_branch t = false

abbrev pub is_sensor : NodeType → Bool
is_sensor node_sensor = true
is_sensor t = false

abbrev pub is_exit : NodeType → Bool
is_exit node_exit = true
is_exit t = false

-- `n->edge[dir].dest`
abbrev pub dest_of : Nodes → ℕ → ℕ → ℕ
dest_of ns n dir = ((ns n).edge dir).dest

-- `n->edge[dir].dist`
abbrev pub dist_of : Nodes → ℕ → ℕ → ℕ
dist_of ns n dir = ((ns n).edge dir).dist
