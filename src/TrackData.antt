-- ===== src/TrackData.antt =====
-- src/lib/train/track_data.c: the table of track A. A pointer to a node is its index, and NULL is 144. The rows
-- are those that `init_tracka` fills in, 18 in a list, with the id that `add_ids` gives them.
pub mod Checks
pub mod Sound
use cs.Base.{ℕ, zero, suc, ◌+◌, ◌-◌, List, [], ◌∷◌, ◌++◌, if◌then◌else◌, ◌==◌, ltb}
use cs.Track.{
  NodeType, node_sensor, node_branch, node_merge, node_enter, node_exit, Edge, Node, Nodes,
}

abbrev pub null : ℕ
null = 144

-- A node but for its id: its type, number and reverse, and the ends and lengths of its edges.
abbrev pub row : NodeType → ℕ → ℕ → ℕ → ℕ → ℕ → ℕ → ℕ → Node
row t num reverse ahead length curved length_curved id = record {
  reserver = 0;
  type = t;
  id = id;
  num = num;
  reverse = reverse;
  edge = λ dir.
      if dir == 0
      then record { dest = ahead; dist = length }
      else record { dest = curved; dist = length_curved };
}

abbrev first_rows : List (ℕ → Node)
first_rows =
    row node_sensor 0 1 103 231 null 0
    ∷ row node_sensor 1 0 133 504 null 0
    ∷ row node_sensor 2 3 106 43 null 0
    ∷ row node_sensor 3 2 31 437 null 0
    ∷ row node_sensor 4 5 85 231 null 0
    ∷ row node_sensor 5 4 25 642 null 0
    ∷ row node_sensor 6 7 27 470 null 0
    ∷ row node_sensor 7 6 83 229 null 0
    ∷ row node_sensor 8 9 23 289 null 0
    ∷ row node_sensor 9 8 81 229 null 0
    ∷ row node_sensor 10 11 81 518 null 0
    ∷ row node_sensor 11 10 139 43 null 0
    ∷ row node_sensor 12 13 87 236 null 0
    ∷ row node_sensor 13 12 131 325 null 0
    ∷ row node_sensor 14 15 135 144 null 0
    ∷ row node_sensor 15 14 87 417 null 0
    ∷ row node_sensor 16 17 61 404 null 0
    ∷ row node_sensor 17 16 111 231 null 0
    ∷ []

abbrev second_rows : List (ℕ → Node)
second_rows =
    row node_sensor 18 19 33 201 null 0
    ∷ row node_sensor 19 18 111 239 null 0
    ∷ row node_sensor 20 21 50 404 null 0
    ∷ row node_sensor 21 20 105 231 null 0
    ∷ row node_sensor 22 23 9 289 null 0
    ∷ row node_sensor 23 22 137 43 null 0
    ∷ row node_sensor 24 25 4 642 null 0
    ∷ row node_sensor 25 24 141 50 null 0
    ∷ row node_sensor 26 27 7 470 null 0
    ∷ row node_sensor 27 26 143 50 null 0
    ∷ row node_sensor 28 29 119 239 null 0
    ∷ row node_sensor 29 28 63 201 null 0
    ∷ row node_sensor 30 31 2 437 null 0
    ∷ row node_sensor 31 30 108 50 null 0
    ∷ row node_sensor 32 33 19 201 null 0
    ∷ row node_sensor 33 32 117 246 null 0
    ∷ row node_sensor 34 35 129 514 null 0
    ∷ row node_sensor 35 34 89 239 null 0
    ∷ []

abbrev third_rows : List (ℕ → Node)
third_rows =
    row node_sensor 36 37 90 61 null 0
    ∷ row node_sensor 37 36 109 433 null 0
    ∷ row node_sensor 38 39 115 231 null 0
    ∷ row node_sensor 39 38 84 128 null 0
    ∷ row node_sensor 40 41 109 326 null 0
    ∷ row node_sensor 41 40 110 128 null 0
    ∷ row node_sensor 42 43 104 120 null 0
    ∷ row node_sensor 43 42 107 333 null 0
    ∷ row node_sensor 44 45 70 875 null 0
    ∷ row node_sensor 45 44 100 43 null 0
    ∷ row node_sensor 46 47 59 404 null 0
    ∷ row node_sensor 47 46 91 239 null 0
    ∷ row node_sensor 48 49 121 246 null 0
    ∷ row node_sensor 49 48 67 201 null 0
    ∷ row node_sensor 50 51 99 239 null 0
    ∷ row node_sensor 51 50 21 404 null 0
    ∷ row node_sensor 52 53 69 376 null 0
    ∷ row node_sensor 53 52 97 239 null 0
    ∷ []

abbrev fourth_rows : List (ℕ → Node)
fourth_rows =
    row node_sensor 54 55 97 309 null 0
    ∷ row node_sensor 55 54 71 384 null 0
    ∷ row node_sensor 56 57 75 369 null 0
    ∷ row node_sensor 57 56 95 316 null 0
    ∷ row node_sensor 58 59 47 404 null 0
    ∷ row node_sensor 59 58 93 231 null 0
    ∷ row node_sensor 60 61 17 404 null 0
    ∷ row node_sensor 61 60 113 239 null 0
    ∷ row node_sensor 62 63 28 201 null 0
    ∷ row node_sensor 63 62 113 246 null 0
    ∷ row node_sensor 64 65 123 239 null 0
    ∷ row node_sensor 65 64 78 201 null 0
    ∷ row node_sensor 66 67 48 201 null 0
    ∷ row node_sensor 67 66 99 239 null 0
    ∷ row node_sensor 68 69 53 376 null 0
    ∷ row node_sensor 69 68 98 50 null 0
    ∷ row node_sensor 70 71 54 384 null 0
    ∷ row node_sensor 71 70 45 875 null 0
    ∷ []

abbrev fifth_rows : List (ℕ → Node)
fifth_rows =
    row node_sensor 72 73 95 239 null 0
    ∷ row node_sensor 73 72 76 376 null 0
    ∷ row node_sensor 74 75 57 369 null 0
    ∷ row node_sensor 75 74 92 50 null 0
    ∷ row node_sensor 76 77 112 43 null 0
    ∷ row node_sensor 77 76 72 376 null 0
    ∷ row node_sensor 78 79 105 246 null 0
    ∷ row node_sensor 79 78 64 201 null 0
    ∷ row node_branch 1 81 11 518 8 229
    ∷ row node_merge 1 80 83 188 null 0
    ∷ row node_branch 2 83 80 188 6 229
    ∷ row node_merge 2 82 85 185 null 0
    ∷ row node_branch 3 85 5 231 82 185
    ∷ row node_merge 3 84 38 128 null 0
    ∷ row node_branch 4 87 14 417 13 236
    ∷ row node_merge 4 86 103 185 null 0
    ∷ row node_branch 5 89 34 239 93 371
    ∷ row node_merge 5 88 114 155 null 0
    ∷ []

abbrev sixth_rows : List (ℕ → Node)
sixth_rows =
    row node_branch 6 91 46 239 115 371
    ∷ row node_merge 6 90 37 61 null 0
    ∷ row node_branch 7 93 58 231 89 371
    ∷ row node_merge 7 92 74 50 null 0
    ∷ row node_branch 8 95 56 316 73 239
    ∷ row node_merge 8 94 96 155 null 0
    ∷ row node_branch 9 97 55 309 52 239
    ∷ row node_merge 9 96 94 155 null 0
    ∷ row node_branch 10 99 51 239 66 239
    ∷ row node_merge 10 98 68 50 null 0
    ∷ row node_branch 11 101 102 188 107 495
    ∷ row node_merge 11 100 44 43 null 0
    ∷ row node_branch 12 103 1 231 86 185
    ∷ row node_merge 12 102 101 188 null 0
    ∷ row node_branch 13 105 20 231 79 246
    ∷ row node_merge 13 104 43 120 null 0
    ∷ row node_branch 14 107 101 495 42 333
    ∷ row node_merge 14 106 3 43 null 0
    ∷ []

abbrev seventh_rows : List (ℕ → Node)
seventh_rows =
    row node_branch 15 109 36 433 41 326
    ∷ row node_merge 15 108 30 50 null 0
    ∷ row node_branch 16 111 16 231 18 239
    ∷ row node_merge 16 110 40 128 null 0
    ∷ row node_branch 17 113 60 239 62 246
    ∷ row node_merge 17 112 77 43 null 0
    ∷ row node_branch 18 115 39 231 91 371
    ∷ row node_merge 18 114 88 155 null 0
    ∷ row node_branch 153 117 125 253 32 246
    ∷ row node_merge 153 116 119 0 null 0
    ∷ row node_branch 154 119 116 0 29 239
    ∷ row node_merge 154 118 122 0 null 0
    ∷ row node_branch 155 121 127 282 49 246
    ∷ row node_merge 155 120 123 0 null 0
    ∷ row node_branch 156 123 120 0 65 239
    ∷ row node_merge 156 122 118 0 null 0
    ∷ row node_enter 0 125 117 253 null 0
    ∷ row node_exit 0 124 null 0 null 0
    ∷ []

abbrev eighth_rows : List (ℕ → Node)
eighth_rows =
    row node_enter 0 127 121 282 null 0
    ∷ row node_exit 0 126 null 0 null 0
    ∷ row node_enter 0 129 35 514 null 0
    ∷ row node_exit 0 128 null 0 null 0
    ∷ row node_enter 0 131 12 325 null 0
    ∷ row node_exit 0 130 null 0 null 0
    ∷ row node_enter 0 133 0 504 null 0
    ∷ row node_exit 0 132 null 0 null 0
    ∷ row node_enter 0 135 15 144 null 0
    ∷ row node_exit 0 134 null 0 null 0
    ∷ row node_enter 0 137 22 43 null 0
    ∷ row node_exit 0 136 null 0 null 0
    ∷ row node_enter 0 139 10 43 null 0
    ∷ row node_exit 0 138 null 0 null 0
    ∷ row node_enter 0 141 24 50 null 0
    ∷ row node_exit 0 140 null 0 null 0
    ∷ row node_enter 0 143 26 50 null 0
    ∷ row node_exit 0 142 null 0 null 0
    ∷ []

-- No edge leaves what is behind the table.
abbrev pub behind : ℕ → Node
behind i = row node_exit 0 null null 0 null 0 i

abbrev pick : List (ℕ → Node) → ℕ → ℕ → Node
pick [] k i = behind i
pick (r ∷ rs) zero i = r i
pick (r ∷ rs) (suc k) i = pick rs k i

unfoldable pub track_a : Nodes
track_a i =
    if ltb i 18
    then pick first_rows i i
    else if ltb i 36
    then pick second_rows (i - 18) i
    else if ltb i 54
    then pick third_rows (i - 36) i
    else if ltb i 72
    then pick fourth_rows (i - 54) i
    else if ltb i 90
    then pick fifth_rows (i - 72) i
    else if ltb i 108
    then pick sixth_rows (i - 90) i
    else if ltb i 126
    then pick seventh_rows (i - 108) i
    else if ltb i 144
    then pick eighth_rows (i - 126) i
    else behind i
