-- ===== src/NameServer.antt =====
-- src/lib/nameserver_store.c and src/user/nameserver.c: the store of names, and the name server as a
-- step on the requests that it receives. `none` is an assert or KASSERT that fails.
pub mod Serve
mod Tests
use cs.Base.{
  ℕ, zero, suc, Bool, true, false, ◌||◌, not, ◌&&◌, Option, none, some, List, [], ◌∷◌,
  if◌then◌else◌, ltb, ◌==◌, add32, neg32, is_negative,
}
use cs.Ring
use cs.Ring.{Ring}
use cs.Task.{Tid}

abbrev pub ns_max_entry : ℕ
ns_max_entry = 64

abbrev pub ns_dne : ℕ
ns_dne = neg32 1

abbrev pub ns_empty : ℕ
ns_empty = neg32 2

abbrev pub ns_full : ℕ
ns_full = neg32 3

-- `NS_MAX_TASK_QUEUE_SIZE`
abbrev pub queue_size : ℕ
queue_size = 5

-- `entries` maps a name to a tid or `NS_DNE`; `size` is an `int`.
pub record Store : Type 0 where
  pub entries : ℕ → ℕ
  pub size : ℕ

unfoldable pub nss_init : Store → Store
nss_init nss = record {
  entries = λ i. if ltb i ns_max_entry then ns_dne else nss.entries i;
  size = 0;
}

unfoldable pub nss_get : Store → ℕ → Option ℕ
nss_get nss key =
    if not (ltb key ns_max_entry)
    then none
    else if nss.size == 0 || is_negative nss.size
    then some ns_empty
    else some (nss.entries key)

-- A name that is registered again counts again.
unfoldable pub nss_set : Store → ℕ → Tid → Option (ℕ × Store)
nss_set nss key tid =
    if not (ltb key ns_max_entry)
    then none
    else if nss.size == 63
    then some (ns_full, nss)
    else some (
      0,
      record { entries = λ i. if key == i then tid else nss.entries i; size = add32 nss.size 1 },
    )

pub data Request : Type 0 where
  whois register_as : ℕ → Request
  stop : Request

-- A reply: to whom, and the number.
abbrev pub Answer : Type 0
Answer = Tid × ℕ

-- The store, and for each name the tasks that asked for it before it was registered.
pub record NameServer : Type 0 where
  pub store : Store
  pub name_q : ℕ → Ring Tid

abbrev pub with_queue : NameServer → ℕ → Ring Tid → NameServer
with_queue ns name q = record ns { name_q = λ i. if name == i then q else ns.name_q i }

-- `r = ns_q_push(...)` with `assert(r == 0)`.
abbrev pub waiting :
    NameServer → ℕ → Ring.Code × Ring Tid → Option (List Answer × Option NameServer)
waiting ns name (Ring.ok, q) = some ([], some (with_queue ns name q))
waiting ns name (c, q) = none

-- -1 is waited for, and any other negative number fails the assert.
abbrev pub looked_up : NameServer → Tid → ℕ → Option ℕ → Option (List Answer × Option NameServer)
looked_up ns from name none = none
looked_up ns from name (some ret) =
    if ret == ns_dne
    then waiting ns name (Ring.push queue_size (ns.name_q name) from)
    else if is_negative ret
    then none
    else some ((from, ret) ∷ [], some ns)

-- The loop that answers the tasks that wait, with `n` rounds to go.
abbrev pub next_waiting :
    Ring.Code × Option Tid × Ring Tid
    → (Ring Tid → Option (List Tid × Ring Tid))
    → Option (List Tid × Ring Tid)
next_waiting (Ring.ok, some tid, q) next = elim (next q) [
  | none ↦ none
  | some (tids, q') ↦ some (tid ∷ tids, q')
]
next_waiting (c, tid, q) next = none

unfoldable pub drain : ℕ → Ring Tid → Option (List Tid × Ring Tid)
drain zero q = some ([], q)
drain (suc n) q = let next = drain n in next_waiting (Ring.pop queue_size q) next

-- The replies: the registering task's tid to each task that waited, and then the code to itself.
abbrev pub answers : Tid → ℕ → List Tid → List Answer
answers from ret [] = (from, ret) ∷ []
answers from ret (t ∷ ts) = (t, from) ∷ answers from ret ts

abbrev pub registered :
    NameServer
    → Tid
    → ℕ
    → ℕ
    → Store
    → Option (List Tid × Ring Tid)
    → Option (List Answer × Option NameServer)
registered ns from name ret store none = none
registered ns from name ret store (some (tids, q)) =
    some (answers from ret tids, some (record (with_queue ns name q) { store = store }))

abbrev pub set_name :
    NameServer → Tid → ℕ → Option (ℕ × Store) → Option (List Answer × Option NameServer)
set_name ns from name none = none
set_name ns from name (some (ret, store)) =
    registered ns from name ret store (drain (ns.name_q name).size (ns.name_q name))

-- The answers that go out, and the server, unless it exits.
unfoldable pub serve : NameServer → Tid → Request → Option (List Answer × Option NameServer)
serve ns from (whois name) = looked_up ns from name (nss_get ns.store name)
serve ns from (register_as name) = set_name ns from name (nss_set ns.store name from)
serve ns from stop = some ((from, from) ∷ [], none)
