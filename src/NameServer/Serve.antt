-- ===== src/NameServer/Serve.antt =====
-- What the name server answers, and when.
use cs.Base.{
  ℕ, ◌<◌, ◌^◌, ◌≡◌, ◌≢◌, refl, sym, ap, ◌∙◌, arith, Option, none, some, List, [], ◌∷◌, ◌++◌, length,
  if◌then◌else◌, ◌==◌, eq→==, ne→==, lt→ltb, add32, lt→leb,
}
use cs.Ring
use cs.Ring.{Ring, ok}
use cs.Ring.Refine.{Holds, push-Holds, pop-Holds}
use cs.Task.{Tid}
use cs.NameServer.{
  NameServer, Store, whois, register_as, nss_get, nss_set, drain, next_waiting, answers, waiting,
  with_queue, serve, ns_dne,
}

next_ok :
    (x : Ring.Code × Option Tid × Ring Tid) (t : Tid) (ts : List Tid) (q' : Ring Tid)
    (next : Ring Tid → Option (List Tid × Ring Tid))
    → x.0 ≡ ok
    → x.1 ≡ some t
    → next x.2 ≡ some (ts, q')
    → next_waiting x next ≡ some (t ∷ ts, q')
next_ok (c, o, q) t ts q' next e f g = rw (e, f, g) refl

-- Every task that waits is answered, oldest first.
drain_lem :
    (q : Ring Tid) (xs : List Tid)
    → Holds 5 q xs
    → (q' : Ring Tid) × (drain (length xs) q ≡ some (xs, q')) × Holds 5 q' []
unfolding drain
drain_lem q [] h = (q, refl, h)
drain_lem q (x ∷ xs) h =
    let (c, o, h') = pop-Holds q xs x h in
    let (q', run, held) = drain_lem (Ring.pop 5 q).2 xs h' in
    (q', next_ok (Ring.pop 5 q) x xs q' (drain (length xs)) c o run, held)

-- The store once `from` has registered as `name`.
abbrev with_entry : Store → ℕ → Tid → Store
with_entry nss name from = record {
  entries = λ i. if name == i then from else nss.entries i;
  size = add32 nss.size 1;
}

set_run :
    (nss : Store) (name from : ℕ)
    → name < 64
    → nss.size < 63
    → nss_set nss name from ≡ some (0, with_entry nss name from)
unfolding nss_set
set_run nss name from l s = rw (lt→ltb name 64 l, ne→== nss.size 63 (omega arith)) refl

register_run :
    (ns : NameServer) (from name : ℕ) (xs : List Tid) (q : Ring Tid)
    → name < 64
    → ns.store.size < 63
    → drain (ns.name_q name).size (ns.name_q name) ≡ some (xs, q)
    → serve ns from (register_as name)
      ≡ some (
        answers from 0 xs,
        some (record (with_queue ns name q) { store = with_entry ns.store name from }),
      )
unfolding serve
register_run ns from name xs q l s run = rw (set_run ns.store name from l s, run) refl

known_run :
    (ns : NameServer) (from name tid : ℕ)
    → name < 64
    → 0 < ns.store.size
    → ns.store.size < 2 ^ 31
    → ns.store.entries name ≡ tid
    → tid < 2 ^ 31
    → serve ns from (whois name) ≡ some ((from, tid) ∷ [], some ns)
unfolding serve nss_get
known_run ns from name tid l p s e k =
    rw
      (
        lt→ltb name 64 l,
        ne→== ns.store.size 0 (omega arith),
        lt→leb (2 ^ 31) ns.store.size s,
        e,
        ne→== tid ns_dne (omega arith),
        lt→leb (2 ^ 31) tid k,
      )
      refl

-- When a task registers a valid name with a tid below 2 ^ 31, with fewer than 63 registrations so
-- far, the tasks `xs` that wait for the name are all answered with its tid, oldest first, and
-- nobody waits any more; a later question for the name is answered with that tid at once, and
-- other names and their queues are as before.
pub register_then_whois :
    (ns : NameServer) (from name asker : ℕ) (xs : List Tid)
    → name < 64
    → ns.store.size < 63
    → from < 2 ^ 31
    → Holds 5 (ns.name_q name) xs
    → (ns' : NameServer) × (serve ns from (register_as name) ≡ some (answers from 0 xs, some ns'))
      × Holds 5 (ns'.name_q name) []
      × (serve ns' asker (whois name) ≡ some ((asker, from) ∷ [], some ns'))
      × ((i : ℕ)
          → i ≢ name
          → (ns'.store.entries i ≡ ns.store.entries i) × (ns'.name_q i ≡ ns.name_q i))
register_then_whois ns from name asker xs l s k h =
    let (q, run, held) = drain_lem (ns.name_q name) xs h in
    let ns' = record (with_queue ns name q) { store = with_entry ns.store name from } in
    let same = eq→== name name refl in
    (
      ns',
      register_run ns from name xs q l s (ap (λ n. drain n (ns.name_q name)) (sym h.count) ∙ run),
      rw same held,
      known_run ns' asker name from l (omega arith) (omega arith) (rw same refl) k,
      λ i n. (rw (ne→== name i (λ e. n (sym e))) refl, rw (ne→== name i (λ e. n (sym e))) refl),
    )

waiting_run :
    (ns : NameServer) (name : ℕ) (x : Ring.Code × Ring Tid)
    → x.0 ≡ ok
    → waiting ns name x ≡ some ([], some (with_queue ns name x.1))
waiting_run ns name (c, q) e = rw e refl

-- A question for a valid name that is not registered, when some name is and fewer than five tasks
-- wait for the name, is not answered, and the task waits behind those that wait for the name.
pub whois_waits :
    (ns : NameServer) (from name : ℕ) (xs : List Tid)
    → name < 64
    → 0 < ns.store.size
    → ns.store.size < 2 ^ 31
    → ns.store.entries name ≡ ns_dne
    → Holds 5 (ns.name_q name) xs
    → length xs < 5
    → (ns' : NameServer) × (serve ns from (whois name) ≡ some ([], some ns'))
      × (ns'.store ≡ ns.store)
      × Holds 5 (ns'.name_q name) (xs ++ (from ∷ []))
unfolding serve nss_get
whois_waits ns from name xs l p s e h room =
    let (c, h') = push-Holds (ns.name_q name) xs from h room in
    (
      with_queue ns name (Ring.push 5 (ns.name_q name) from).1,
      rw (lt→ltb name 64 l, ne→== ns.store.size 0 (omega arith), lt→leb (2 ^ 31) ns.store.size s, e)
          (waiting_run ns name (Ring.push 5 (ns.name_q name) from) c),
      refl,
      rw (eq→== name name refl) h',
    )

-- As long as no name is registered, any question fails an assert: the code of the empty store is
-- not the one that the server waits on.
pub whois_of_empty :
    (ns : NameServer) (from name : ℕ) → ns.store.size ≡ 0 → serve ns from (whois name) ≡ none
unfolding serve nss_get
whois_of_empty ns from name e = ground (arith, e)
