-- ===== src/Kernel/Msg/Reply.antt =====
-- Reply to a task that waits for it.
use native.Mathlib.Decide.{ℕ_discrete}
use cs.Base.{
  ℕ, suc, ◌<◌, ◌^◌, ◌≡◌, ◌≢◌, refl, sym, ap, ◌∙◌, some, [], ◌∷◌, ◌++◌, true, if◌then◌else◌, ◌==◌,
  eq→==, ne→==, lt→ltb,
}
use cs.Task.{Task, Status, ready, rpl_bl, tid_id}
use cs.TaskQueue.Refine.{link_last}
use cs.ReadyQueue.{PriorityQueue}
use cs.ReadyQueue.Levels.{Levels, with_level, IsReady, total}
use cs.Kernel.Bytes.{copy}
use cs.Kernel.{Kernel, arg, set_status, set_ret, make_ready, is_valid_user_p}
use cs.Kernel.Frame.{update_field, IsReady-next, link_last_field, CanQueue, queued}
use cs.Kernel.Queueing.{update_any, ready_step, queued_absent, total-queued}
use cs.Kernel.Msg.{reply_handler, valid_length}

-- `r` runs, and replies to `s`, which waits for it.
pub record CanReply (k : Kernel) (q : Levels) (r s : ℕ) : Type 0 where
  pub target : tid_id (arg k r 4) ≡ s
  pub in_range : s < 128
  pub apart : r ≢ s
  pub runs : (k.tasks r).status ≡ ready
  pub waits : (k.tasks s).status ≡ rpl_bl
  pub reply_valid : is_valid_user_p (k.tasks r).tid (arg k r 8) ≡ true
  pub length_valid : valid_length (arg k r 12) ≡ true
  pub target_valid : is_valid_user_p (k.tasks s).tid (arg k s 16) ≡ true
  pub can_sender : CanQueue k q s
  pub can_receiver : CanQueue k q r
  pub room : suc (suc (total q 32)) < 2 ^ 30

-- The levels once `s`, then `r`, have become ready.
abbrev pub both_queued : Kernel → Levels → ℕ → ℕ → Levels
both_queued k q r s =
    let q1 = queued k q s in
    with_level q1 (k.tasks r).priority (q1 (k.tasks r).priority ++ (r ∷ []))

pub record Replied (k k' : Kernel) (q : Levels) (r s : ℕ) : Type 0 where
  pub memory : k'.mem ≡ copy (arg k r 12) 0 k.mem (arg k s 16) (arg k r 8)
  pub statuses : (i : ℕ) → (k'.tasks i).status ≡ (if s == i then ready else (k.tasks i).status)
  pub returns : (i : ℕ) → (k'.tasks i).ret ≡ (if r == i then 0 else (k.tasks i).ret)
  pub order : IsReady k'.tasks k'.pq_tasks (both_queued k q r s)

abbrev woken : Kernel → ℕ → ℕ → Kernel
woken k r s =
    set_status (record k { mem = copy (arg k r 12) 0 k.mem (arg k s 16) (arg k r 8) }) s ready

abbrev answered : Kernel → ℕ → Kernel
answered k2 r = set_ret (set_status k2 r ready) r 0

reply_run :
    (k k2 : Kernel) (q : Levels) (r s : ℕ)
    → CanReply k q r s
    → make_ready (woken k r s) s ≡ some k2
    → reply_handler k r ≡ make_ready (answered k2 r) r
unfolding reply_handler
reply_run k k2 q r s c e = rw (
  c.target,
  lt→ltb s 128 c.in_range,
  c.reply_valid,
  c.length_valid,
  c.runs,
  c.waits,
  c.target_valid,
  e,
)

-- A field that neither the statuses nor the return value nor the links are.
answered_field :
    {B : Type 0} (f : Task → B)
    → ((t : Task) (st : Status) → f (record t { status = st }) ≡ f t)
    → ((t : Task) (v : ℕ) → f (record t { ret = v }) ≡ f t)
    → (k2 : Kernel) (r i : ℕ) → f ((answered k2 r).tasks i) ≡ f (k2.tasks i)
answered_field f h1 h2 k2 r i =
    let k3 = set_status k2 r ready in
    update_field f k3.tasks r (record (k3.tasks r) { ret = 0 }) i (h2 (k3.tasks r) 0)
    ∙ update_field f k2.tasks r (record (k2.tasks r) { status = ready }) i (h1 (k2.tasks r) ready)

module _ (k : Kernel) (q : Levels) (r s : ℕ) (pq1 pq2 : PriorityQueue) where
  -- The kernels after the first push, before the second and after it.
  abbrev sender_ready : Kernel
  sender_ready = record (woken k r s) {
    tasks = link_last (woken k r s).tasks (q ((woken k r s).tasks s).priority) s;
    pq_tasks = pq1;
  }

  abbrev before_last : Kernel
  before_last = answered sender_ready r

  abbrev both_ready : Kernel
  both_ready = record before_last {
    tasks = link_last before_last.tasks (queued k q s (before_last.tasks r).priority) r;
    pq_tasks = pq2;
  }

  woken_field :
      {B : Type 0} (f : Task → B)
      → ((t : Task) (st : Status) → f (record t { status = st }) ≡ f t)
      → (i : ℕ) → f ((woken k r s).tasks i) ≡ f (k.tasks i)
  woken_field f h i =
      update_field f k.tasks s (record (k.tasks s) { status = ready }) i (h (k.tasks s) ready)

  priority_same : (i : ℕ) → (before_last.tasks i).priority ≡ (k.tasks i).priority
  priority_same i =
      answered_field (λ x. x.priority) (λ t st. refl) (λ t v. refl) sender_ready r i
      ∙ link_last_field (λ x. x.priority) (λ t n. refl) (woken k r s).tasks
          (q ((woken k r s).tasks s).priority) s i
      ∙ woken_field (λ x. x.priority) (λ t st. refl) i

  last_status : (i : ℕ) → (both_ready.tasks i).status ≡ (before_last.tasks i).status
  last_status i =
      link_last_field (λ x. x.status) (λ t n. refl) before_last.tasks
        (queued k q s (before_last.tasks r).priority) r i

  first_status : (i : ℕ) → (sender_ready.tasks i).status ≡ ((woken k r s).tasks i).status
  first_status i =
      link_last_field (λ x. x.status) (λ t n. refl) (woken k r s).tasks
        (q ((woken k r s).tasks s).priority) s i

  both_same :
      CanReply k q r s
      → (i : ℕ)
      → (if r == i then ready else if s == i then ready else (k.tasks i).status)
        ≡ (if s == i then ready else (k.tasks i).status)
  both_same c i = elim (ℕ_discrete r i) [
    | yes e ↦
        rw (eq→== r i e, ne→== s i (λ d. c.apart (e ∙ sym d)))
          (sym c.runs ∙ ap (λ j. (k.tasks j).status) e)
    | no ne ↦ rw (ne→== r i ne) refl
  ]

  statuses_lem :
      CanReply k q r s
      → (i : ℕ) → (both_ready.tasks i).status ≡ (if s == i then ready else (k.tasks i).status)
  statuses_lem c i =
      let k3 = set_status sender_ready r ready in
      let a = update_field (λ x. x.status) k3.tasks r (record (k3.tasks r) { ret = 0 }) i refl in
      let b =
        update_any (λ x. x.status) sender_ready.tasks r
          (record (sender_ready.tasks r) { status = ready }) i in
      let d = update_any (λ x. x.status) k.tasks s (record (k.tasks s) { status = ready }) i in
      last_status i
      ∙ a
      ∙ b
      ∙ ap (λ z. if r == i then ready else z) (first_status i ∙ d)
      ∙ both_same c i

  returns_lem : (i : ℕ) → (both_ready.tasks i).ret ≡ (if r == i then 0 else (k.tasks i).ret)
  returns_lem i =
      let k3 = set_status sender_ready r ready in
      link_last_field (λ x. x.ret) (λ t n. refl) before_last.tasks
        (queued k q s (before_last.tasks r).priority) r i
      ∙ update_any (λ x. x.ret) k3.tasks r (record (k3.tasks r) { ret = 0 }) i
      ∙ ap (λ z. if r == i then 0 else z)
          (update_field (λ x. x.ret) sender_ready.tasks r
              (record (sender_ready.tasks r) { status = ready }) i refl
            ∙ link_last_field (λ x. x.ret) (λ t n. refl) (woken k r s).tasks
                (q ((woken k r s).tasks s).priority) s i
            ∙ woken_field (λ x. x.ret) (λ t st. refl) i)

-- When the task `r`, which runs, replies to `s`, which waits for the reply, with arguments that
-- pass the checks and both fit to be queued, the handler returns: the reply is copied to the
-- sender's buffer, `s` and then `r` are ready behind the tasks of their priorities, no other
-- status changes, and only `r`'s return value is set, to 0.
pub reply_lem :
    (k : Kernel) (q : Levels) (r s : ℕ)
    → CanReply k q r s
    → (k' : Kernel) × (reply_handler k r ≡ some k') × Replied k k' q r s
reply_lem k q r s c =
    let k0 = woken k r s in
    let e0 = woken_field k q r s k.pq_tasks k.pq_tasks (λ x. x.priority) (λ t st. refl) in
    let next0 = woken_field k q r s k.pq_tasks k.pq_tasks (λ x. x.next) (λ t st. refl) in
    let cs' = c.can_sender in
    let cr = c.can_receiver in
    let (pq1, run1, o1) =
      ready_step k k0 q s e0 (IsReady-next k.tasks k0.tasks k.pq_tasks q next0 cs'.order)
        cs'.level_ok cs'.absent cs'.room in
    let k2 = sender_ready k q r s pq1 pq1 in
    let k3 = before_last k q r s pq1 pq1 in
    let next3 = answered_field (λ x. x.next) (λ t st. refl) (λ t v. refl) k2 r in
    let (pq2, run2, o2) =
      ready_step k k3 (queued k q s) r (priority_same k q r s pq1 pq1)
        (IsReady-next k2.tasks k3.tasks pq1 (queued k q s) next3 o1) cr.level_ok
        (queued_absent k q r s c.apart cr.absent) (rw (total-queued k q s cs'.level_ok) c.room) in
    (
      both_ready k q r s pq1 pq2,
      reply_run k k2 q r s c run1 ∙ run2,
      record {
        memory = refl;
        statuses = statuses_lem k q r s pq1 pq2 c;
        returns = returns_lem k q r s pq1 pq2;
        order = o2;
      },
    )
