-- ===== src/Kernel/Msg/Deliver.antt =====
-- What `deliver` does, from any kernel that is like the one in which the message was sent.
use cs.Base.{
  ℕ, ◌≡◌, ◌≢◌, refl, sym, ◌∙◌, subst, some, [], ◌∷◌, ◌++◌, true, false, ◌==◌, eq→==, ne→==,
}
use cs.Task.{ready, rpl_bl}
use cs.TaskQueue.Refine.{link_last}
use cs.ReadyQueue.{PriorityQueue}
use cs.ReadyQueue.Levels.{Levels, with_level, IsReady}
use cs.Kernel.Bytes.{store, copy}
use cs.Kernel.{Kernel, arg, set_status, make_ready, is_valid_user_p}
use cs.Kernel.Frame.{
  Alike, update_field, arg_same, IsReady-next, link_last_field, CanQueue, queued, make_ready_lem,
}
use cs.Kernel.Msg.{deliver, valid_length}

-- The arguments of a Send by `s` and a Receive by `r` pass the checks.
pub record CanDeliver (k : Kernel) (s r : ℕ) : Type 0 where
  pub smsg_set : (arg k s 8 == 0) ≡ false
  pub smsg_valid : is_valid_user_p (k.tasks s).tid (arg k s 8) ≡ true
  pub length_valid : valid_length (arg k s 12) ≡ true
  pub rtid_valid : is_valid_user_p (k.tasks r).tid (arg k r 4) ≡ true
  pub rmsg_valid : is_valid_user_p (k.tasks r).tid (arg k r 8) ≡ true
  pub rmsg_set : (arg k r 8 == 0) ≡ false

-- The memory once the message and the sender's tid have gone over.
abbrev pub message_mem : Kernel → ℕ → ℕ → ℕ → ℕ
message_mem k s r =
    store (copy (arg k s 12) 0 k.mem (arg k r 8) (arg k s 8)) (arg k r 4) (k.tasks s).tid

CanDeliver-Alike : {k k' : Kernel} {s r : ℕ} → Alike k k' → CanDeliver k s r → CanDeliver k' s r
CanDeliver-Alike {k} {k'} {s} {r} a c = record {
  smsg_set = rw (arg_same a s 8) c.smsg_set;
  smsg_valid = rw (a.tid_same s, arg_same a s 8) c.smsg_valid;
  length_valid = rw (arg_same a s 12) c.length_valid;
  rtid_valid = rw (a.tid_same r, arg_same a r 4) c.rtid_valid;
  rmsg_valid = rw (a.tid_same r, arg_same a r 8) c.rmsg_valid;
  rmsg_set = rw (arg_same a r 8) c.rmsg_set;
}

-- The kernel in which the receiver is about to be made ready.
abbrev loaded : Kernel → ℕ → ℕ → Kernel
loaded k s r = set_status (record k { mem = message_mem k s r }) r ready

deliver_run :
    (k k' : Kernel) (s r : ℕ)
    → CanDeliver k s r
    → make_ready (loaded k s r) r ≡ some k'
    → deliver k s r ≡ some (set_status k' s rpl_bl)
unfolding deliver
deliver_run k k' s r c e =
    rw (c.smsg_set, c.smsg_valid, c.length_valid, c.rtid_valid, c.rmsg_valid, c.rmsg_set, e)

-- What has changed when a message has been delivered.
pub record Delivered (k k1 k2 : Kernel) (q : Levels) (s r : ℕ) : Type 0 where
  pub memory : k2.mem ≡ message_mem k s r
  pub receiver_ready : (k2.tasks r).status ≡ ready
  pub sender_waits : (k2.tasks s).status ≡ rpl_bl
  pub others : (i : ℕ) → i ≢ s → i ≢ r → (k2.tasks i).status ≡ (k1.tasks i).status
  pub returns : (i : ℕ) → (k2.tasks i).ret ≡ (k1.tasks i).ret
  pub order : IsReady k2.tasks k2.pq_tasks (queued k q r)

-- The receiver can be made ready in the loaded kernel too.
loaded-CanQueue :
    (k k1 : Kernel) (q : Levels) (s r : ℕ)
    → Alike k k1
    → CanQueue k q r
    → CanQueue (loaded k1 s r) q r
loaded-CanQueue k k1 q s r a can =
    let t = record (k1.tasks r) { status = ready } in
    record {
      order =
          subst (λ pq. IsReady (loaded k1 s r).tasks pq q) (sym a.pq_same)
            (IsReady-next k.tasks (loaded k1 s r).tasks k.pq_tasks q
              (λ i. update_field (λ x. x.next) k1.tasks r t i refl ∙ a.next_same i) can.order);
      level_ok =
          rw (update_field (λ x. x.priority) k1.tasks r t r refl ∙ a.priority_same r) can.level_ok;
      absent = can.absent;
      room = can.room;
    }

module _ (k k1 : Kernel) (q : Levels) (s r : ℕ) (pq : PriorityQueue) (alike : Alike k k1)
    (apart : r ≢ s) where
  abbrev after_push : Kernel
  after_push = record (loaded k1 s r) {
    tasks = link_last (loaded k1 s r).tasks (q ((loaded k1 s r).tasks r).priority) r;
    pq_tasks = pq;
  }

  pushed_status : (i : ℕ) → (after_push.tasks i).status ≡ ((loaded k1 s r).tasks i).status
  pushed_status i =
      link_last_field (λ x. x.status) (λ t n. refl) (loaded k1 s r).tasks
        (q ((loaded k1 s r).tasks r).priority) r i

  level_same : ((loaded k1 s r).tasks r).priority ≡ (k.tasks r).priority
  level_same =
      update_field (λ x. x.priority) k1.tasks r (record (k1.tasks r) { status = ready }) r refl
      ∙ alike.priority_same r

  delivered :
      IsReady after_push.tasks pq (queued (loaded k1 s r) q r)
      → Delivered k k1 (set_status after_push s rpl_bl) q s r
  delivered order =
      let last = record (after_push.tasks s) { status = rpl_bl } in
      record {
        memory = rw (alike.mem_same, alike.sp_same s, alike.sp_same r, alike.tid_same s);
        receiver_ready =
            rw (ne→== s r (λ e. apart (sym e))) (pushed_status r ∙ rw (eq→== r r refl));
        sender_waits = rw (eq→== s s refl);
        others = λ i n1 n2.
            rw (ne→== s i (λ e. n1 (sym e))) (pushed_status i ∙ rw (ne→== r i (λ e. n2 (sym e))));
        returns = λ i.
            update_field (λ x. x.ret) after_push.tasks s last i refl
            ∙ link_last_field (λ x. x.ret) (λ t n. refl) (loaded k1 s r).tasks
                (q ((loaded k1 s r).tasks r).priority) r i
            ∙ update_field (λ x. x.ret) k1.tasks r (record (k1.tasks r) { status = ready }) i refl;
        order =
            subst
              (λ p.
                IsReady (set_status after_push s rpl_bl).tasks pq
                  (with_level q p (q p ++ (r ∷ []))))
              level_same
              (IsReady-next after_push.tasks (set_status after_push s rpl_bl).tasks pq
                (queued (loaded k1 s r) q r)
                (λ i. update_field (λ x. x.next) after_push.tasks s last i refl) order);
      }

-- `deliver` succeeds, and its effect is told by the kernel in which the message was sent.
pub deliver_lem :
    (k k1 : Kernel) (q : Levels) (s r : ℕ)
    → Alike k k1
    → CanDeliver k s r
    → CanQueue k q r
    → r ≢ s
    → (k2 : Kernel) × (deliver k1 s r ≡ some k2) × Delivered k k1 k2 q s r
deliver_lem k k1 q s r a c can ne =
    let (pq, run, order) = make_ready_lem (loaded k1 s r) q r (loaded-CanQueue k k1 q s r a can) in
    (
      set_status (after_push k k1 q s r pq a ne) s rpl_bl,
      deliver_run k1 (after_push k k1 q s r pq a ne) s r (CanDeliver-Alike a c) run,
      delivered k k1 q s r pq a ne order,
    )
