-- ===== src/PubSub/Delayed.antt =====
-- pkg/pubsub/pubsub.go: `DelayedBroker` with a delay above 0, as the interleavings of the dispatch
-- loop with one goroutine that calls `Publish` again and again. A stretch under the mutex with no
-- blocking operation inside is one step. The mutex is held between two steps only by a `Publish` that
-- has found the queue empty; it blocks on `wakeCh` until the loop stands in its `select`.
pub mod Timing
pub mod Order
pub mod Hang
use tidegauge_backend.Prelude.{ℕ, ◌+◌, ◌*◌, ◌≤◌, ◌≡◌, Option, List, [], ◌∷◌, ◌++◌}

pub record Scheduled (M T : Type 0) : Type 0 where
  pub topic : Option T
  pub message : M
  pub publish_at : ℕ

-- Where the loop stands: before the lock at its head, in the `select` with the timer set, behind the
-- receive from the timer and before the lock, or between the unlock and `broker.Publish`.
pub data LoopAt (M T : Type 0) : Type 0 where
  locking : LoopAt M T
  selecting : ℕ → LoopAt M T
  fired : LoopAt M T
  publishing : Scheduled M T → LoopAt M T

-- Where the caller stands: outside `Publish`, blocked on `wakeCh` with the mutex held, or behind it.
pub data CallerAt (M T : Type 0) : Type 0 where
  outside : CallerAt M T
  waking : M → Option T → CallerAt M T
  appending : M → Option T → CallerAt M T

-- Times in nanoseconds on the monotonic clock.
pub record Delayed (M T : Type 0) : Type 0 where
  pub now : ℕ
  pub queue : List (Scheduled M T)
  pub loop_at : LoopAt M T
  pub caller : CallerAt M T
  pub todo : List (M × Option T)
  pub delivered : List (Scheduled M T × ℕ)

-- 100000 hours.
abbrev pub idle_wait : ℕ
idle_wait = 100000 * 3600000000000

abbrev pub new_delayed_broker : {M T : Type 0} → ℕ → List (M × Option T) → Delayed M T
new_delayed_broker now todo = record {
  now = now;
  queue = [];
  loop_at = locking;
  caller = outside;
  todo = todo;
  delivered = [];
}

module _ {M T : Type 0} (delay : ℕ) where
  abbrev pub enqueue : M → Option T → Delayed M T → List (Scheduled M T)
  enqueue m topic s =
      s.queue ++ (record { topic = topic; message = m; publish_at = s.now + delay }) ∷ []

  pub data Step (s t : Delayed M T) : Type 0 where
    pass : (n : ℕ) → t ≡ record s { now = s.now + n } → Step s t
    arm_idle :
        s.loop_at ≡ locking
        → s.caller ≡ outside
        → s.queue ≡ []
        → t ≡ record s { loop_at = selecting (s.now + idle_wait) }
        → Step s t
    arm_head :
        (h : Scheduled M T) (rest : List (Scheduled M T))
        → s.loop_at ≡ locking
        → s.caller ≡ outside
        → s.queue ≡ h ∷ rest
        → t ≡ record s { loop_at = selecting h.publish_at }
        → Step s t
    fire :
        (d : ℕ) → s.loop_at ≡ selecting d → d ≤ s.now → t ≡ record s { loop_at = fired } → Step s t
    take_none :
        s.loop_at ≡ fired
        → s.caller ≡ outside
        → s.queue ≡ []
        → t ≡ record s { loop_at = locking }
        → Step s t
    take_head :
        (h : Scheduled M T) (rest : List (Scheduled M T))
        → s.loop_at ≡ fired
        → s.caller ≡ outside
        → s.queue ≡ h ∷ rest
        → t ≡ record s { loop_at = publishing h; queue = rest }
        → Step s t
    hand_over :
        (h : Scheduled M T)
        → s.loop_at ≡ publishing h
        → t ≡ record s { loop_at = locking; delivered = s.delivered ++ (h, s.now) ∷ [] }
        → Step s t
    call_idle :
        (m : M) (topic : Option T) (rest : List (M × Option T))
        → s.caller ≡ outside
        → s.todo ≡ (m, topic) ∷ rest
        → s.queue ≡ []
        → t ≡ record s { caller = waking m topic; todo = rest }
        → Step s t
    call_busy :
        (m : M) (topic : Option T) (rest : List (M × Option T)) (h : Scheduled M T)
        (q : List (Scheduled M T))
        → s.caller ≡ outside
        → s.todo ≡ (m, topic) ∷ rest
        → s.queue ≡ h ∷ q
        → t ≡ record s { queue = enqueue m topic s; todo = rest }
        → Step s t
    wake :
        (m : M) (topic : Option T) (d : ℕ)
        → s.caller ≡ waking m topic
        → s.loop_at ≡ selecting d
        → t ≡ record s { caller = appending m topic; loop_at = locking }
        → Step s t
    append :
        (m : M) (topic : Option T)
        → s.caller ≡ appending m topic
        → t ≡ record s { caller = outside; queue = enqueue m topic s }
        → Step s t

  pub data Reach (s : Delayed M T) : Delayed M T → Type 0 where
    here : Reach s s
    next : {t u : Delayed M T} → Reach s t → Step t u → Reach s u
