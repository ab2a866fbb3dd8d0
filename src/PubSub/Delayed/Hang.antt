-- ===== src/PubSub/Delayed/Hang.antt =====
-- `Publish` of the delayed broker sends on `wakeCh` with the mutex held, and the loop takes the same
-- mutex before it receives: met at the wrong moment the two wait for one another.
use tidegauge_backend.Prelude.{ℕ, ◌≡◌, refl, Option, List, [], ◌∷◌}
use tidegauge_backend.PubSub.Delayed.{
  locking, waking, Delayed, new_delayed_broker, Step, pass, arm_idle, arm_head, fire, take_none,
  take_head, hand_over, call_idle, call_busy, wake, append, Reach, here, next,
}

-- The caller waits for the loop, and the loop for the lock.
record IsHung {M T : Type 0} (m : M) (topic : Option T) (todo : List (M × Option T))
    (s : Delayed M T) : Type 0 where
  caller : s.caller ≡ waking m topic
  loop_at : s.loop_at ≡ locking
  delivered : s.delivered ≡ []
  todo_left : s.todo ≡ todo

module _ {M T : Type 0} (delay : ℕ) (m : M) (topic : Option T) (todo : List (M × Option T)) where
  Step-IsHung : {s t : Delayed M T} → Step delay s t → IsHung m topic todo s → IsHung m topic todo t
  Step-IsHung (pass n e) h = rw e (record {
    caller = h.caller;
    loop_at = h.loop_at;
    delivered = h.delivered;
    todo_left = h.todo_left;
  })
  Step-IsHung (arm_idle l c q e) h = absurd (cc (c, h.caller))
  Step-IsHung (arm_head x rest l c q e) h = absurd (cc (c, h.caller))
  Step-IsHung (fire d l le e) h = absurd (cc (l, h.loop_at))
  Step-IsHung (take_none l c q e) h = absurd (cc (c, h.caller))
  Step-IsHung (take_head x rest l c q e) h = absurd (cc (c, h.caller))
  Step-IsHung (hand_over x l e) h = absurd (cc (l, h.loop_at))
  Step-IsHung (call_idle n u rest c td q e) h = absurd (cc (c, h.caller))
  Step-IsHung (call_busy n u rest x q c td qq e) h = absurd (cc (c, h.caller))
  Step-IsHung (wake n u d c l e) h = absurd (cc (l, h.loop_at))
  Step-IsHung (append n u c e) h = absurd (cc (c, h.caller))

  Reach-IsHung :
      {s t : Delayed M T} → IsHung m topic todo s → Reach delay s t → IsHung m topic todo t
  Reach-IsHung h here = h
  Reach-IsHung h (next r st) = Step-IsHung st (Reach-IsHung h r)

  abbrev pub hung : ℕ → Delayed M T
  hung now = record {
    now = now;
    queue = [];
    loop_at = locking;
    caller = waking m topic;
    todo = todo;
    delivered = [];
  }

  -- A new broker whose `Publish` comes before the loop's first lock reaches a state from which, in
  -- every interleaving, that call never returns and no message is ever delivered.
  pub publish_may_hang :
      (now : ℕ) (t : Delayed M T)
      → Reach delay (hung now) t
      → Reach delay (new_delayed_broker now ((m, topic) ∷ todo)) (hung now)
        × (t.caller ≡ waking m topic)
        × (t.delivered ≡ [])
        × (t.todo ≡ todo)
  publish_may_hang now t r =
      let h =
        Reach-IsHung (record { caller = refl; loop_at = refl; delivered = refl; todo_left = refl })
          r in
      (next here (call_idle m topic todo refl refl refl refl), h.caller, h.delivered, h.todo_left)
