-- ===== src/PubSub/Delayed/Timing.antt =====
-- No message of the delayed broker is delivered early.
use tidegauge_backend.Prelude.{
  ℕ, ◌+◌, ◌≤◌, ◌≡◌, refl, Option, List, [], ◌∷◌, ◌++◌, arith, All, All-append, ◌≢◌,
}
use mathlib.Core.Path.{subst, subst₂}
use tidegauge_backend.PubSub.Delayed.{
  Scheduled, LoopAt, locking, selecting, fired, publishing, CallerAt, outside, waking, appending,
  Delayed, new_delayed_broker, Step, pass, arm_idle, arm_head, fire, take_none, take_head,
  hand_over, call_idle, call_busy, wake, append, Reach, here, next,
}

abbrev Due : {M T : Type 0} → ℕ → List (Scheduled M T) → Type 0
Due d [] = Unit
Due d (h ∷ rest) = h.publish_at ≤ d

abbrev LoopDue : {M T : Type 0} → LoopAt M T → ℕ → List (Scheduled M T) → Type 0
LoopDue locking now q = Unit
LoopDue (selecting d) now q = Due d q
LoopDue fired now q = Due now q
LoopDue (publishing h) now q = h.publish_at ≤ now

abbrev Quiet : {M T : Type 0} → CallerAt M T → LoopAt M T → Type 0
Quiet outside l = Unit
Quiet (waking m topic) l = Unit
Quiet (appending m topic) l = l ≡ locking

abbrev OnTime : {M T : Type 0} → Scheduled M T × ℕ → Type 0
OnTime p = p.0.publish_at ≤ p.1

record IsTimely {M T : Type 0} (s : Delayed M T) : Type 0 where
  due : LoopDue s.loop_at s.now s.queue
  quiet : Quiet s.caller s.loop_at
  on_time : All OnTime s.delivered

module _ {M T : Type 0} where
  Due-later : (q : List (Scheduled M T)) (a b : ℕ) → a ≤ b → Due a q → Due b q
  Due-later [] a b h d = tt
  Due-later (x ∷ q) a b h d = omega arith

  LoopDue-later :
      (l : LoopAt M T) (now n : ℕ) (q : List (Scheduled M T))
      → LoopDue l now q
      → LoopDue l (now + n) q
  LoopDue-later locking now n q h = tt
  LoopDue-later (selecting d) now n q h = h
  LoopDue-later fired now n q h = Due-later q now (now + n) (omega arith) h
  LoopDue-later (publishing x) now n q h = omega arith

  -- One more entry behind a head leaves the head.
  LoopDue-append :
      (l : LoopAt M T) (now : ℕ) (h x : Scheduled M T) (q : List (Scheduled M T))
      → LoopDue l now (h ∷ q)
      → LoopDue l now (h ∷ q ++ x ∷ [])
  LoopDue-append locking now h x q d = tt
  LoopDue-append (selecting t) now h x q d = d
  LoopDue-append fired now h x q d = d
  LoopDue-append (publishing y) now h x q d = d

  LoopDue-fire :
      (l : LoopAt M T) (now d : ℕ) (q : List (Scheduled M T))
      → l ≡ selecting d
      → d ≤ now
      → LoopDue l now q
      → Due now q
  LoopDue-fire l now d q e h due =
      Due-later q d now h (subst (λ (x : LoopAt M T). LoopDue x now q) e due)

  -- While an entry is appended the loop waits for the lock, and nowhere else.
  Quiet-elsewhere : (c : CallerAt M T) (l l' : LoopAt M T) → l ≢ locking → Quiet c l → Quiet c l'
  Quiet-elsewhere outside l l' n h = tt
  Quiet-elsewhere (waking m topic) l l' n h = tt
  Quiet-elsewhere (appending m topic) l l' n h = absurd (n h)

module _ {M T : Type 0} (delay : ℕ) where
  Step-IsTimely : {s t : Delayed M T} → Step delay s t → IsTimely s → IsTimely t
  Step-IsTimely {s} (pass n e) h = rw e (record {
    due = LoopDue-later s.loop_at s.now n s.queue h.due;
    quiet = h.quiet;
    on_time = h.on_time;
  })
  Step-IsTimely {s} (arm_idle l c q e) h =
      rw e (record { due = rw q tt; quiet = rw c tt; on_time = h.on_time })
  Step-IsTimely {s} (arm_head x rest l c q e) h =
      rw e (record { due = rw q (omega arith); quiet = rw c tt; on_time = h.on_time })
  Step-IsTimely {s} (fire d l le e) h = rw e (record {
    due = LoopDue-fire s.loop_at s.now d s.queue l le h.due;
    quiet = Quiet-elsewhere s.caller s.loop_at fired (λ k. cc) h.quiet;
    on_time = h.on_time;
  })
  Step-IsTimely {s} (take_none l c q e) h =
      rw e (record { due = tt; quiet = rw c tt; on_time = h.on_time })
  Step-IsTimely {s} (take_head x rest l c q e) h =
      rw e (record { due = subst₂ LoopDue' l q h.due; quiet = rw c tt; on_time = h.on_time })
    where
      LoopDue' : LoopAt M T → List (Scheduled M T) → Type 0
      LoopDue' a b = LoopDue a s.now b
  Step-IsTimely {s} (hand_over x l e) h = rw e (record {
    due = tt;
    quiet = Quiet-elsewhere s.caller s.loop_at locking (λ k. cc) h.quiet;
    on_time =
        All-append OnTime s.delivered ((x, s.now) ∷ []) h.on_time
          (subst (λ (a : LoopAt M T). LoopDue a s.now s.queue) l h.due, tt);
  })
  Step-IsTimely {s} (call_idle m topic rest c td q e) h =
      rw e (record { due = h.due; quiet = tt; on_time = h.on_time })
  Step-IsTimely {s} (call_busy m topic rest x q c td qq e) h = rw e (record {
    due = rw qq (
        LoopDue-append s.loop_at s.now x
          (record { topic = topic; message = m; publish_at = s.now + delay }) q
          (subst (λ (b : List (Scheduled M T)). LoopDue s.loop_at s.now b) qq h.due));
    quiet = h.quiet;
    on_time = h.on_time;
  })
  Step-IsTimely {s} (wake m topic d c l e) h =
      rw e (record { due = tt; quiet = refl; on_time = h.on_time })
  Step-IsTimely {s} (append m topic c e) h = rw e (record {
    due = rw (subst (λ (a : CallerAt M T). Quiet a s.loop_at) c h.quiet) tt;
    quiet = tt;
    on_time = h.on_time;
  })

  Reach-IsTimely : {s t : Delayed M T} → IsTimely s → Reach delay s t → IsTimely t
  Reach-IsTimely h here = h
  Reach-IsTimely h (next r st) = Step-IsTimely st (Reach-IsTimely h r)

  -- In every interleaving from a new broker, no message is handed to the inner broker before the time
  -- that it was scheduled for.
  pub delivered-OnTime :
      (now : ℕ) (todo : List (M × Option T)) {s : Delayed M T}
      → Reach delay (new_delayed_broker now todo) s
      → All (λ (p : Scheduled M T × ℕ). p.0.publish_at ≤ p.1) s.delivered
  delivered-OnTime now todo r =
      (Reach-IsTimely (record { due = tt; quiet = tt; on_time = tt }) r).on_time
