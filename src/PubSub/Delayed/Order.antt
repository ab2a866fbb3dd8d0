-- ===== src/PubSub/Delayed/Order.antt =====
-- The delayed broker neither loses nor reorders messages.
use tidegauge_backend.Prelude.{
  ℕ, ◌≡◌, refl, Option, List, [], ◌∷◌, ◌++◌, map, append_assoc, map-append, ◌∙◌,
}
use tidegauge_backend.PubSub.Delayed.{
  Scheduled, LoopAt, locking, selecting, fired, publishing, CallerAt, outside, waking, appending,
  Delayed, new_delayed_broker, Step, pass, arm_idle, arm_head, fire, take_none, take_head,
  hand_over, call_idle, call_busy, wake, append, Reach, here, next,
}

module _ {M T : Type 0} where
  abbrev pub call_of : Scheduled M T → M × Option T
  call_of x = (x.message, x.topic)

  abbrev pub in_hand : LoopAt M T → List (M × Option T)
  in_hand (publishing x) = call_of x ∷ []
  in_hand locking = []
  in_hand (selecting d) = []
  in_hand fired = []

  abbrev pub in_call : CallerAt M T → List (M × Option T)
  in_call outside = []
  in_call (waking m topic) = (m, topic) ∷ []
  in_call (appending m topic) = (m, topic) ∷ []

  abbrev pub sent : Delayed M T → List (M × Option T)
  sent s = map (λ (p : Scheduled M T × ℕ). call_of p.0) s.delivered

  abbrev pub behind : Delayed M T → List (M × Option T)
  behind s = in_hand s.loop_at ++ (map call_of s.queue ++ (in_call s.caller ++ s.todo))

module _ {M T : Type 0} (delay : ℕ) where
  Step-line : {s t : Delayed M T} → Step delay s t → sent t ++ behind t ≡ sent s ++ behind s
  Step-line (pass n e) = rw e
  Step-line (arm_idle l c q e) = rw (e, l)
  Step-line (arm_head x rest l c q e) = rw (e, l)
  Step-line (fire d l le e) = rw (e, l)
  Step-line (take_none l c q e) = rw (e, l)
  Step-line (take_head x rest l c q e) = rw (e, l, q)
  Step-line (hand_over x l e) = rw (e, l) (simp (map-append, append_assoc))
  Step-line (call_idle m topic rest c td q e) = rw (e, c, td, q)
  Step-line (call_busy m topic rest x q c td qq e) =
      rw (e, c, td, qq) (simp (map-append, append_assoc))
  Step-line (wake m topic d c l e) = rw (e, c, l)
  Step-line (append m topic c e) = rw (e, c) (simp (map-append, append_assoc))

  -- In every interleaving from a new broker, the messages handed over, then the one in the loop's
  -- hand, then those that are queued, then the one of the running call and those of the calls to come,
  -- are the messages of the calls in the order of the calls: none is lost, repeated or overtaken.
  pub delivered-in_order :
      (now : ℕ) (todo : List (M × Option T)) {s : Delayed M T}
      → Reach delay (new_delayed_broker now todo) s
      → sent s ++ behind s ≡ todo
  delivered-in_order now todo here = refl
  delivered-in_order now todo (next r st) = Step-line st ∙ delivered-in_order now todo r
