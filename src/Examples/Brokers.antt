-- ===== src/Examples/Brokers.antt =====
-- The theorems on pkg/pubsub at concrete brokers.
use tidegauge_backend.Prelude.{
  ℕ, List, [], ◌∷◌, ◌++◌, ◌+◌, true, false, ◌&&◌, none, some, ◌≡◌, refl, ◌⊎◌, ◌≤◌, ◌==◌, nat_keys,
  contains, lookup, arith, All, Distinct,
}
use tidegauge_backend.PubSub.{Broker, publish, restrict_topics}
use tidegauge_backend.PubSub.Delivery.{seat, promise, publish-promise}
use tidegauge_backend.PubSub.Restrict.{lists, hears, restrict_topics-lists, publish-restrict_topics}
use tidegauge_backend.PubSub.Seats.{
  Call, subscribes, restricts, unsubscribes, publishes, run_calls, all_seen, seat-run_calls,
}
use tidegauge_backend.PubSub.Delayed.{
  Scheduled, locking, outside, waking, Delayed, idle_wait, new_delayed_broker, pass, arm_idle,
  arm_head, fire, take_head, hand_over, call_idle, wake, append, Reach, here, next,
}
use tidegauge_backend.PubSub.Delayed.Timing.{delivered-OnTime}
use tidegauge_backend.PubSub.Delayed.Order.{sent, behind, delivered-in_order}
use tidegauge_backend.PubSub.Delayed.Hang.{hung, publish_may_hang}

-- Subscriber 1 listens to 7 and 8, subscriber 2 to all; each has room for one message.
abbrev two_listeners : Broker ℕ ℕ
two_listeners = record {
  subscriptions = (1, some (7 ∷ 8 ∷ [])) ∷ (2, none) ∷ [];
  heap = λ k. record { waiting = []; buffer = 1; cancelled = false };
}

two_listeners-Distinct : Distinct two_listeners.subscriptions
two_listeners-Distinct = (refl, (refl, tt))

publish-promise_example :
    seat (publish 5 (some 7) two_listeners) 1 ≡ promise 5 (some 7) (seat two_listeners 1)
publish-promise_example = publish-promise 5 (some 7) two_listeners 1 two_listeners-Distinct

publish-restrict_topics_example :
    seat (publish 5 (some 7) (restrict_topics 1 (some (8 ∷ [])) two_listeners)) 1 ≡ record {
      subscriber = two_listeners.heap 1;
      entry = lookup 1 (restrict_topics 1 (some (8 ∷ [])) two_listeners).subscriptions;
    }
publish-restrict_topics_example =
    publish-restrict_topics 5 7 1 (8 ∷ []) two_listeners two_listeners-Distinct refl

restrict_topics-lists_example :
    ((t : ℕ)
      → hears t (lookup 1 (restrict_topics 1 (some (8 ∷ [])) two_listeners).subscriptions)
        ≡ (lists t (lookup 1 two_listeners.subscriptions) && contains t (8 ∷ [])))
    × ((j : ℕ)
        → ((1 == j) ≡ true)
          ⊎ (lookup j (restrict_topics 1 (some (8 ∷ [])) two_listeners).subscriptions
              ≡ lookup j two_listeners.subscriptions))
restrict_topics-lists_example = restrict_topics-lists 1 (8 ∷ []) two_listeners

abbrev some_calls : List (Call ℕ ℕ)
some_calls =
    subscribes 3 (some (9 ∷ []))
    ∷ publishes 5 (some 9)
    ∷ publishes 6 none
    ∷ restricts 2 (some [])
    ∷ unsubscribes 3
    ∷ []

seat-run_calls_example :
    seat (run_calls some_calls two_listeners) 2 ≡ all_seen 2 some_calls (seat two_listeners 2)
seat-run_calls_example = seat-run_calls some_calls 2 two_listeners two_listeners-Distinct

-- One message with the delay 2: the loop idles, is woken, waits, and hands the message over.
abbrev one : Scheduled ℕ ℕ
one = record { topic = some 7; message = 5; publish_at = 2 }

abbrev handed_over : Delayed ℕ ℕ
handed_over = record {
  now = 2;
  queue = [];
  loop_at = locking;
  caller = outside;
  todo = [];
  delivered = (one, 2) ∷ [];
}

one_run : Reach 2 (new_delayed_broker 0 ((5, some 7) ∷ [])) handed_over
one_run =
    next
      (next
        (next
          (next
            (next
              (next
                (next
                  (next (next here (arm_idle refl refl refl refl))
                    (call_idle 5 (some 7) [] refl refl refl refl))
                  (wake 5 (some 7) (0 + idle_wait) refl refl refl))
                (append 5 (some 7) refl refl))
              (arm_head one [] refl refl refl refl))
            (pass 2 refl))
          (fire 2 refl (omega arith) refl))
        (take_head one [] refl refl refl refl))
      (hand_over one refl refl)

delivered-OnTime_example :
    All (λ (p : Scheduled ℕ ℕ × ℕ). p.0.publish_at ≤ p.1) handed_over.delivered
delivered-OnTime_example = delivered-OnTime 2 0 ((5, some 7) ∷ []) one_run

delivered-in_order_example : sent handed_over ++ behind handed_over ≡ (5, some 7) ∷ []
delivered-in_order_example = delivered-in_order 2 0 ((5, some 7) ∷ []) one_run

abbrev begun : Delayed ℕ ℕ
begun = new_delayed_broker 0 ((5, some 7) ∷ [])

abbrev stuck : Delayed ℕ ℕ
stuck = hung 2 5 (some 7) [] 0

abbrev later_still : Delayed ℕ ℕ
later_still = record stuck { now = 3 }

publish_may_hang_example :
    Reach 2 begun stuck
    × (later_still.caller ≡ waking 5 (some 7))
    × (later_still.delivered ≡ [])
    × (later_still.todo ≡ [])
publish_may_hang_example = publish_may_hang 2 5 (some 7) [] 0 later_still (next here (pass 3 refl))
