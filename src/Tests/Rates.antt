-- ===== src/Tests/Rates.antt =====
-- Queues, token buckets, the frequency limit, and messages on the wire.
use swarm_ros_bridge.Common.{
  ℕ, zero, suc, pos, ◌+◌, ◌-◌, true, false, some, List, [], ◌∷◌, ◌≡◌, ◌↔◌, refl, get_or, arith,
  Bytes, length,
}
use swarm_ros_bridge.Double.{add, mul, div, le, of_size, nought}
use swarm_ros_bridge.Double.Micros.{Micros, micros_double, Micros-IsOrdered, Micros-IsExact}
use swarm_ros_bridge.World.{World, SendControl, control}
use swarm_ros_bridge.SendQueue.{enqueue_send_message, max_queue_bytes}
use swarm_ros_bridge.SendQueue.Bounds.{IsCounted, Pushed, queue_limit, enqueue_send_message-Pushed}
use swarm_ros_bridge.SendThread.{
  Bucket, send_round, start_bucket, elapsed, base_bucket_capacity, send_func, takes,
}
use swarm_ros_bridge.SendThread.Rounds.{Took, send_round-Took}
use swarm_ros_bridge.SendThread.Tokens.{
  total_released, total_earned, final_bucket, total_released-le,
}
use swarm_ros_bridge.SendThread.Stale.{latest_goes_stale}
use swarm_ros_bridge.Dispatch.{dispatch_send_message}
use swarm_ros_bridge.Bridge.Frequency.{
  send_freq_control, after_run, fresh, kept, send_freq_control-rate,
}
use swarm_ros_bridge.Bridge.Wire.{Packing, IsPacking}
use swarm_ros_bridge.Tests.Data.{msg, seconds, at, idle_world, held_world, control_of}
use swarm_ros_bridge.Tests.Faults.{held_world-IsOpen}

pub idle_queue-IsCounted : IsCounted (control idle_world 1)
idle_queue-IsCounted = record { counted = refl; short = omega arith }

queue_room : queue_limit idle_world 1 (msg 3) ≡ 200
unfolding max_queue_bytes
queue_room = refl

enqueue_send_message-Pushed_example :
    Pushed
      (queue_limit idle_world 1 (msg 3))
      (msg 3)
      (control idle_world 1)
      (control (enqueue_send_message 1 (msg 3) idle_world) 1)
    × (control (enqueue_send_message 1 (msg 3) idle_world) 0 ≡ control idle_world 0)
enqueue_send_message-Pushed_example =
    enqueue_send_message-Pushed idle_world 1 0 (msg 3) (omega arith) (omega arith)
      idle_queue-IsCounted (omega (arith, queue_room)) (omega arith)

-- A kilobyte a second; the queue of the two messages at each of three wake-ups.
abbrev rounds : List (ℕ × SendControl)
rounds =
    (at 1, control_of (msg 1 ∷ msg 2 ∷ []) 2)
    ∷ (at 2, control_of (msg 2 ∷ []) 1)
    ∷ (at 3, control_of [] 0)
    ∷ []

total_released-le_example :
    (le (total_released (seconds 1000) rounds (start_bucket (seconds 1000) (at 0))) (
        add
          (base_bucket_capacity (seconds 1000))
          (total_earned (seconds 1000) rounds (start_bucket (seconds 1000) (at 0))))
      ≡ true)
    × (le nought
          (final_bucket (seconds 1000) rounds (start_bucket (seconds 1000) (at 0))).available_tokens
        ≡ true)
total_released-le_example = total_released-le Micros-IsExact (seconds 1000) (at 0) rounds refl

abbrev empty_bucket : Bucket Micros
empty_bucket = record { available_tokens = 0; last_refill_time = at 1 }

send_round-Took_example :
    Took (msg 1) (msg 2 ∷ []) (send_round (seconds 1000) (at 2) empty_bucket (control idle_world 1))
    ↔ (le (of_size 1) (add 0 (mul (elapsed (at 2) empty_bucket) (seconds 1000))) ≡ true)
send_round-Took_example =
    send_round-Took Micros-IsOrdered (seconds 1000) (at 2) empty_bucket (control idle_world 1)
      (msg 1) (msg 2 ∷ []) refl refl idle_queue-IsCounted (omega arith)

abbrev full_bucket : Bucket Micros
full_bucket = start_bucket (seconds 1000) (at 3)

abbrev later_bucket : Bucket Micros
later_bucket = record { available_tokens = seconds 199; last_refill_time = at 4 }

held_takes :
    send_round (seconds 1000) (at 4) full_bucket (control held_world 1)
    ≡ takes (msg 1) later_bucket (control_of [] 0)
unfolding send_round start_bucket
held_takes = refl

latest_goes_stale_example :
    (v u : World Micros) × (dispatch_send_message 1 (msg 2) (at 3) (at 3) (at 3) (at 3) held_world
      ≡ some v)
    × (get_or v.fault.send_buffers 1 [] ≡ msg 2 ∷ [])
    × (send_func 1 (at 4) (at 4) (at 4) full_bucket v ≡ some u)
    × (get_or u.fault.send_buffers 1 [] ≡ msg 1 ∷ [])
latest_goes_stale_example =
    latest_goes_stale 1 (at 4) (at 3) (at 3) (at 3) (at 3) (at 4) (at 4) full_bucket later_bucket
      (control_of [] 0) (msg 1) (msg 2) held_world held_world-IsOpen refl (omega arith)
      (omega arith) (omega arith) (omega arith) (omega arith) held_takes

-- Time in microseconds. At most two messages a second: half a second apart each passes.
abbrev pub since : ℕ → ℕ → Micros
since now t = now - t

half_passes :
    (send_freq_control since (pos 2) 1_000_000 (after_run since (pos 2) (500_000 ∷ []) (fresh 0))).0
    ≡ false
unfolding send_freq_control after_run
half_passes = refl

send_freq_control-rate_example :
    le
      (div
        (micros_double.of_int (pos (kept since (pos 2) (500_000 ∷ []) (fresh 0) + 1)))
        (since 1_000_000 0))
      (micros_double.of_int (pos 2))
    ≡ true
send_freq_control-rate_example =
    send_freq_control-rate since Micros-IsOrdered (pos 2) 0 (500_000 ∷ []) 1_000_000 (refl, tt)
      half_passes

-- Numbers in unary, a byte for each one.
abbrev pub tally : ℕ → Bytes
tally zero = []
tally (suc n) = b'|' ∷ tally n

abbrev pub unary : Packing
unary = record { pack = tally; unpack = λ s. some (length s) }

tally-length : (n : ℕ) → length (tally n) ≡ n
tally-length zero = refl
tally-length (suc n) = omega (arith, tally-length n)

pub unary-IsPacking : IsPacking unary
unary-IsPacking = record { unpack-pack = λ n h. rw (tally-length n) refl }
