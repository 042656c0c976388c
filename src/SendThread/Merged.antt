-- ===== src/SendThread/Merged.antt =====
-- Messages from two sources in one line, and what a fault policy retains of them, in numbers.
use swarm_ros_bridge.Common.{
  ℕ, ◌+◌, ◌≤◌, List, [], ◌∷◌, ◌++◌, length, length-append, ◌≡◌, refl, arith, All-append,
}
use swarm_ros_bridge.Topic.{Message, FaultPolicy, drop, buffer, latest}
use swarm_ros_bridge.SendQueue.Bounds.{total, total-append}
use swarm_ros_bridge.Fault.Policy.{last_only, retained}
use swarm_ros_bridge.SendThread.InOrder.{AllShort, AllShort-left, AllShort-right}

-- The third list is made of the first two, each in its order.
pub data Merged : List Message → List Message → List Message → Type 0 where
  neither : Merged [] [] []
  from_first : (xs ys zs ms : List Message) → Merged xs ys zs → Merged (xs ++ ms) ys (zs ++ ms)
  from_second : (xs ys zs ms : List Message) → Merged xs ys zs → Merged xs (ys ++ ms) (zs ++ ms)

pub length-Merged : (xs ys zs : List Message) → Merged xs ys zs → length zs ≡ length xs + length ys
length-Merged _ _ _ neither = refl
length-Merged _ _ _ (from_first xs ys zs ms r) =
    omega (arith, length-append xs ms, length-append zs ms, length-Merged xs ys zs r)
length-Merged _ _ _ (from_second xs ys zs ms r) =
    omega (arith, length-append ys ms, length-append zs ms, length-Merged xs ys zs r)

pub total-Merged : (xs ys zs : List Message) → Merged xs ys zs → total zs ≡ total xs + total ys
total-Merged _ _ _ neither = refl
total-Merged _ _ _ (from_first xs ys zs ms r) =
    omega (arith, total-append xs ms, total-append zs ms, total-Merged xs ys zs r)
total-Merged _ _ _ (from_second xs ys zs ms r) =
    omega (arith, total-append ys ms, total-append zs ms, total-Merged xs ys zs r)

length-last_only : (ms : List Message) → length (last_only ms) ≤ length ms
length-last_only [] = omega arith
length-last_only (m ∷ []) = omega arith
length-last_only (m ∷ n ∷ ms) = omega (arith, length-last_only (n ∷ ms))

total-last_only : (ms : List Message) → total (last_only ms) ≤ total ms
total-last_only [] = omega arith
total-last_only (m ∷ []) = omega arith
total-last_only (m ∷ n ∷ ms) = omega (arith, total-last_only (n ∷ ms))

pub length-retained : (p : FaultPolicy) (ms : List Message) → length (retained p ms) ≤ length ms
length-retained drop ms = omega arith
length-retained buffer ms = omega arith
length-retained latest ms = length-last_only ms

pub total-retained : (p : FaultPolicy) (ms : List Message) → total (retained p ms) ≤ total ms
total-retained drop ms = omega arith
total-retained buffer ms = omega arith
total-retained latest ms = total-last_only ms

module _ (longest : ℕ) where
  AllShort-append :
      (xs ys : List Message)
      → AllShort longest xs
      → AllShort longest ys
      → AllShort longest (xs ++ ys)
  AllShort-append xs ys h k = All-append (λ (m : Message). m.data_len ≤ longest) xs ys h k

  pub AllShort-Merged :
      (xs ys zs : List Message)
      → Merged xs ys zs
      → AllShort longest xs
      → AllShort longest ys
      → AllShort longest zs
  AllShort-Merged _ _ _ neither h k = tt
  AllShort-Merged _ _ _ (from_first xs ys zs ms r) h k =
      AllShort-append zs ms (AllShort-Merged xs ys zs r (AllShort-left longest xs ms h) k)
        (AllShort-right longest xs ms h)
  AllShort-Merged _ _ _ (from_second xs ys zs ms r) h k =
      AllShort-append zs ms (AllShort-Merged xs ys zs r h (AllShort-left longest ys ms k))
        (AllShort-right longest ys ms k)

  AllShort-last_only : (ms : List Message) → AllShort longest ms → AllShort longest (last_only ms)
  AllShort-last_only [] h = tt
  AllShort-last_only (m ∷ []) h = h
  AllShort-last_only (m ∷ n ∷ ms) h = AllShort-last_only (n ∷ ms) h.1

  pub AllShort-retained :
      (p : FaultPolicy) (ms : List Message) → AllShort longest ms → AllShort longest (retained p ms)
  AllShort-retained drop ms h = tt
  AllShort-retained buffer ms h = h
  AllShort-retained latest ms h = AllShort-last_only ms h
