-- ===== src/Threads/Order.antt =====
-- What the callback of a send topic with no bitrate limit can overtake: nothing, if faults start
-- only on an idle node. The state is seen by its flags, its clock and the topic's fault buffer.
use swarm_ros_bridge.Common.{
  ℕ, ◌≤◌, Bool, true, false, List, [], ◌∷◌, ◌≡◌, ◌≢◌, ◌⊎◌, inl, inr, refl, subst, ◌∙◌, arith,
}
use mathlib.Core.Logic.{ite}
use swarm_ros_bridge.Topic.{Message}
use swarm_ros_bridge.Threads.Plan.{Release}
use swarm_ros_bridge.Threads.Plan.Sends.{sends_of, sends_of-tail}
use swarm_ros_bridge.Threads.{
  Tid, Tid-discrete, sender, worker, first, second, After, in_call, in_round, Pc, idle, looks,
  swaps, replays, locks, writes, update, resume, recovers,
}
use swarm_ros_bridge.Threads.Exclusive.{IsExclusive, recovers-resume}

pub record View : Type 0 where
  pub active : Bool
  pub recovering : Bool
  pub until : ℕ
  pub clock : ℕ
  pub held : List Message

-- What the callback knows of its buffer between its first locked block and its write: at its second
-- look, that a buffer that holds messages is in a recovery or due for one; after it, in a recovery.
abbrev pub Late : {W : Type 0} → View → Pc W → Type 0
Late v (looks (in_call second m)) =
    (v.held ≡ []) ⊎ (v.recovering ≡ true) ⊎ ((v.active ≡ true) × (v.until ≤ v.clock))
Late v (locks second m) = (v.held ≡ []) ⊎ (v.recovering ≡ true)
Late v (writes m) = v.held ≡ []
Late v idle = Unit
Late v (swaps a) = Unit
Late v (replays a rs) = Unit
Late v (locks first m) = Unit
Late v (looks (in_call first m)) = Unit
Late v (looks in_round) = Unit

pub record IsClear {W : Type 0} (i : ℕ) (v : View) (pc : Tid → Pc W) : Type 0 where
  pub no_worker : pc (worker i) ≡ idle
  pub settled : v.active ≡ false → v.recovering ≡ false → v.held ≡ []
  pub swapped : (t : Tid) (a : After) (rs : List (Release W)) → pc t ≡ replays a rs → v.held ≡ []
  pub late : Late v (pc (sender i))
  pub pending :
      (m : Message) (t : Tid) (a : After) (rs : List (Release W))
      → pc (sender i) ≡ writes m
      → pc t ≡ replays a rs
      → sends_of i rs ≡ []

update-keeps {κ} :
    {W : Type 0} (P : Pc W → Type κ) (pc : Tid → Pc W) (t u : Tid) (p : Pc W)
    → (t ≡ u → P p)
    → (t ≢ u → P (pc u))
    → P (update pc t p u)
update-keeps P pc t u p h k = elim (Tid-discrete t u) as (λ e. P (ite e p (pc u))) [
  | yes e ↦ h e
  | no n ↦ k n
]

pub Late-empty : {W : Type 0} (v : View) (p : Pc W) → v.held ≡ [] → Late v p
Late-empty v idle e = tt
Late-empty v (looks (in_call first m)) e = tt
Late-empty v (looks (in_call second m)) e = inl e
Late-empty v (looks in_round) e = tt
Late-empty v (swaps a) e = tt
Late-empty v (replays a rs) e = tt
Late-empty v (locks first m) e = tt
Late-empty v (locks second m) e = inl e
Late-empty v (writes m) e = e

Late-recovering :
    {W : Type 0} (v u : View) (p : Pc W)
    → u.recovering ≡ true
    → u.held ≡ v.held
    → Late v p
    → Late u p
Late-recovering v u idle r h l = tt
Late-recovering v u (looks (in_call first m)) r h l = tt
Late-recovering v u (looks (in_call second m)) r h l = inr (inl r)
Late-recovering v u (looks in_round) r h l = tt
Late-recovering v u (swaps a) r h l = tt
Late-recovering v u (replays a rs) r h l = tt
Late-recovering v u (locks first m) r h l = tt
Late-recovering v u (locks second m) r h l = inr r
Late-recovering v u (writes m) r h l = h ∙ l

module _ {W : Type 0} {i : ℕ} {v : View} {pc : Tid → Pc W} (t : Tid)
    (x : IsExclusive v.active v.recovering pc) (c : IsClear i v pc) where
  late-held : (m : Message) → pc (sender i) ≡ writes m → v.held ≡ []
  late-held m e = subst (Late v) e c.late

  -- Thread `t` moves outside any recovery.
  pub move-IsClear :
      (p : Pc W)
      → recovers p ≡ false
      → (t ≡ worker i → p ≡ idle)
      → (t ≡ sender i → Late v p)
      → ((m : Message) → p ≡ writes m → v.recovering ≡ false)
      → IsClear i v (update pc t p)
  move-IsClear p out w l n = record {
    no_worker = update-keeps (λ q. q ≡ idle) pc t (worker i) p w (λ _. c.no_worker);
    settled = c.settled;
    swapped = λ u a rs e. ground (arith, c.swapped u a rs);
    late = update-keeps (Late v) pc t (sender i) p l (λ _. c.late);
    pending = λ m u a rs e f. ground (arith, c.pending m u a rs, n m, x.flagged u);
  }

  pub end-IsClear :
      (a : After)
      → pc t ≡ looks a
      → v.active ≡ true
      → IsClear i (record v { active = false; recovering = true }) (update pc t (swaps a))
  end-IsClear a e h = record {
    no_worker = ground (arith, c.no_worker);
    settled = λ n r. cc;
    swapped = λ u b rs f. ground (arith, x.flagged u);
    late =
        update-keeps (Late _) pc t (sender i) (swaps a) (λ _. tt)
          (λ _. Late-recovering v _ (pc (sender i)) refl refl c.late);
    pending = λ m u b rs f g. ground (arith, x.flagged u);
  }

  pub swap-IsClear :
      (a : After) (rs : List (Release W))
      → pc t ≡ swaps a
      → sends_of i rs ≡ v.held
      → IsClear i (record v { held = [] }) (update pc t (replays a rs))
  swap-IsClear a rs e s = record {
    no_worker = ground (arith, c.no_worker);
    settled = λ n r. refl;
    swapped = λ u b qs f. refl;
    late = Late-empty _ _ refl;
    pending = λ m u b qs f g. ground (arith, c.pending m u b qs, late-held m);
  }

  pub release-IsClear :
      (a : After) (r : Release W) (rs : List (Release W))
      → pc t ≡ replays a (r ∷ rs)
      → IsClear i v (update pc t (replays a rs))
  release-IsClear a r rs e = record {
    no_worker = ground (arith, c.no_worker);
    settled = c.settled;
    swapped = λ u b qs f. c.swapped t a (r ∷ rs) e;
    late = Late-empty _ _ (c.swapped t a (r ∷ rs) e);
    pending = λ m u b qs f g.
        ground (arith, c.pending m u b qs, c.pending m t a (r ∷ rs), sends_of-tail i r rs);
  }

  pub finish-IsClear :
      (a : After)
      → pc t ≡ replays a []
      → IsClear i (record v { recovering = false }) (update pc t (resume a))
  finish-IsClear a e = record {
    no_worker = ground (arith, c.no_worker);
    settled = λ n r. c.swapped t a [] e;
    swapped = λ u b rs f. c.swapped t a [] e;
    late = Late-empty _ _ (c.swapped t a [] e);
    pending = λ m u b rs f g. ground (arith, c.pending m u b rs, x.alone t u, recovers-resume W a);
  }

  pub hold-IsClear :
      (held : List Message)
      → (t ≢ sender i → held ≡ v.held)
      → v.active ≡ true
      → v.recovering ≡ false
      → IsClear i (record v { held = held }) (update pc t idle)
  hold-IsClear held same a r = record {
    no_worker = update-keeps (λ q. q ≡ idle) pc t (worker i) idle (λ _. refl) (λ _. c.no_worker);
    settled = λ n f. cc;
    swapped = λ u b rs f. ground (arith, x.flagged u);
    late = update-keeps (Late _) pc t (sender i) idle (λ _. tt) (λ n. rw (same n) c.late);
    pending = λ m u b rs f g. ground (arith, x.flagged u);
  }

  pub start-IsClear : (u : View) → v.recovering ≡ false → u.held ≡ [] → IsClear i u pc
  start-IsClear u r h = record {
    no_worker = c.no_worker;
    settled = λ n f. h;
    swapped = λ w b rs f. h;
    late = Late-empty u _ h;
    pending = λ m w b rs f g. ground (arith, x.flagged w);
  }

Late-later :
    {W : Type 0} (v : View) (now : ℕ) (p : Pc W)
    → v.clock ≤ now
    → Late v p
    → Late (record v { clock = now }) p
Late-later v now idle h l = tt
Late-later v now (looks (in_call first m)) h l = tt
Late-later v now (looks (in_call second m)) h l = ground arith
Late-later v now (looks in_round) h l = tt
Late-later v now (swaps a) h l = tt
Late-later v now (replays a rs) h l = tt
Late-later v now (locks first m) h l = tt
Late-later v now (locks second m) h l = l
Late-later v now (writes m) h l = l

pub tick-IsClear :
    {W : Type 0} {i : ℕ} {v : View} {pc : Tid → Pc W} (now : ℕ)
    → v.clock ≤ now
    → IsClear i v pc
    → IsClear i (record v { clock = now }) pc
tick-IsClear {i = i} {v = v} {pc = pc} now h c = record {
  no_worker = c.no_worker;
  settled = c.settled;
  swapped = c.swapped;
  late = Late-later v now (pc (sender i)) h c.late;
  pending = c.pending;
}
