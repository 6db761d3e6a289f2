-- ===== src/DutyQueue/Timer.antt =====
-- When the timer is set for what the loop waits for, and what the moves of the loop keep of it.
use eth2_validator.Base.{
  ◌≤◌, ◌≡◌, ◌≢◌, ◌⊎◌, Bool, true, false, inl, inr, refl, subst, List, String, Option, none, some,
  arith, nat_beq, string_eq, Bool-cases, if◌then◌else◌,
}
use eth2_validator.DelayHeap.Nodes.{Time}
use eth2_validator.DelayHeap.Valid.{entry}
use eth2_validator.Duty.{Duty}
use eth2_validator.DutyQueue.{duty_wrapper, DutyQueue}
use eth2_validator.DutyQueue.Safety.{Clock, IsDue, IsSafe, IsSafe-mono, Extends}
use eth2_validator.DutyQueue.Loop.{Phase, looking, seen, parked, wake, notified, arm, System}

-- What the loop saw is still in the heap.
abbrev pub IsSeen : DutyQueue → Option (Duty × Time) → Type 0
IsSeen q none = Unit {0}
IsSeen q (some (d, t)) = entry q.delay_heap d.id ≡ some (d, t)

abbrev pub IsHeld : DutyQueue → Phase → Type 0
IsHeld q looking = Unit {0}
IsHeld q (seen o) = IsSeen q o
IsHeld q (parked o) = IsSeen q o

-- The timer does not ring, and its channel has no tick, before the time that the select waits for.
abbrev IsArmedFor : Option Time → Bool → Time → Option (Duty × Time) → Type 0
IsArmedFor timer tick now none = Unit {0}
IsArmedFor timer tick now (some (d, t)) =
    t ≢ 0 → ((w : Time) → timer ≡ some w → t ≤ w) × (tick ≡ true → t ≤ now)

abbrev pub IsTimed : Option Time → Bool → Time → Phase → Type 0
IsTimed timer tick now looking = Unit {0}
IsTimed timer tick now (seen o) = Unit {0}
IsTimed timer tick now (parked o) = IsArmedFor timer tick now o

abbrev pub clock : System → Clock
clock s = record { early = s.loop.early; now = s.now }

pub record IsSound (s : System) : Type 0 where
  pub safe : IsSafe s.acked (clock s) s.queue
  pub held : IsHeld s.queue s.loop.phase
  pub timed : (s.loop.early ≡ true) ⊎ IsTimed s.loop.timer s.loop.tick s.now s.loop.phase

IsSeen-Extends :
    (q q' : DutyQueue) (o : Option (Duty × Time)) → Extends q q' → IsSeen q o → IsSeen q' o
IsSeen-Extends q q' none x a = tt
IsSeen-Extends q q' (some (d, t)) x a = x d.id (d, t) a

pub IsHeld-notified :
    (q q' : DutyQueue) (sent : Bool) (ph : Phase)
    → Extends q q'
    → IsHeld q ph
    → IsHeld q' (if sent then wake ph else ph)
IsHeld-notified q q' true looking x h = tt
IsHeld-notified q q' true (seen o) x h = IsSeen-Extends q q' o x h
IsHeld-notified q q' true (parked o) x h = tt
IsHeld-notified q q' false looking x h = tt
IsHeld-notified q q' false (seen o) x h = IsSeen-Extends q q' o x h
IsHeld-notified q q' false (parked o) x h = IsSeen-Extends q q' o x h

IsTimed-notified :
    (timer : Option Time) (tick : Bool) (now : Time) (sent : Bool) (ph : Phase)
    → IsTimed timer tick now ph
    → IsTimed timer tick now (if sent then wake ph else ph)
IsTimed-notified timer tick now true looking h = tt
IsTimed-notified timer tick now true (seen o) h = tt
IsTimed-notified timer tick now true (parked o) h = tt
IsTimed-notified timer tick now false ph h = h

pub notified-IsSound :
    (s : System) (q : DutyQueue) (acked : List String) (sent : Bool)
    → IsSound s
    → IsSafe acked (clock s) q
    → Extends s.queue q
    → IsSound (record s { queue = q; loop = notified sent s.loop; acked = acked })
notified-IsSound s q acked sent i safe x = record {
  safe = safe;
  held = IsHeld-notified s.queue q sent s.loop.phase x i.held;
  timed = elim i.timed [
    | inl e ↦ inl e
    | inr h ↦ inr (IsTimed-notified s.loop.timer s.loop.tick s.now sent s.loop.phase h)
  ];
}

pub arm-IsSound :
    (s : System) (o : Option (Duty × Time))
    → s.loop.phase ≡ seen o
    → IsSound s
    → IsSound (record s { loop = arm s.loop o })
unfolding arm
arm-IsSound s none e i = record { safe = i.safe; held = tt; timed = inr tt }
arm-IsSound s (some (d, t)) e i =
    let held = subst (IsHeld s.queue) e i.held in
    elim (Bool-cases (nat_beq t 0)) [
      | inl zero ↦ rw zero (record {
        safe = i.safe;
        held = held;
        timed = inr λ nonzero. absurd (nonzero (ground arith));
      })
      | inr other ↦ rw other (elim (Bool-cases s.loop.tick) [
        | inl left ↦ record {
          safe = IsSafe-mono (λ dep a. a) ((λ h. rw left refl), omega arith) i.safe;
          held = held;
          timed = inl (rw left refl);
        }
        | inr free ↦ record {
          safe = IsSafe-mono (λ dep a. a) ((λ h. rw free h), omega arith) i.safe;
          held = held;
          timed = inr λ nonzero. (λ w at. omega (arith, some_time at), λ ticked. cc (free, ticked));
        }
      ])
    ]
  where
    some_time : {a b : Time} → ◌≡◌ {A = Option Time} (some a) (some b) → a ≡ b
    some_time q = cc q

-- Ringing puts a tick in the channel.
pub ring-IsTimed :
    (timer : Option Time) (tick : Bool) (now w : Time) (ph : Phase)
    → timer ≡ some w
    → w ≤ now
    → IsTimed timer tick now ph
    → IsTimed none true now ph
ring-IsTimed timer tick now w looking e p h = tt
ring-IsTimed timer tick now w (seen o) e p h = tt
ring-IsTimed timer tick now w (parked none) e p h = tt
ring-IsTimed timer tick now w (parked (some (d, t))) e p h =
    λ nonzero. ((λ v f. cc f), (λ ticked. omega (arith, (h nonzero).0 w e)))

pub pass-IsTimed :
    (timer : Option Time) (tick : Bool) (now now' : Time) (ph : Phase)
    → now ≤ now'
    → IsTimed timer tick now ph
    → IsTimed timer tick now' ph
pass-IsTimed timer tick now now' looking p h = tt
pass-IsTimed timer tick now now' (seen o) p h = tt
pass-IsTimed timer tick now now' (parked none) p h = tt
pass-IsTimed timer tick now now' (parked (some (d, t))) p h =
    λ nonzero. ((h nonzero).0, (λ ticked. omega (arith, (h nonzero).1 ticked)))

-- The duty whose tick is taken is due.
pub fired-IsDue :
    (s : System) (d : Duty) (t : Time)
    → s.loop.phase ≡ parked (some (d, t))
    → t ≢ 0
    → s.loop.tick ≡ true
    → IsSound s
    → IsDue (clock s) t
fired-IsDue s d t e nonzero ticked i = elim i.timed [
  | inl early ↦ inl early
  | inr h ↦ inr ((subst (IsTimed s.loop.timer s.loop.tick s.now) e h nonzero).1 ticked)
]
