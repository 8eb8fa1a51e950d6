-- ===== src/Backend/Schedules/Tick.antt =====
-- What the ticks of the reconciler of backend/internal/schedules do over time.
use mathlib.Core.Bool.{false≢true}
use qr_domofon.Base.{
  ℕ, ◌+◌, String, ◌≡◌, refl, sym, ap, ◌∙◌, Bool, true, false, List, [], ◌∷◌, ◌++◌, str_eq, eq_iff,
  if◌then◌else◌, arith, Bool-cases, Option-cases, inl, inr,
}
use qr_domofon.Backend.Schedules.{Zones, active_at}
use qr_domofon.Backend.Schedules.Reconciler.{
  DueRow, Effect, Tick, OpenPoint, put_point, has_key, ids_of, renew, close_gone, open_points,
  reconcile_due, reconcile,
}
use qr_domofon.Backend.Schedules.Count.{
  count_events, starts, ends, open_bit, Distinct, count_events-append, starts-renew,
  ends-close_gone, ends-renew, starts-close_gone, moved,
}

-- The points of a tick are different.
has_key-put_point :
    (qs : List OpenPoint) (p : OpenPoint) (k : String)
    → has_key (ids_of (put_point qs p)) k
      ≡ (if str_eq p.access_point_id k then true else has_key (ids_of qs) k)
unfolding put_point
has_key-put_point [] p k = refl
has_key-put_point (q ∷ qs) p k = elim (Bool-cases (str_eq q.access_point_id p.access_point_id)) [
  | inl same ↦
      rw (same, put_point) (let e = ap (λ j. str_eq j k) ((eq_iff _ _).0 same) in ground arith)
  | inr other ↦ rw (other, put_point) (let h = has_key-put_point qs p k in ground arith)
]

not_same : (a b : String) → str_eq a b ≡ false → str_eq b a ≡ false
not_same a b h = elim (Bool-cases (str_eq b a)) [
  | inl same ↦ absurd (false≢true (sym h ∙ (eq_iff a b).1 (sym ((eq_iff b a).0 same))))
  | inr other ↦ other
]

put_point-Distinct :
    (qs : List OpenPoint) (p : OpenPoint)
    → Distinct (ids_of qs)
    → Distinct (ids_of (put_point qs p))
unfolding put_point
put_point-Distinct [] p d = (refl, tt)
put_point-Distinct (q ∷ qs) p (new, d) =
    elim (Bool-cases (str_eq q.access_point_id p.access_point_id)) [
      | inl same ↦
          rw (same, put_point)
            (sym (moved (ids_of qs) q.access_point_id p.access_point_id same) ∙ new, d)
      | inr other ↦
          rw (other, put_point)
            (
              has_key-put_point qs p q.access_point_id
                  ∙ rw (not_same q.access_point_id p.access_point_id other) new,
              put_point-Distinct qs p d,
            )
    ]

module _ (z : Zones) where
  open_points-Distinct :
      (now : ℕ) (ps : List OpenPoint) (due : List DueRow)
      → Distinct (ids_of ps)
      → Distinct (ids_of (open_points z now ps due))
  unfolding open_points
  open_points-Distinct now ps [] d = d
  open_points-Distinct now ps (r ∷ due) d = elim (Bool-cases (active_at z r.sched now)) [
    | inl active ↦
        rw (active, open_points)
          (open_points-Distinct now
            (put_point ps (record {
              access_point_id = r.access_point_id;
              device_id = r.device_id;
              mc_id = r.mc_id;
            }))
            due (put_point-Distinct ps _ d))
    | inr idle ↦ rw (idle, open_points) (open_points-Distinct now ps due d)
  ]

  -- What a tick counts.
  pub record Balanced (id : String) (open_ : List String) (result : List String × List Effect)
      : Type 0 where
    pub distinct : Distinct result.0
    pub balance : starts id result.1 + open_bit id open_ ≡ ends id result.1 + open_bit id result.0

  idle-Balanced :
      (id : String) (open_ : List String) → Distinct open_ → Balanced id open_ (open_, [])
  unfolding count_events
  idle-Balanced id open_ d = record { distinct = d; balance = refl }

  reconcile_due-Balanced :
      (id : String) (lease : ℕ) (t : Tick) (open_ : List String) (due : List DueRow)
      → Distinct open_
      → Balanced id open_ (reconcile_due z lease t open_ due)
  unfolding reconcile_due
  reconcile_due-Balanced id lease t open_ due d =
      let points = open_points z t.now [] due in
      let dp = open_points-Distinct t.now [] due tt in
      record {
        distinct = dp;
        balance =
            sums (has_key (ids_of points) id) (has_key open_ id)
              (count_events-append "scheduled_open_started" id (renew lease t open_ points)
                (close_gone (ids_of points) open_))
              (count_events-append "scheduled_open_ended" id (renew lease t open_ points)
                (close_gone (ids_of points) open_))
              (starts-renew id lease t open_ points dp) (starts-close_gone id (ids_of points) open_)
              (ends-renew id lease t open_ points) (ends-close_gone id (ids_of points) open_ d);
      }
    where
      sums :
          {s s₁ s₂ e e₁ e₂ : ℕ} (now was : Bool)
          → s ≡ s₁ + s₂
          → e ≡ e₁ + e₂
          → s₁ ≡ (if now then if was then 0 else 1 else 0)
          → s₂ ≡ 0
          → e₁ ≡ 0
          → e₂ ≡ (if was then if now then 0 else 1 else 0)
          → s + (if was then 1 else 0) ≡ e + (if now then 1 else 0)
      sums true true a b c d' f g = omega arith
      sums true false a b c d' f g = omega arith
      sums false true a b c d' f g = omega arith
      sums false false a b c d' f g = omega arith

  reconcile-Balanced :
      (id : String) (lease : ℕ) (t : Tick) (open_ : List String)
      → Distinct open_
      → Balanced id open_ (reconcile z lease t open_)
  unfolding reconcile
  reconcile-Balanced id lease t open_ d = elim (Option-cases t.try_lock) [
    | inl failed ↦ rw (failed, reconcile) (idle-Balanced id open_ d)
    | inr (false, taken) ↦ rw (taken, reconcile) (idle-Balanced id open_ d)
    | inr (true, locked) ↦ elim (Option-cases t.due_all) [
      | inl failed ↦ rw (locked, failed, reconcile) (idle-Balanced id open_ d)
      | inr (due, read) ↦
          rw (locked, read, reconcile) (reconcile_due-Balanced id lease t open_ due d)
    ]
  ]

  -- The ticks of a running server, with all that they do.
  unfoldable pub run : ℕ → List Tick → List String → List String × List Effect
  run lease [] open_ = (open_, [])
  run lease (t ∷ ts) open_ =
      let (open₁, fs) = reconcile z lease t open_ in
      let (open₂, gs) = run lease ts open₁ in (open₂, fs ++ gs)

  run-Balanced :
      (id : String) (lease : ℕ) (ts : List Tick) (open_ : List String)
      → Distinct open_
      → Balanced id open_ (run lease ts open_)
  unfolding run
  run-Balanced id lease [] open_ d = idle-Balanced id open_ d
  run-Balanced id lease (t ∷ ts) open_ d =
      let first = reconcile-Balanced id lease t open_ d in
      let rest = run-Balanced id lease ts (reconcile z lease t open_).0 first.distinct in
      record {
        distinct = rest.distinct;
        balance = omega (
          arith,
          first.balance,
          rest.balance,
          count_events-append "scheduled_open_started" id (reconcile z lease t open_).1
              (run lease ts (reconcile z lease t open_).0).1,
          count_events-append "scheduled_open_ended" id (reconcile z lease t open_).1
              (run lease ts (reconcile z lease t open_).0).1,
        );
      }

  -- From the start of the server on, whatever the ticks are answered, the audit has as many ends
  -- of a point's scheduled opening as starts, and one start more exactly while the reconciler
  -- keeps the point open.
  pub run-starts :
      (id : String) (lease : ℕ) (ts : List Tick)
      → (let (open_, fs) = run lease ts [] in starts id fs ≡ ends id fs + open_bit id open_)
  run-starts id lease ts = from_none (run-Balanced id lease ts [] tt).balance
    where
      from_none : {s e : ℕ} → s + 0 ≡ e → s ≡ e
      from_none h = omega arith
