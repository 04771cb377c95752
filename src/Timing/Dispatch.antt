-- ===== src/Timing/Dispatch.antt =====
-- `timing_plan` of backend/timing.py. A field is `none` where `int` fails on it; a missing one is given
-- as its default. `timestamped`, which is only passed on, is left out.
use stageforge.Prelude.{
  ℕ, ◌+◌, ◌-◌, ◌*◌, ◌≤◌, ◌<◌, ◌≡◌, refl, subst, min, max, ltb, Bool, true, false, ◌||◌, ◌⊎◌,
  if◌then◌else◌, Option, none, some, arith,
}
use stageforge.Prelude.Int.{ℤ, pos, negsuc, pos_part, ltb_ℤ}

abbrev pub max_u64 : ℕ
max_u64 = 18446744073709551615

-- `_u64`; `none` is the `ValueError`
unfoldable pub u64 : Option ℤ → Option ℕ
u64 none = none
u64 (some a) = if ltb_ℤ a (pos 0) || ltb_ℤ (pos max_u64) a then none else some (pos_part a)

-- `jitterMarginMultiplier`
unfoldable pub margin_of : Option ℤ → Option ℕ
margin_of none = none
margin_of (some a) = if ltb_ℤ a (pos 0) || ltb_ℤ (pos 16) a then none else some (pos_part a)

pub record TimingRequest : Type 0 where
  pub now_ns : Option ℤ
  pub target_ns : Option ℤ
  pub fixed_ns : Option ℤ
  pub jitter_ns : Option ℤ
  pub lookahead_ns : Option ℤ
  pub margin : Option ℤ

pub record TimingPlan : Type 0 where
  pub now_ns : ℕ
  pub target_ns : ℕ
  pub fixed_ns : ℕ
  pub jitter_ns : ℕ
  pub lookahead_ns : ℕ
  pub margin : ℕ
  pub dispatch_ns : ℕ
  pub reserve_ns : ℕ
  pub late : Bool

unfoldable pub reserve_for : ℕ → ℕ → ℕ → ℕ → ℕ
reserve_for fixed jitter lookahead margin =
    max (min max_u64 (fixed + min max_u64 (jitter * margin))) lookahead

unfoldable pub dispatch_at : ℕ → ℕ → ℕ
dispatch_at target reserve = if ltb reserve target then target - reserve else 0

unfoldable pub plan_of : ℕ → ℕ → ℕ → ℕ → ℕ → ℕ → TimingPlan
unfolding reserve_for dispatch_at
plan_of now target fixed jitter lookahead margin =
    let reserve = reserve_for fixed jitter lookahead margin in
    record {
      now_ns = now;
      target_ns = target;
      fixed_ns = fixed;
      jitter_ns = jitter;
      lookahead_ns = lookahead;
      margin = margin;
      dispatch_ns = dispatch_at target reserve;
      reserve_ns = reserve;
      late = ltb (dispatch_at target reserve) now;
    }

abbrev and_then {ℓ κ} : {A : Type ℓ} {B : Type κ} → Option A → (A → Option B) → Option B
and_then none f = none
and_then (some a) f = f a

-- `timing_plan`
unfoldable pub timing_plan : TimingRequest → Option TimingPlan
unfolding u64 margin_of plan_of
timing_plan r = and_then (u64 r.now_ns) (λ now. and_then (u64 r.target_ns) (λ target.
    and_then (u64 r.fixed_ns) (λ fixed. and_then (u64 r.jitter_ns) (λ jitter.
      and_then (u64 r.lookahead_ns) (λ lookahead.
        and_then (margin_of r.margin)
          (λ margin. some (plan_of now target fixed jitter lookahead margin)))))))

-- What is asked of a plan for a request
pub record IsPlan (r : TimingRequest) (p : TimingPlan) : Type 0 where
  pub now : r.now_ns ≡ some (pos p.now_ns)
  pub target : r.target_ns ≡ some (pos p.target_ns)
  pub fixed : r.fixed_ns ≡ some (pos p.fixed_ns)
  pub jitter : r.jitter_ns ≡ some (pos p.jitter_ns)
  pub ahead : r.lookahead_ns ≡ some (pos p.lookahead_ns)
  pub margin : (r.margin ≡ some (pos p.margin)) × (p.margin ≤ 16)
  pub target_fits : p.target_ns ≤ max_u64
  pub reserve_fits : p.reserve_ns ≤ max_u64
  pub path : (p.fixed_ns + p.jitter_ns * p.margin ≤ p.reserve_ns) ⊎ (max_u64 ≤ p.reserve_ns)
  pub minimal : p.reserve_ns ≤ max (p.fixed_ns + p.jitter_ns * p.margin) p.lookahead_ns
  pub lookahead : p.lookahead_ns ≤ p.reserve_ns
  pub dispatched :
      (p.dispatch_ns + p.reserve_ns ≡ p.target_ns)
      ⊎ ((p.dispatch_ns ≡ 0) × (p.target_ns ≤ p.reserve_ns))
  pub lateness :
      (p.late ≡ true → p.dispatch_ns < p.now_ns) × (p.late ≡ false → p.now_ns ≤ p.dispatch_ns)

via {ℓ κ μ} :
    {A : Type ℓ} {B : Type κ} {C : Type μ} (o : Option A) (f : A → Option B) (b : B)
    → and_then o f ≡ some b
    → ((a : A) → o ≡ some a → f a ≡ some b → C)
    → C
via none f b h k = absurd (cc)
via (some a) f b h k = k a refl h

u64-fits : (a : Option ℤ) (n : ℕ) → u64 a ≡ some n → (a ≡ some (pos n)) × (n ≤ max_u64)
unfolding u64
u64-fits none n h = absurd (cc)
u64-fits (some (negsuc m)) n h = absurd (ground arith)
u64-fits (some (pos m)) n h = let e : m ≡ n = ground arith in (rw e refl, ground arith)

margin_of-fits : (a : Option ℤ) (n : ℕ) → margin_of a ≡ some n → (a ≡ some (pos n)) × (n ≤ 16)
unfolding margin_of
margin_of-fits none n h = absurd (cc)
margin_of-fits (some (negsuc m)) n h = absurd (ground arith)
margin_of-fits (some (pos m)) n h = let e : m ≡ n = ground arith in (rw e refl, ground arith)

plan_of-IsPlan :
    (r : TimingRequest) (now target fixed jitter lookahead margin : ℕ)
    → (r.now_ns ≡ some (pos now)) × (now ≤ max_u64)
    → (r.target_ns ≡ some (pos target)) × (target ≤ max_u64)
    → (r.fixed_ns ≡ some (pos fixed)) × (fixed ≤ max_u64)
    → (r.jitter_ns ≡ some (pos jitter)) × (jitter ≤ max_u64)
    → (r.lookahead_ns ≡ some (pos lookahead)) × (lookahead ≤ max_u64)
    → (r.margin ≡ some (pos margin)) × (margin ≤ 16)
    → IsPlan r (plan_of now target fixed jitter lookahead margin)
unfolding plan_of reserve_for dispatch_at
plan_of-IsPlan r now target fixed jitter lookahead margin (en, _) (et, t) (ef, _) (ej, _) (el, l)
      em =
    let product = jitter * margin in
    record {
      now = en;
      target = et;
      fixed = ef;
      jitter = ej;
      ahead = el;
      margin = em;
      target_fits = t;
      reserve_fits = omega (arith, l);
      path = ground arith;
      minimal = ground arith;
      lookahead = omega arith;
      dispatched = ground arith;
      lateness = (λ e. ground arith, λ e. ground arith);
    }

-- A timing plan that is given has the request's numbers, and a margin of at most 16. Its target and
-- reserve fit 64 bits; the reserve covers the fixed latency with its margin for jitter, or is the
-- greatest that 64 bits hold, covers the look-ahead, and is no longer than the longer of the two;
-- the dispatch comes before the target by the reserve, or at 0 where the reserve reaches back that far,
-- and the plan is late exactly when this time is over.
pub timing_plan-IsPlan : (r : TimingRequest) (p : TimingPlan) → timing_plan r ≡ some p → IsPlan r p
unfolding timing_plan
timing_plan-IsPlan r p h = via (u64 r.now_ns) _ p h (λ now en h1.
    via (u64 r.target_ns) _ p h1 (λ target et h2. via (u64 r.fixed_ns) _ p h2 (λ fixed ef h3.
      via (u64 r.jitter_ns) _ p h3 (λ jitter ej h4.
        via (u64 r.lookahead_ns) _ p h4 (λ lookahead el h5.
          via (margin_of r.margin) _ p h5 (λ margin em h6.
            let made : plan_of now target fixed jitter lookahead margin ≡ p = cc in
            subst (IsPlan r) made (
              plan_of-IsPlan r now target fixed jitter lookahead margin (u64-fits r.now_ns now en)
                (u64-fits r.target_ns target et) (u64-fits r.fixed_ns fixed ef)
                (u64-fits r.jitter_ns jitter ej) (u64-fits r.lookahead_ns lookahead el)
                (margin_of-fits r.margin margin em))))))))
