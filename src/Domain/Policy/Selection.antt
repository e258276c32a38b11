-- ===== src/Domain/Policy/Selection.antt =====
-- Which policy `PolicyEngine.evaluate` triggers.
use mathlib.Core.Path.{subst, sym}
use port_sentinel.Base.Floats.{Floats}
use port_sentinel.Base.{
  ℕ, suc, Bool, true, false, not, ◌&&◌, List, [], ◌∷◌, ◌++◌, none, ◌≡◌, refl, arith, if◌then◌else◌,
  Bool-cases, inl, inr, ◌⊎◌, ap, ◌∙◌,
}
use port_sentinel.Domain.Events.{Stamp}
use port_sentinel.Domain.Policy.{
  PolicyEngine, Outcome, trigger_key, cooling, conditions, trigger, evaluate_from, evaluate,
}
use port_sentinel.Domain.Rule.{PolicyRule}
use port_sentinel.Domain.Snapshot.{PortSnapshot}

module _ {F W : Type 0} ⦃fl : Floats F⦄ (engine : PolicyEngine F W)
    (snapshot : PortSnapshot F) where
  -- The rule is enabled, is not cooling down at `now`, and its conditions hold.
  unfoldable pub fires : ℕ → PolicyRule F → Bool
  fires now policy =
      policy.enabled
      && not (cooling engine (trigger_key policy.id snapshot.port) now)
      && conditions policy snapshot

  -- Only enabled policies read the clock.
  abbrev pub after : PolicyRule F → (ℕ → ℕ) → ℕ → ℕ
  after policy clock = if policy.enabled then (λ n. clock (suc n)) else clock

  -- No policy of the list fires when its turn comes.
  abbrev pub Quiet : (ℕ → ℕ) → List (PolicyRule F) → Type 0
  Quiet clock [] = Unit
  Quiet clock (p ∷ ps) = (fires (clock 0) p ≡ false) × Quiet (after p clock) ps

  -- The clock after the policies of the list.
  abbrev pub after_all : List (PolicyRule F) → (ℕ → ℕ) → ℕ → ℕ
  after_all [] clock = clock
  after_all (p ∷ ps) clock = after_all ps (after p clock)

  -- `p` is the first policy of `ps` that fires, at time `now`.
  pub record IsFirst (clock : ℕ → ℕ) (ps : List (PolicyRule F)) (p : PolicyRule F) (now : ℕ)
      : Type 0 where
    pub before : List (PolicyRule F)
    pub behind : List (PolicyRule F)
    pub split : ps ≡ before ++ (p ∷ behind)
    pub quiet : Quiet clock before
    pub reading : now ≡ after_all before clock 0
    pub firing : fires now p ≡ true

  -- What the loop returns, in one of two ways.
  abbrev pub Selects : Stamp → W → (ℕ → ℕ) → List (PolicyRule F) → Outcome F W → Type 0
  Selects stamp w clock ps out =
      (Quiet clock ps × (out ≡ record { event = none; engine = engine; world = w }))
      ⊎ ((p : PolicyRule F) × (now : ℕ) × IsFirst clock ps p now
          × (out ≡ trigger stamp now engine p snapshot w))

  evaluate_from-cons :
      (stamp : Stamp) (w : W) (clock : ℕ → ℕ) (p : PolicyRule F) (ps : List (PolicyRule F))
      → evaluate_from stamp engine snapshot w clock (p ∷ ps) ≡ (
          if fires (clock 0) p
          then trigger stamp (clock 0) engine p snapshot w
          else evaluate_from stamp engine snapshot w (after p clock) ps)
  unfolding evaluate_from fires
  evaluate_from-cons stamp w clock p ps = ground arith

  IsFirst-cons :
      {clock : ℕ → ℕ} {ps : List (PolicyRule F)} {p : PolicyRule F} {now : ℕ} (q : PolicyRule F)
      → fires (clock 0) q ≡ false
      → IsFirst (after q clock) ps p now
      → IsFirst clock (q ∷ ps) p now
  IsFirst-cons q h first = record {
    before = q ∷ first.before;
    behind = first.behind;
    split = ap (◌∷◌ q) first.split;
    quiet = (h, first.quiet);
    reading = first.reading;
    firing = first.firing;
  }

  Selects-cons :
      (stamp : Stamp) (w : W) (clock : ℕ → ℕ) (q : PolicyRule F) (ps : List (PolicyRule F))
      {out : Outcome F W}
      → fires (clock 0) q ≡ false
      → Selects stamp w (after q clock) ps out
      → Selects stamp w clock (q ∷ ps) out
  Selects-cons stamp w clock q ps h (inl (quiet, e)) = inl ((h, quiet), e)
  Selects-cons stamp w clock q ps h (inr (p, now, first, e)) =
      inr (p, now, IsFirst-cons q h first, e)

  evaluate_from-Selects :
      (stamp : Stamp) (w : W) (clock : ℕ → ℕ) (ps : List (PolicyRule F))
      → Selects stamp w clock ps (evaluate_from stamp engine snapshot w clock ps)
  unfolding evaluate_from
  evaluate_from-Selects stamp w clock [] = inl (tt, refl)
  evaluate_from-Selects stamp w clock (p ∷ ps) = elim (Bool-cases (fires (clock 0) p)) [
    | inl e ↦ inr (
      p,
      clock 0,
      record { before = []; behind = ps; split = refl; quiet = tt; reading = refl; firing = e },
      evaluate_from-cons stamp w clock p ps ∙ rw e,
    )
    | inr e ↦
        subst (Selects stamp w clock (p ∷ ps)) (sym (evaluate_from-cons stamp w clock p ps ∙ rw e))
          (Selects-cons stamp w clock p ps e (evaluate_from-Selects stamp w (after p clock) ps))
  ]

  -- Evaluation triggers the first policy, in the order of the list, that is enabled, not cooling
  -- down at the time read for it, and whose risk, traffic and application conditions all hold; if
  -- there is none, it returns no event and changes neither the engine nor the world.
  pub evaluate-Selects :
      (stamp : Stamp) (clock : ℕ → ℕ) (w : W)
      → Selects stamp w clock engine.policies (evaluate stamp clock engine snapshot w)
  unfolding evaluate
  evaluate-Selects stamp clock w = evaluate_from-Selects stamp w clock engine.policies
