-- ===== src/Hack/Prices/Timeout.antt =====
-- How long the generator waits for the prices of a region.
use gpu_provisioner.Base.{
  ℕ, zero, suc, ◌+◌, ◌*◌, ◌%◌, ◌≤◌, ◌<◌, ◌==◌, Bool-cases, inl, inr, ltb, leb, arith,
}
use gpu_provisioner.Base.Result.{Result, ok, err, panic, out_of_fuel}
use gpu_provisioner.Pricing.{on_demand_last_updated}
use gpu_provisioner.Hack.Prices.{Waiting, wait_for_update}

module _ {W Price : Type 0} (G : Waiting W Price) where
  -- A second of sleep takes a second at least.
  abbrev pub Sleeps : Type 0
  Sleeps = (w : W) → G.now w + 1000 ≤ G.now (G.sleep w)

  -- The wait is over: with prices that are newer than the start, or five minutes after it.
  abbrev pub IsOver : ℕ → Result (Unit {0}) × W → Type 0
  IsOver started (ok u, w) = started < on_demand_last_updated (G.provider w)
  IsOver started (err e, w) = ⊥
  IsOver started (panic, w) = started + 300000 ≤ G.now w
  IsOver started (out_of_fuel, w) = ⊥

  waits :
      (laws : Sleeps) (fuel started attempts : ℕ) (w : W)
      → 302 ≤ fuel + attempts
      → attempts ≤ 301
      → started + attempts * 1000 ≤ G.now w
      → IsOver started (wait_for_update G fuel started attempts w)
  unfolding wait_for_update
  waits laws zero started attempts w enough few late = absurd (omega arith)
  waits laws (suc fuel) started attempts w enough few late =
      let again : attempts ≤ 300
          → IsOver started (wait_for_update G fuel started (attempts + 1) (G.sleep w)) =
        λ small.
          waits laws fuel started (attempts + 1) (G.sleep w) (omega arith) (omega arith)
            (omega (arith, laws w)) in
      elim (Bool-cases (ltb started (on_demand_last_updated (G.provider w)))) [
        | inl e ↦ rw e (ground (arith, e))
        | inr e ↦ elim (Bool-cases (attempts == 0)) [
          | inl first ↦ rw (e, first) (again (ground (arith, first)))
          | inr later ↦ elim (Bool-cases (attempts % 10 == 0)) [
            | inl tenth ↦ rw (e, later, tenth) (again (ground (arith, tenth)))
            | inr other ↦ elim (Bool-cases (leb (started + 300000) (G.now w))) [
              | inl out ↦ rw (e, later, other, out) (ground (arith, out))
              | inr in_time ↦ rw (e, later, other, in_time) (again (ground (arith, in_time)))
            ]
          ]
        ]
      ]

  -- The wait for a region ends, if every sleep of a second takes one at least: there are at most 302
  -- looks at the provider, and either its prices are newer than the start of the program, or five minutes
  -- have passed since then and the program ends.
  pub wait_for_update-IsOver :
      (laws : Sleeps) (started : ℕ) (w : W)
      → started ≤ G.now w
      → IsOver started (wait_for_update G 302 started 0 w)
  wait_for_update-IsOver laws started w h =
      waits laws 302 started 0 w (omega arith) (omega arith) (omega (arith, h))
