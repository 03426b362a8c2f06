-- ===== src/Pricing/Background/Laws.antt =====
-- How often the prices are fetched, over every run of the goroutine.
use gpu_provisioner.Base.{ℕ, ◌+◌, ◌*◌, ◌≤◌, ◌≡◌, refl, inl, inr, Bool-cases, ltb, Option, arith}
use gpu_provisioner.Base.Text.{Bytes}
use gpu_provisioner.Base.Dict.{Dict}
use gpu_provisioner.Base.Result.{Result, ok, err, panic, out_of_fuel}
use gpu_provisioner.Base.Effect.{continue, pure}
use gpu_provisioner.Pricing.Client.{Http}
use gpu_provisioner.Pricing.{Provider, UpdateErr, new_provider, reset, update_on_demand_pricing}
use gpu_provisioner.Pricing.Runs.{
  Reached, made, waited, updated, was_reset, IsPriced, Reached-IsPriced,
}
use gpu_provisioner.Pricing.Background.{
  Stage, starting, stopped, electing, polling, Event, launched, elected, cancelled, timer, Loop,
  pricing_update_period, update_pricing, elect, poll, react_at, react, background,
}
use gpu_provisioner.Pricing.Background.Clock.{IsForward, update-forward}

-- The timer fires after its time.
abbrev pub MayHappen : Stage → Event → ℕ → Type 0
MayHappen (polling since) timer t = since + pricing_update_period ≤ t
MayHappen _ _ t = Unit

module _ {W Price : Type 0} (http : Http W Price ℕ) (now : W → ℕ) (initial : Dict (Dict Price))
    (initial_price_update fuel : ℕ) (region : Bytes) (begin : W) where
  -- The runs of the goroutine: it waits while time passes, other code may reset the prices, and it reacts.
  pub data Run : Loop Price → W → Type 0 where
    begun : Run (background (new_provider initial initial_price_update region)) begin
    passed : {l : Loop Price} {w : W} (v : W) → now w ≤ now v → Run l w → Run l v
    reset_by_others :
        {l : Loop Price} {w : W}
        → Run l w
        → Run (record l { provider = reset initial initial_price_update l.provider }) w
    reacted :
        {l m : Loop Price} {w v : W} (e : Event)
        → Run l w
        → MayHappen l.stage e (now w)
        → react http now fuel e l w ≡ (ok m, v)
        → Run m v

  -- the bound as it stands in each stage, at a time
  abbrev IsPaced : Stage → ℕ → ℕ → Type 0
  IsPaced starting n t = n ≡ 0
  IsPaced (electing startup) n t = (n ≡ 1) × (now begin ≤ startup) × (startup ≤ t)
  IsPaced (polling since) n t =
      (n * pricing_update_period + now begin ≤ since + pricing_update_period) × (since ≤ t)
  IsPaced stopped n t = n * pricing_update_period + now begin ≤ t + pricing_update_period

  abbrev IsSound : Loop Price → W → Type 0
  IsSound l w =
      IsPaced l.stage l.updates (now w)
      × (now begin ≤ now w)
      × Reached http now initial initial_price_update fuel region l.provider w

  -- what an update leaves behind
  abbrev IsUpdated : Loop Price → W → Result (Loop Price) × W → Type 0
  IsUpdated l w (ok m, v) =
      (m.updates ≡ l.updates + 1)
      × (m.stage ≡ l.stage)
      × (now w ≤ now v)
      × Reached http now initial initial_price_update fuel region m.provider v
  IsUpdated l w (r, v) = Unit

  IsPaced-later : (s : Stage) (n t u : ℕ) → t ≤ u → IsPaced s n t → IsPaced s n u
  IsPaced-later starting n t u h p = p
  IsPaced-later stopped n t u h p = omega (arith, h, p)
  IsPaced-later (electing startup) n t u h p = (p.0, p.1, omega (arith, h, p.2))
  IsPaced-later (polling since) n t u h p = (p.0, omega (arith, h, p.1))

  module _ (laws : IsForward http now) where
    update_pricing-IsUpdated :
        (l : Loop Price) (w : W)
        → Reached http now initial initial_price_update fuel region l.provider w
        → IsUpdated l w (update_pricing http now fuel l w)
    unfolding update_pricing
    update_pricing-IsUpdated l w reached =
        by_answer (update_on_demand_pricing http now fuel l.provider w) refl
          (update-forward http now laws fuel l.provider w)
      where
        by_answer :
            (x : Result (Option (UpdateErr ℕ) × Provider Price ℕ) × W)
            → update_on_demand_pricing http now fuel l.provider w ≡ x
            → now w ≤ now x.1
            → IsUpdated l w (
                continue x
                  (λ (failure, p). pure (record l { provider = p; updates = l.updates + 1 })))
        by_answer (ok (o, q), v) e h = (refl, refl, h, updated reached e)
        by_answer (err x, v) e h = tt
        by_answer (panic, v) e h = tt
        by_answer (out_of_fuel, v) e h = tt

    abbrev IsSoundAfter : Result (Loop Price) × W → Type 0
    IsSoundAfter (ok m, v) = IsSound m v
    IsSoundAfter (r, v) = Unit

    elects :
        (l : Loop Price) (w : W) (x : Result (Loop Price) × W)
        → IsUpdated l w x
        → l.updates ≡ 0
        → now begin ≤ now w
        → IsSoundAfter (continue x (elect http now fuel))
    elects l w (ok m, v) (n, s, t, r) none_yet h =
        ((omega (arith, n, none_yet), omega (arith, h, t), omega arith), omega (arith, h, t), r)
    elects l w (err e, v) u none_yet h = tt
    elects l w (panic, v) u none_yet h = tt
    elects l w (out_of_fuel, v) u none_yet h = tt

    polls :
        (l : Loop Price) (w : W) (x : Result (Loop Price) × W)
        → IsUpdated l w x
        → l.updates * pricing_update_period + now begin ≤ now w
        → now begin ≤ now w
        → IsSoundAfter (continue x (poll http now fuel))
    polls l w (ok m, v) (n, s, t, r) paced h =
        ((omega (arith, n, paced, t), omega arith), omega (arith, h, t), r)
    polls l w (err e, v) u paced h = tt
    polls l w (panic, v) u paced h = tt
    polls l w (out_of_fuel, v) u paced h = tt

    stops :
        (l : Loop Price) (w : W)
        → l.updates * pricing_update_period + now begin ≤ now w + pricing_update_period
        → IsSound l w
        → IsSound (record l { stage = stopped }) w
    stops l w h (p, b, r) = (h, b, r)

    react_at-IsSound :
        (s : Stage) (e : Event) (l : Loop Price) (w : W)
        → IsSound l w
        → IsPaced s l.updates (now w)
        → MayHappen s e (now w)
        → IsSoundAfter (react_at http now fuel s e l w)
    react_at-IsSound starting launched l w sound paced may =
        elects l w (update_pricing http now fuel l w) (update_pricing-IsUpdated l w sound.2) paced
          sound.1
    react_at-IsSound starting elected l w sound paced may = sound
    react_at-IsSound starting cancelled l w sound paced may = sound
    react_at-IsSound starting timer l w sound paced may = sound
    react_at-IsSound (electing startup) launched l w sound paced may = sound
    react_at-IsSound (electing startup) timer l w sound paced may = sound
    react_at-IsSound (electing startup) elected l w sound paced may =
        elim (Bool-cases (ltb (startup + pricing_update_period) (now w))) [
          | inl late ↦
              let overdue : startup + pricing_update_period ≤ now w = ground (arith, late) in
              rw late (
                polls l w (update_pricing http now fuel l w) (update_pricing-IsUpdated l w sound.2)
                  (omega (arith, paced.0, paced.1, overdue)) sound.1)
          | inr soon ↦ rw soon ((omega (arith, paced.0, sound.1), omega arith), sound.1, sound.2)
        ]
    react_at-IsSound (electing startup) cancelled l w sound paced may =
        stops l w (omega (arith, paced.0, sound.1)) sound
    react_at-IsSound (polling since) cancelled l w sound paced may =
        stops l w (omega (arith, paced.0, paced.1)) sound
    react_at-IsSound (polling since) timer l w sound paced may =
        polls l w (update_pricing http now fuel l w) (update_pricing-IsUpdated l w sound.2)
          (omega (arith, paced.0, may)) sound.1
    react_at-IsSound (polling since) launched l w sound paced may = sound
    react_at-IsSound (polling since) elected l w sound paced may = sound
    react_at-IsSound stopped e l w sound paced may = sound

    Run-IsSound : {l : Loop Price} {w : W} → Run l w → IsSound l w
    unfolding background react
    Run-IsSound begun = (refl, omega arith, made)
    Run-IsSound (passed {l} {w} v h run) =
        let (p, b, r) = Run-IsSound run in
        (IsPaced-later l.stage l.updates (now w) (now v) h p, omega (arith, b, h), waited v r)
    Run-IsSound (reset_by_others run) = let (p, b, r) = Run-IsSound run in (p, b, was_reset r)
    Run-IsSound (reacted {l} {m} {w} {v} e run may h) =
        let sound = Run-IsSound run in rw h at (react_at-IsSound l.stage e l w sound sound.0 may)

    paced_in :
        (s : Stage) (n t : ℕ)
        → now begin ≤ t
        → IsPaced s n t
        → n * pricing_update_period + now begin ≤ t + pricing_update_period
    paced_in starting n t h p = omega (arith, h, p)
    paced_in stopped n t h p = p
    paced_in (electing startup) n t h p = omega (arith, h, p.0)
    paced_in (polling since) n t h p = omega (arith, p.0, p.1)

    -- Whatever the events and however long they take, if the clock does not go back and a timer fires no
    -- earlier than its twelve hours are over: the goroutine fetches the prices once at most, and once more
    -- for every twelve hours that have passed since the start; they are always the static ones or those of
    -- one successful fetch, also where other code resets them in between.
    pub Run-bound :
        {l : Loop Price} {w : W}
        → Run l w
        → (l.updates * pricing_update_period + now begin ≤ now w + pricing_update_period)
          × IsPriced http now initial initial_price_update fuel region l.provider
    Run-bound {l} {w} run =
        let (p, b, r) = Run-IsSound run in
        (
          paced_in l.stage l.updates (now w) b p,
          Reached-IsPriced http now initial initial_price_update fuel region r,
        )
