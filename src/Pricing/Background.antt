-- ===== src/Pricing/Background.antt =====
-- The goroutine that `NewProvider` of pkg/providers/pricing/pricing.go starts. Its channels are events: the
-- leader was elected, the context was cancelled, the timer fired. Times are in milliseconds.
pub mod Clock
pub mod Laws
use gpu_provisioner.Base.{ℕ, ◌+◌, ◌≤◌, ltb, Option, if◌then◌else◌}
use gpu_provisioner.Base.Text.{Bytes}
use gpu_provisioner.Base.Dict.{Dict}
use gpu_provisioner.Base.Result.{Result, ok}
use gpu_provisioner.Base.Effect.{M, continue, pure, ◌>>=◌}
use gpu_provisioner.Pricing.Client.{Http}
use gpu_provisioner.Pricing.{Provider, UpdateErr, new_provider, update_on_demand_pricing}

-- twelve hours
abbrev pub pricing_update_period : ℕ
pricing_update_period = 43200000

-- Where the goroutine waits, with the time since when.
pub data Stage : Type 0 where
  starting stopped : Stage
  electing : (startup : ℕ) → Stage
  polling : (since : ℕ) → Stage

pub data Event : Type 0 where
  launched elected cancelled timer : Event

-- The calls of `updatePricing` are counted, which the program does not do.
pub record Loop (Price : Type 0) : Type 0 where
  pub stage : Stage
  pub provider : Provider Price ℕ
  pub updates : ℕ

module _ {W Price : Type 0} (http : Http W Price ℕ) (now : W → ℕ) (fuel : ℕ) where
  -- An error is logged, and the prices stay as they are.
  unfoldable pub update_pricing : Loop Price → M W (Loop Price)
  unfolding update_on_demand_pricing
  update_pricing l = do
    (failure, p) ← update_on_demand_pricing http now fuel l.provider
    pure (record l { provider = p; updates = l.updates + 1 })

  abbrev pub elect : Loop Price → M W (Loop Price)
  elect l w = (ok (record l { stage = electing (now w) }), w)

  -- `time.After` begins here
  abbrev pub poll : Loop Price → M W (Loop Price)
  poll l w = (ok (record l { stage = polling (now w) }), w)

  abbrev pub poll_when_elected : ℕ → Loop Price → M W (Loop Price)
  poll_when_elected startup l w =
      if ltb (startup + pricing_update_period) (now w)
      then continue (update_pricing l w) poll
      else poll l w

  -- What an event does in a stage. In the other stages nothing waits for it.
  abbrev pub react_at : Stage → Event → Loop Price → M W (Loop Price)
  react_at starting launched l w = continue (update_pricing l w) elect
  react_at (electing startup) elected l w = poll_when_elected startup l w
  react_at (electing startup) cancelled l w = (ok (record l { stage = stopped }), w)
  react_at (polling since) cancelled l w = (ok (record l { stage = stopped }), w)
  react_at (polling since) timer l w = continue (update_pricing l w) poll
  react_at _ _ l w = (ok l, w)

  unfoldable pub react : Event → Loop Price → M W (Loop Price)
  unfolding update_pricing
  react e l = react_at l.stage e l

-- The goroutine as `NewProvider` starts it.
unfoldable pub background : {Price : Type 0} → Provider Price ℕ → Loop Price
background p = record { stage = starting; provider = p; updates = 0 }
