-- ===== src/Fake/Prices.antt =====
-- pkg/fake/pricingapi.go: a service of prices that a test answers for.
pub mod Laws
use gpu_provisioner.Base.{Bool, true, false, Option, none, some, List, if◌then◌else◌}
use gpu_provisioner.Base.Text.{Bytes, codes}
use gpu_provisioner.Base.Result.{Err, Result, ok, err, panic, out_of_fuel, external, ◌>>=◌}
use gpu_provisioner.Pricing.Client.{Filter, ProductsPricePage}
use gpu_provisioner.Fake.Clone.{Json}
use gpu_provisioner.Fake.Ptr
use gpu_provisioner.Fake.Ptr.{AtomicPtr, clone_value}
use gpu_provisioner.Fake.Error
use gpu_provisioner.Fake.Error.{AtomicError, get}

pub record PricingApi (Price Time : Type 0) : Type 0 where
  pub next_error : AtomicError
  pub products_price_page : AtomicPtr (ProductsPricePage Price Time)

module _ {Price Time : Type 0} where
  unfoldable pub reset : PricingApi Price Time → PricingApi Price Time
  unfolding Ptr.reset Error.reset
  reset p = record {
    next_error = Error.reset p.next_error;
    products_price_page = Ptr.reset p.products_price_page;
  }

  -- `fn` changes the state of the caller. The answer is the error, and both states after the call.
  unfoldable pub get_products_price_pages :
      {W : Type 0}
      → Json (ProductsPricePage Price Time)
      → (ProductsPricePage Price Time → W → W)
      → PricingApi Price Time
      → W
      → Result (Option Err × PricingApi Price Time × W)
  unfolding Ptr.is_nil clone_value Error.is_nil get
  get_products_price_pages json fn p w =
      if Error.is_nil p.next_error
      then (if Ptr.is_nil p.products_price_page
          then ok (some (external (codes "no pricing data provided")), p, w)
          else (clone_value json p.products_price_page >>= λ page. ok (none, p, fn page w)))
      else (let (e, next_error) = get p.next_error in
          ok
            (e, record { next_error = next_error; products_price_page = p.products_price_page }, w))
