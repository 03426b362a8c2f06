-- ===== src/Fake/Prices/Laws.antt =====
-- What the double of the price service answers once its error is used up.
use gpu_provisioner.Base.{◌≤◌, ◌≡◌, ◌∙◌, refl, ap, false, Option, none, some, arith}
use gpu_provisioner.Base.Result.{Err, ok}
use gpu_provisioner.Pricing.Client.{ProductsPricePage}
use gpu_provisioner.Fake.Clone.{Json}
use gpu_provisioner.Fake.Error
use gpu_provisioner.Fake.Error.{AtomicError, get}
use gpu_provisioner.Fake.Error.Laws.{get_spent}
use gpu_provisioner.Fake.Prices.{PricingApi, get_products_price_pages}

is_nil-some : (a : AtomicError) (x : Err) → a.error ≡ some x → Error.is_nil a ≡ false
unfolding Error.is_nil
is_nil-some a x h = rw h refl

module _ {Price Time W : Type 0} (json : Json (ProductsPricePage Price Time))
    (fn : ProductsPricePage Price Time → W → W) where
  with_error :
      (p : PricingApi Price Time) (x : Err) (w : W)
      → p.next_error.error ≡ some x
      → get_products_price_pages json fn p w
        ≡ ok ((get p.next_error).0, record p { next_error = (get p.next_error).1 }, w)
  unfolding get_products_price_pages
  with_error p x w e = rw (is_nil-some p.next_error x e, get_products_price_pages)

  -- Once an error was injected and its calls are used up, every further call returns no error, and does
  -- not hand the page that the test has set to `fn`: the state of the caller stays what it was.
  pub get_products_price_pages_spent :
      (p : PricingApi Price Time) (x : Err) (w : W)
      → p.next_error.error ≡ some x
      → p.next_error.max_calls ≤ p.next_error.calls
      → get_products_price_pages json fn p w ≡ ok (none, p, w)
  get_products_price_pages_spent p x w e h =
      with_error p x w e
      ∙ ap (λ (q : Option Err × AtomicError). ok (q.0, record p { next_error = q.1 }, w))
          (get_spent p.next_error (ground (arith, h)))
